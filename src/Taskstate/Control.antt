-- ===== src/Taskstate/Control.antt =====
-- taskstate/sqlite.go, RequestPause, RequestCancel and RequestResume.
use narou_viewer.Prelude.{
  ℕ, is_pos, String, Bool, true, false, not, ◌&&◌, none, some, if◌then◌else◌, ◌==◌, find, count,
  is_some, Result, ok, err, ◌>>=◌, ◌>>◌, or_fail, fail_if,
}
use narou_viewer.Taskstate.Model.{
  Row, Db, Task, Error, Status, queued, running, paused, interrupted, failed, canceled, succeeded,
  is_running, RequestedAction, no_request, pause, cancel, is_no_request, ControlResult,
  task_not_found, task_state_conflict, task_already_active, constraint, reserved_dedupe,
}
use narou_viewer.Taskstate.Target.{Env}
use narou_viewer.Taskstate.Schema.{
  by_id, update_tasks, delete_queue, insert_queue, reserves_key, reserves_work, and_other,
}
use narou_viewer.Taskstate.Scan.{get_tx}

-- What requestAction does with a task, from its state and the action.
pub data Decision : Type 0 where
  refuse unchanged pause_queued cancel_queued cancel_idle request_running : Decision

abbrev pub same_action : RequestedAction → RequestedAction → Bool
same_action no_request no_request = true
same_action pause pause = true
same_action cancel cancel = true
same_action _ _ = false

abbrev pub decide_running : Bool → RequestedAction → RequestedAction → Decision
decide_running true current action = refuse
decide_running false current action =
    if same_action current action
    then unchanged
    else if is_no_request current
    then request_running
    else refuse

-- The ladder of tests of requestAction; its action is pause or cancel.
unfoldable pub decide_action : Status → Bool → RequestedAction → RequestedAction → Decision
decide_action succeeded committed current action = refuse
decide_action canceled committed current action = refuse
decide_action failed committed current pause = refuse
decide_action interrupted committed current pause = refuse
decide_action paused committed current pause = unchanged
decide_action running committed current action = decide_running committed current action
decide_action queued committed current pause = pause_queued
decide_action queued committed current cancel = cancel_queued
decide_action paused committed current cancel = cancel_idle
decide_action interrupted committed current cancel = cancel_idle
decide_action failed committed current cancel = cancel_idle
decide_action _ committed current no_request = refuse

unfoldable pub set_paused : ℕ → Row → Row
set_paused now r = record r {
  status = paused;
  requested_action = no_request;
  paused_at = some now;
  updated_at = now;
}

unfoldable pub set_canceled : ℕ → Row → Row
set_canceled now r = record r {
  status = canceled;
  requested_action = no_request;
  message = "Task cancelled";
  finished_at = some now;
  updated_at = now;
}

unfoldable pub set_action : RequestedAction → ℕ → Row → Row
set_action action now r = record r { requested_action = action; updated_at = now }

-- WHERE task_id = ? AND status = 'running' AND execution_committed = 0 AND requested_action = ''
abbrev pub by_open_control : String → Row → Bool
by_open_control id r =
    by_id id r
    && (is_running r.status && (not r.execution_committed && is_no_request r.requested_action))

unfoldable pub set_queued : ℕ → Row → Row
set_queued now r = record r {
  status = queued;
  requested_action = no_request;
  execution_committed = false;
  finished_at = none;
  paused_at = none;
  interrupted_at = none;
  last_enqueued_at = now;
  updated_at = now;
}

-- isActiveReservationConstraint: a lost race for the dedupe key is reported as already active.
unfoldable pub resume_error : {A : Type 0} → Result Error A → Result Error A
resume_error (err (constraint reserved_dedupe)) = err task_already_active
resume_error r = r

module _ (env : Env) where
  -- The task as it stands in the transaction; no row is ErrTaskNotFound.
  unfoldable pub required : String → Db → Result Error Task
  required id db = do found ← get_tx env id db; or_fail found task_not_found

  -- The task is read again, and the transaction commits.
  unfoldable pub changed_result : String → Db → Result Error (Db × ControlResult)
  unfolding required
  changed_result id db = do task ← required id db; ok (db, record { task = task; changed = true })

  -- The statement that the decision asks for.
  unfoldable pub apply_decision :
      Decision → String → RequestedAction → ℕ → Task → Db → Result Error (Db × ControlResult)
  unfolding changed_result
  apply_decision refuse id action now task db = err task_state_conflict
  apply_decision unchanged id action now task db = ok (db, record { task = task; changed = false })
  apply_decision pause_queued id action now task db = do
    db' ← update_tasks (by_id id) (set_paused now) (delete_queue id db)
    changed_result id db'
  apply_decision cancel_queued id action now task db = do
    db' ← update_tasks (by_id id) (set_canceled now) (delete_queue id db)
    changed_result id db'
  apply_decision cancel_idle id action now task db = do
    db' ← update_tasks (by_id id) (set_canceled now) db
    changed_result id db'
  apply_decision request_running id action now task db = do
    db' ← update_tasks (by_open_control id) (set_action action now) db
    fail_if (not (count (by_open_control id) db.tasks == 1)) task_state_conflict
    changed_result id db'

  unfoldable pub request_action :
      String → RequestedAction → ℕ → Db → Result Error (Db × ControlResult)
  unfolding apply_decision required
  request_action id action now db = do
    task ← required id db
    apply_decision (decide_action task.status task.execution_committed task.requested_action action)
        id action now task db

  abbrev pub request_pause : String → ℕ → Db → Result Error (Db × ControlResult)
  request_pause id now db = request_action id pause now db

  abbrev pub request_cancel : String → ℕ → Db → Result Error (Db × ControlResult)
  request_cancel id now db = request_action id cancel now db

  -- The part of RequestResume after the tests on the status.
  unfoldable pub requeue : String → ℕ → Task → Db → Result Error (Db × ControlResult)
  unfolding changed_result
  requeue id now task db = do
    fail_if (is_some (find (and_other id (reserves_key task.dedupe_key)) db.tasks))
        task_already_active
    fail_if
        (if is_pos task.work_id
          then is_some (find (and_other id (reserves_work task.work_id)) db.tasks)
          else false)
        task_already_active
    db' ← resume_error (update_tasks (by_id id) (set_queued now) db)
    queued_db ← insert_queue id db'
    changed_result id queued_db

  unfoldable pub resume_from : Status → String → ℕ → Task → Db → Result Error (Db × ControlResult)
  unfolding requeue
  resume_from queued id now task db = ok (db, record { task = task; changed = false })
  resume_from running id now task db = ok (db, record { task = task; changed = false })
  resume_from canceled id now task db = err task_state_conflict
  resume_from succeeded id now task db = err task_state_conflict
  resume_from _ id now task db = requeue id now task db

  unfoldable pub request_resume : String → ℕ → Db → Result Error (Db × ControlResult)
  unfolding resume_from required
  request_resume id now db = do task ← required id db; resume_from task.status id now task db
