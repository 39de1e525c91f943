-- ===== src/Worker/Runner.antt =====
-- worker/runner.go: what the runner keeps in memory about the current task, and its controls.
-- Each control holds the lock of its task, so it is one step; r.mu guards the fields.
-- The cause that a control gives to the context of its task.
use narou_viewer.Prelude.{
  Bool, List, Option, Result, String, [], err, false, if◌then◌else◌, none, not, ok, some, str_eq, ℕ,
  ◌&&◌, ◌==◌, ◌∷◌,
}
use narou_viewer.Taskqueue.Queue.{Queue, cancel_task, pause_task, resume_task}
use narou_viewer.Taskstate.Control.{same_action}
use narou_viewer.Taskstate.Model.{
  ControlResult, Error, RequestedAction, TaskRef, cancel, is_no_request, no_request, pause,
  task_state_conflict,
}
use narou_viewer.Taskstate.Target.{Env}

pub data Cause : Type 0 where
  pause_cause cancel_cause : Cause

-- The fields taskRef, taskFinalizing, taskAction and taskCancel. `task_cancel` is `none` for nil,
-- and else the cause with which the context of the task was canceled, if it was.
pub record Runner : Type 0 where
  pub task_ref : TaskRef
  pub task_finalizing : Bool
  pub task_action : RequestedAction
  pub task_cancel : Option (Option Cause)

abbrev pub no_task : TaskRef
no_task = record { task_id = ""; attempt = 0 }

abbrev pub same_ref : TaskRef → TaskRef → Bool
same_ref a b = str_eq a.task_id b.task_id && a.attempt == b.attempt

-- A context keeps the cause of its first cancellation.
abbrev pub cancel_with : Cause → Option (Option Cause) → Option (Option Cause)
cancel_with c none = none
cancel_with c (some none) = some (some c)
cancel_with c (some (some d)) = some (some d)

abbrev pub cause_of : RequestedAction → Cause
cause_of pause = pause_cause
cause_of _ = cancel_cause

-- What requestControl records for the current task.
abbrev pub record_signal : RequestedAction → Runner → Runner
record_signal action r = record r {
  task_action = action;
  task_cancel =
      if is_no_request r.task_action
      then cancel_with (cause_of action) r.task_cancel
      else r.task_cancel;
}

-- The part of requestControl before the action is persisted.
unfoldable pub signal_control : String → RequestedAction → Runner → Result Error Runner
signal_control id action r =
    if str_eq r.task_ref.task_id id
    then (if not (is_no_request r.task_action) && not (same_action r.task_action action)
        then err task_state_conflict
        else if r.task_finalizing && is_no_request r.task_action
        then err task_state_conflict
        else ok (record_signal action r))
    else ok r

module _ (env : Env) where
  -- persistControl
  unfoldable pub persist_control :
      String → RequestedAction → ℕ → Queue → Queue × Result Error ControlResult
  persist_control id cancel now q = cancel_task env id now q
  persist_control id _ now q = pause_task env id now q

  persist_signaled :
      Result Error Runner
      → String
      → RequestedAction
      → ℕ
      → Runner
      → Queue
      → (Runner × Queue) × Result Error ControlResult
  persist_signaled (err e) id action now r q = ((r, q), err e)
  persist_signaled (ok signaled) id action now r q =
      let (persisted, answer) = persist_control id action now q in ((signaled, persisted), answer)

  -- requestControl
  unfoldable pub request_control :
      String → RequestedAction → ℕ → Runner → Queue → (Runner × Queue) × Result Error ControlResult
  unfolding persist_signaled
  request_control id action now r q =
      persist_signaled (signal_control id action r) id action now r q

  -- RequestResume
  unfoldable pub resume_current : String → ℕ → Runner → Queue → Queue × Result Error ControlResult
  resume_current id now r q =
      if str_eq r.task_ref.task_id id && r.task_finalizing
      then (q, err task_state_conflict)
      else resume_task env id now q

-- What claimNext records once the requested action of a claimed task was read.
abbrev pub adopted_cause : RequestedAction → Option Cause
adopted_cause pause = some pause_cause
adopted_cause cancel = some cancel_cause
adopted_cause no_request = none

unfoldable pub adopt : TaskRef → RequestedAction → Runner → Runner
adopt ref action r = record {
  task_ref = ref;
  task_finalizing = false;
  task_action = action;
  task_cancel = some (adopted_cause action);
}

-- The loop of claimNext over the answers of RequestedAction, until the context of the runner is done.
unfoldable pub adopt_reads :
    TaskRef
    → Result Error RequestedAction
    → List (Result Error RequestedAction)
    → Runner
    → Result Error Runner
unfolding adopt
adopt_reads ref (ok action) more r = ok (adopt ref action r)
adopt_reads ref (err e) [] r = err e
adopt_reads ref (err e) (next ∷ more) r = adopt_reads ref next more r

-- clearTask
unfoldable pub clear_task : TaskRef → Runner → Runner
clear_task ref r =
    if same_ref r.task_ref ref
    then record {
      task_ref = no_task;
      task_finalizing = false;
      task_action = no_request;
      task_cancel = none;
    }
    else r
