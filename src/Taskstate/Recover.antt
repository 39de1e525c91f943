-- ===== src/Taskstate/Recover.antt =====
-- taskstate/sqlite.go, RecoverOnStartup: what a process that died left running.
use narou_viewer.Prelude.{
  ℕ, ltb, String, Bool, true, false, not, ◌&&◌, none, some, List, [], ◌∷◌, if◌then◌else◌, ◌==◌,
  str_eq, any, count, Result, ok, ◌>>=◌, ◌>>◌, fail_if,
}
use narou_viewer.Taskstate.Model.{
  Row, Db, Status, interrupted, failed, canceled, succeeded, is_queued, is_running, is_reserved,
  RequestedAction, no_request, cancel, Error, unsupported_version, malformed_row,
  task_state_conflict,
}
use narou_viewer.Taskstate.Target.{Env}
use narou_viewer.Taskstate.Request.{decode_request}
use narou_viewer.Taskstate.Schema.{by_id, update_tasks}
use narou_viewer.Taskstate.Scan.{current_request_version}
use narou_viewer.Taskstate.Finalize.{when_interrupted}
use narou_viewer.Taskstate.Progress.{is_running_row}

-- status IN ('queued', 'running', 'paused', 'interrupted', 'failed')
abbrev pub is_open : Status → Bool
is_open failed = true
is_open s = is_reserved s

-- The status and message of a running row after a restart.
abbrev pub recovered : Bool → RequestedAction → Status × String
recovered true a = (succeeded, "Task completed")
recovered false cancel = (canceled, "Task cancelled during process recovery")
recovered false _ = (interrupted, "Task interrupted during process recovery")

unfoldable pub set_recovered : ℕ → Row → Row
set_recovered now r =
    let (s, text) = recovered r.execution_committed r.requested_action in
    record r {
      status = s;
      requested_action = no_request;
      message = text;
      finished_at = some now;
      updated_at = now;
      paused_at = none;
      interrupted_at = when_interrupted s (some now) r.interrupted_at;
    }

-- WHERE task_id = ? AND status = 'running'
abbrev pub by_running_id : String → Row → Bool
by_running_id id r = by_id id r && is_running r.status

-- The UPDATE of one row that the SELECT found; its values come from the row as read.
unfoldable pub recover_row : ℕ → Row → Db → Result Error Db
recover_row now r db =
    if is_running r.status
    then update_tasks (by_running_id r.task_id) (set_recovered now) db
    else ok db

unfoldable pub recover_rows : ℕ → List Row → Db → Result Error Db
recover_rows now [] db = ok db
recover_rows now (r ∷ rows) db = do db' ← recover_row now r db; recover_rows now rows db'

-- A queued row without a queue row, and a queue row of a task that is not queued.
unfoldable pub queue_gap : Db → Row → Bool
queue_gap db r = is_queued r.status && not (any (str_eq r.task_id) db.queue)

unfoldable pub queue_stray : Db → Row → Bool
queue_stray db r = not (is_queued r.status) && any (str_eq r.task_id) db.queue

module _ (env : Env) where
  unfoldable pub check_request : Row → Result Error (Unit {0})
  check_request r = do
    fail_if (not (r.request_version == current_request_version)) unsupported_version
    q ← decode_request env r.request_json
    fail_if (not (str_eq q.kind r.kind)) malformed_row

  -- The first loop: each open row has a request that this version reads.
  unfoldable pub check_requests : List Row → Result Error (Unit {0})
  unfolding check_request
  check_requests [] = ok tt
  check_requests (r ∷ rows) = do
    (if is_open r.status then check_request r else ok tt)
    check_requests rows

  unfoldable pub recover_on_startup : ℕ → Db → Result Error Db
  recover_on_startup now db = do
    check_requests db.tasks
    fail_if (ltb 0 (count (queue_gap db) db.tasks)) task_state_conflict
    fail_if (ltb 0 (count (queue_stray db) db.tasks)) task_state_conflict
    fail_if (ltb 1 (count is_running_row db.tasks)) task_state_conflict
    recover_rows now db.tasks db
