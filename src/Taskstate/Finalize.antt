-- ===== src/Taskstate/Finalize.antt =====
-- taskstate/sqlite.go, Finalize: the outcome of an attempt.
use narou_viewer.Prelude.{
  ℕ, String, Bool, true, false, not, ◌||◌, Option, none, some, if◌then◌else◌, str_eq, Result, err,
  ◌>>=◌, ◌>>◌, fail_if,
}
use narou_viewer.Taskstate.Model.{
  Row, Db, Task, TaskRef, Outcome, Status, queued, running, paused, interrupted, canceled,
  succeeded, RequestedAction, no_request, pause, cancel, Error, invalid_terminal_status,
}
use narou_viewer.Taskstate.Target.{Env}
use narou_viewer.Taskstate.Progress.{update_attempt, current_attempt}

-- The statuses that an outcome may not have: queued, running and "".
abbrev pub is_final : Option Status → Bool
is_final none = false
is_final (some queued) = false
is_final (some running) = false
is_final (some _) = true

abbrev pub committed_outcome : Outcome
committed_outcome = record {
  status = some succeeded;
  error = none;
  message = "Task completed";
  execution_committed = true;
}

abbrev pub requested_outcome : RequestedAction → Outcome → Outcome
requested_outcome pause o = record o {
  status = some paused;
  message = "Task paused";
  error = some "task pause requested";
}
requested_outcome cancel o = record o {
  status = some canceled;
  message = "Task cancelled";
  error = some "task cancel requested";
}
requested_outcome no_request o = o

-- A committed result wins over a requested action, and that over what the runner reports.
unfoldable pub settle : Task → Outcome → Outcome
settle t o =
    if t.execution_committed || o.execution_committed
    then committed_outcome
    else requested_outcome t.requested_action o

abbrev pub default_message : Option Status → String
default_message (some succeeded) = "Task completed"
default_message (some canceled) = "Task cancelled"
default_message _ = ""

abbrev pub message_of : Outcome → String
message_of o = if str_eq o.message "" then default_message o.status else o.message

abbrev pub error_text : Option String → String
error_text none = ""
error_text (some e) = e

abbrev pub when_paused : Status → Option ℕ → Option ℕ → Option ℕ
when_paused paused now old = now
when_paused _ now old = old

abbrev pub when_interrupted : Status → Option ℕ → Option ℕ → Option ℕ
when_interrupted interrupted now old = now
when_interrupted _ now old = old

-- The UPDATE of Finalize for a settled outcome of status `s`.
unfoldable pub set_outcome : ℕ → Status → Outcome → Row → Row
set_outcome now s o r = record r {
  status = s;
  requested_action = no_request;
  message = if str_eq (message_of o) "" then r.message else message_of o;
  error_message = error_text o.error;
  execution_committed = if o.execution_committed then true else r.execution_committed;
  finished_at = some now;
  updated_at = now;
  paused_at = when_paused s (some now) r.paused_at;
  interrupted_at = when_interrupted s (some now) r.interrupted_at;
}

unfoldable pub write_outcome : ℕ → TaskRef → Outcome → Option Status → Db → Result Error Db
write_outcome now ref o none db = err invalid_terminal_status
write_outcome now ref o (some s) db = update_attempt ref (set_outcome now s o) db

unfoldable pub finalize : Env → ℕ → TaskRef → Outcome → Db → Result Error Db
unfolding write_outcome
finalize env now ref o db = do
  fail_if (not (is_final o.status)) invalid_terminal_status
  task ← current_attempt env ref db
  write_outcome now ref (settle task o) (settle task o).status db
