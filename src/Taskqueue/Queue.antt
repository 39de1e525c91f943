-- ===== src/Taskqueue/Queue.antt =====
-- taskqueue/queue.go: what Queue adds to the repository. `wake` says that the channel of capacity
-- one holds a signal. `now` is the clock's value for the repository.
use narou_viewer.Prelude.{
  Bool, List, Option, Result, String, err, fail_if, if◌then◌else◌, none, not, ok, or_fail, some,
  str_eq, trim_space, true, ℕ, ℤ, ◌>>=◌, ◌>>◌, ◌||◌,
}
use narou_viewer.Taskstate.Claim.{claim_next}
use narou_viewer.Taskstate.Control.{request_cancel, request_pause, request_resume}
use narou_viewer.Taskstate.Enqueue.{EnqueueResult, enqueue}
use narou_viewer.Taskstate.Finalize.{finalize}
use narou_viewer.Taskstate.Model.{
  ControlResult, Db, Error, Outcome, Task, TaskProgress, TaskRef, canceled, failed, interrupted,
  is_running, paused, stale_task_attempt, succeeded, task_not_found,
}
use narou_viewer.Taskstate.Progress.{
  add_warning, set_failure_episode, set_saved_episode_count, set_target, set_work_id,
  update_message, update_progress,
}
use narou_viewer.Taskstate.Scan.{get_tx}
use narou_viewer.Taskstate.Target.{Env}

pub record Queue : Type 0 where
  pub db : Db
  pub wake : Bool

-- The channel is full, or takes the signal.
abbrev pub notify : Queue → Queue
notify q = record q { wake = true }

-- What errors.Is finds in the chain of an error, and its text.
pub record TaskError : Type 0 where
  pub is_pause_requested : Bool
  pub is_cancel_requested : Bool
  pub is_context_canceled : Bool
  pub is_runner_shutdown : Bool
  pub text : String

-- setOutcomeFromError
unfoldable pub set_outcome_from_error : Outcome → Option TaskError → Outcome
set_outcome_from_error o none = record o { status = some succeeded; message = "Task completed" }
set_outcome_from_error o (some e) =
    if e.is_pause_requested
    then record o { status = some paused; message = "Task paused" }
    else if e.is_cancel_requested || e.is_context_canceled
    then record o { status = some canceled; message = "Task cancelled" }
    else if e.is_runner_shutdown
    then record o {
      status = some interrupted;
      message = "Task interrupted during process shutdown";
    }
    else record o { status = some failed; message = e.text }

abbrev pub text_of : Option TaskError → Option String
text_of none = none
text_of (some e) = some e.text

-- The outcome that FinishTask reports for a claimed task.
unfoldable pub outcome_of : Task → Option TaskError → Outcome
outcome_of t e =
    set_outcome_from_error
      (record {
        status = some succeeded;
        error = text_of e;
        message = "";
        execution_committed = t.execution_committed;
      })
      e

-- The queue after a transaction that answers a value, or fails and is rolled back.
abbrev pub committed : {A : Type 0} → Queue → Result Error (Db × A) → Queue × Result Error A
committed q (ok (db, a)) = (record q { db = db }, ok a)
committed q (err e) = (q, err e)

-- A control that changed something wakes the runner.
abbrev pub wake_if_changed : Queue × Result Error ControlResult → Queue × Result Error ControlResult
wake_if_changed (q, err e) = (q, err e)
wake_if_changed (q, ok r) = if r.changed then (notify q, ok r) else (q, ok r)

abbrev pub kept : Db → Result Error Db → Db
kept db (ok db') = db'
kept db (err e) = db

module _ (env : Env) where
  abbrev pub wake_if_enqueued :
      Queue × Result Error EnqueueResult → Queue × Result Error EnqueueResult
  wake_if_enqueued (q, ok r) = (notify q, ok r)
  wake_if_enqueued (q, err e) = (q, err e)

  -- Queue.Enqueue
  unfoldable pub enqueue_tasks :
      ℕ → List (Task × String) → Queue → Queue × Result Error EnqueueResult
  enqueue_tasks now ts q = wake_if_enqueued (committed q (enqueue env now ts q.db))

  -- Queue.ClaimNext
  unfoldable pub claim_task : ℕ → Queue → Queue × Result Error (Option Task)
  claim_task now q = committed q (claim_next env now q.db)

  -- Queue.RequestPause, Queue.RequestCancel and Queue.RequestResume
  unfoldable pub pause_task : String → ℕ → Queue → Queue × Result Error ControlResult
  pause_task id now q = wake_if_changed (committed q (request_pause env id now q.db))

  unfoldable pub cancel_task : String → ℕ → Queue → Queue × Result Error ControlResult
  cancel_task id now q = wake_if_changed (committed q (request_cancel env id now q.db))

  unfoldable pub resume_task : String → ℕ → Queue → Queue × Result Error ControlResult
  resume_task id now q = wake_if_changed (committed q (request_resume env id now q.db))

  -- runningRef: the attempt that a report by id is for.
  unfoldable pub running_ref : String → Db → Result Error TaskRef
  running_ref id db = do
    found ← get_tx env id db
    task ← or_fail found task_not_found
    fail_if (not (is_running task.status)) stale_task_attempt
    ok (record { task_id = id; attempt = task.attempt_count })

  -- A report, with nothing between its reads and its write: no running attempt and a failed write are both passed over.
  unfoldable pub report : String → (TaskRef → Db → Result Error Db) → Db → Db
  unfolding running_ref
  report id write db = kept db (running_ref id db >>= λ ref. write ref db)

  unfoldable pub set_task_progress : String → ℕ → TaskProgress → Db → Db
  unfolding report
  set_task_progress id now p db = report id (λ ref. update_progress now ref p) db

  unfoldable pub set_task_message : String → ℕ → String → Db → Db
  unfolding report
  set_task_message id now text db = report id (λ ref. update_message now ref text) db

  unfoldable pub add_task_warning : String → ℕ → String → Db → Db
  unfolding report
  add_task_warning id now text db =
      if str_eq (trim_space text) ""
      then db
      else report id (λ ref found. add_warning env now ref text found found) db

  unfoldable pub set_task_target : String → ℕ → String → Db → Db
  unfolding report
  set_task_target id now label db = report id (λ ref. set_target now ref label) db

  unfoldable pub set_task_work_id : String → ℕ → ℤ → Db → Result Error Db
  unfolding running_ref
  set_task_work_id id now work db = do ref ← running_ref id db; set_work_id env now ref work db

  unfoldable pub set_task_saved_episode_count : String → ℕ → ℤ → Db → Db
  unfolding report
  set_task_saved_episode_count id now n db = report id (λ ref. set_saved_episode_count now ref n) db

  unfoldable pub set_task_failure_episode : String → ℕ → String → String → Db → Db
  unfolding report
  set_task_failure_episode id now failed_id resume_id db =
      report id (λ ref. set_failure_episode now ref failed_id resume_id) db

  -- FinishTask
  unfoldable pub finish_task : ℕ → Task → Option TaskError → Db → Result Error Db
  unfolding outcome_of
  finish_task now t e db =
      finalize env now (record { task_id = t.id; attempt = t.attempt_count }) (outcome_of t e) db
