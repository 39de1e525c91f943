-- ===== src/Worker/Finalizing.antt =====
-- worker/runner.go, beginFinalizing: a signaled action is made durable before the outcome is chosen.
use Prim.Native.String.{◌++◌}
-- retryableControlPersistence
use narou_viewer.Prelude.{
  Bool, List, Option, Result, String, [], err, false, if◌then◌else◌, none, ok, some, true, ℕ, ◌∷◌,
}
use narou_viewer.Taskqueue.Queue.{Queue, TaskError, finish_task}
use narou_viewer.Taskstate.Model.{
  ControlResult, Db, Error, RequestedAction, Task, TaskRef, is_no_request, pause,
  stale_task_attempt, task_already_active, task_not_found, task_state_conflict,
}
use narou_viewer.Taskstate.Target.{Env}
use narou_viewer.Worker.Runner.{Cause, Runner, cancel_cause, pause_cause, persist_control, same_ref}

unfoldable pub is_retryable : Error → Bool
is_retryable task_not_found = false
is_retryable task_state_conflict = false
is_retryable task_already_active = false
is_retryable stale_task_attempt = false
is_retryable _ = true

-- An attempt to persist the action: the driver fails, or the repository answers at a time.
pub data Attempt : Type 0 where
  driver_fails : Attempt
  answers_at : ℕ → Attempt

-- How the loop ends; `stopped` is the end of the runner's context while it waits.
pub data Persisted : Type 0 where
  stored stopped : Persisted
  gave_up : Error → Persisted

abbrev pub pause_error : TaskError
pause_error = record {
  is_pause_requested = true;
  is_cancel_requested = false;
  is_context_canceled = false;
  is_runner_shutdown = false;
  text = "task pause requested";
}

abbrev pub cancel_error : TaskError
cancel_error = record {
  is_pause_requested = false;
  is_cancel_requested = true;
  is_context_canceled = false;
  is_runner_shutdown = false;
  text = "task cancel requested";
}

abbrev pub cause_error : Cause → TaskError
cause_error pause_cause = pause_error
cause_error cancel_cause = cancel_error

-- fmt.Errorf("persist requested task action: %w", …), of one of the four sentinels.
abbrev pub persist_error : String → TaskError
persist_error text = record {
  is_pause_requested = false;
  is_cancel_requested = false;
  is_context_canceled = false;
  is_runner_shutdown = false;
  text = "persist requested task action: " ++ text;
}

abbrev pub first_of : Option TaskError → Option TaskError → Option TaskError
first_of (some e) f = some e
first_of none f = f

-- context.Cause(taskCtx): the cause of a control, or else that of the runner's context.
abbrev pub task_cause : Option (Option Cause) → Option TaskError → Option TaskError
task_cause (some (some c)) parent = some (cause_error c)
task_cause _ parent = parent

-- The error of the executor, with the cause of a canceled context in its place.
abbrev pub executor_error : Option TaskError → Option TaskError → Option TaskError
executor_error none cause = none
executor_error (some e) cause = if e.is_context_canceled then first_of cause (some e) else some e

-- The error that FinishTask gets where an action was signaled.
abbrev pub signaled_error :
    (Error → String) → Persisted → RequestedAction → TaskError → Option TaskError
signaled_error describe stopped action ended = some ended
signaled_error describe (gave_up e) action ended = some (persist_error (describe e))
signaled_error describe stored pause ended = some pause_error
signaled_error describe stored _ ended = some cancel_error

abbrev pub ref_of : Task → TaskRef
ref_of t = record { task_id = t.id; attempt = t.attempt_count }

module _ (env : Env) where
  persist_answer : Queue × Result Error ControlResult → Queue × Persisted → Queue × Persisted
  persist_answer (q, ok r) retried = (q, stored)
  persist_answer (q, err e) retried = if is_retryable e then retried else (q, gave_up e)

  -- The loop of beginFinalizing over the attempts that the runner's context leaves time for.
  unfoldable pub persist_loop : String → RequestedAction → List Attempt → Queue → Queue × Persisted
  unfolding persist_answer
  persist_loop id action [] q = (q, stopped)
  persist_loop id action (driver_fails ∷ more) q = persist_loop id action more q
  persist_loop id action (answers_at now ∷ more) q =
      persist_answer (persist_control env id action now q) (persist_loop id action more q)

  -- beginFinalizing: the runner, the queue and the error for FinishTask. `executor_err` is what the
  -- executor returned, and `ended` and `parent` the cause of the runner's context.
  unfoldable pub begin_finalizing :
      (Error → String)
      → TaskRef
      → List Attempt
      → TaskError
      → Option TaskError
      → Option TaskError
      → Runner
      → Queue
      → Runner × Queue × Option TaskError
  begin_finalizing describe ref attempts ended parent executor_err r q =
      if same_ref r.task_ref ref
      then (if is_no_request r.task_action
          then (
            record r { task_finalizing = true },
            q,
            executor_error executor_err (task_cause r.task_cancel parent),
          )
          else (let (q', how) = persist_loop ref.task_id r.task_action attempts q in
              (
                record r { task_finalizing = true },
                q',
                signaled_error describe how r.task_action ended,
              )))
      else (r, q, executor_err)

  finish_with : ℕ → Task → Runner × Queue × Option TaskError → Result Error Db
  finish_with later t (r, q, e) = finish_task env later t e q.db

  -- What drain does after the executor returned: beginFinalizing, then FinishTask.
  unfoldable pub conclude :
      (Error → String)
      → Task
      → List Attempt
      → TaskError
      → Option TaskError
      → Option TaskError
      → ℕ
      → Runner
      → Queue
      → Result Error Db
  unfolding finish_with begin_finalizing
  conclude describe t attempts ended parent executor_err later r q =
      finish_with later t
        (begin_finalizing describe (ref_of t) attempts ended parent executor_err r q)
