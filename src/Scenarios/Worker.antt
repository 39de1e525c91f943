-- ===== src/Scenarios/Worker.antt =====
-- The end of a task with a signaled pause.
-- The task as claimed, with a pause that was signaled but is not in the row yet.
use narou_viewer.Prelude.{
  [], count, false, if◌then◌else◌, inl, none, ok, refl, some, true, ◌<◌, ◌∷◌, ◌≡◌, ◌⊎◌,
}
use narou_viewer.Scenarios.Tables.{
  alone, env0, pause_real, running_Inv, running_db, running_row, running_status, update_request,
  waiting_Inv, waiting_db,
}
use narou_viewer.Taskqueue.Queue.{TaskError}
use narou_viewer.Taskstate.Behaviour.Ending.{Ends}
use narou_viewer.Taskstate.Claim.{start}
use narou_viewer.Taskstate.Enqueue.{new_row}
use narou_viewer.Taskstate.Model.{Db, Task, no_request, pause, paused, succeeded}
use narou_viewer.Taskstate.Progress.{has_queued_tasks}
use narou_viewer.Taskstate.Scan.{task_of}
use narou_viewer.Worker.Finalizing.{answers_at, conclude, driver_fails, ref_of}
use narou_viewer.Worker.Loop.{sleeping, start_of, started}
use narou_viewer.Worker.Runner.{Runner, pause_cause}
use narou_viewer.Worker.Signaled.{again, conclude-signaled_end, reached}
use narou_viewer.Worker.Wakeup.{sleeping-notified}

abbrev claimed_task : Task
claimed_task = task_of running_row update_request

abbrev signaled_runner : Runner
signaled_runner = record {
  task_ref = ref_of claimed_task;
  task_finalizing = false;
  task_action = pause;
  task_cancel = some (some pause_cause);
}

abbrev some_error : TaskError
some_error = record {
  is_pause_requested = false;
  is_cancel_requested = false;
  is_context_canceled = true;
  is_runner_shutdown = false;
  text = "context canceled";
}

running_open :
    (running_row.requested_action ≡ no_request) × (running_row.execution_committed ≡ false)
unfolding start
running_open = (refl, refl)

conclude-signaled_end_example :
    (db' : Db) × (conclude env0
        (λ e. "")
        claimed_task
        (driver_fails ∷ answers_at 4 ∷ [])
        some_error
        none
        (some some_error)
        5
        signaled_runner
        (record { db = running_db; wake = false })
      ≡ ok db')
    × Ends running_row.task_id (if running_row.execution_committed then succeeded else paused) db'
conclude-signaled_end_example =
    conclude-signaled_end env0 (λ e. "") claimed_task (driver_fails ∷ answers_at 4 ∷ []) some_error
      none (some some_error) 5 4 signaled_runner (record { db = running_db; wake = false })
      running_row running_Inv (alone running_row) running_status refl refl pause_real
      (inl running_open.0) (again reached) running_open.1

waiting_has_queued : has_queued_tasks (started waiting_db).db ≡ true
unfolding has_queued_tasks started count new_row
waiting_has_queued = refl

started_sleeps : (started waiting_db).mode ≡ sleeping
unfolding started
started_sleeps = refl

sleeping-notified_example :
    ((started waiting_db).wake ≡ true) ⊎ (0 < (started waiting_db).notifying)
sleeping-notified_example =
    sleeping-notified env0 waiting_db (started waiting_db) waiting_Inv start_of started_sleeps
      waiting_has_queued
