-- ===== src/Taskstate/Progress.antt =====
-- taskstate/sqlite.go, the writes of a running attempt and the reads of the queue's state.
use narou_viewer.Prelude.{
  Bool, List, Option, Result, String, int_max, int_suc, none, some, [], any, count, fail_if, false,
  find, if◌then◌else◌, int_eq, is_pos, is_some, ltb, not, ok, or_fail, pos, str_eq, trim_space,
  true, ℕ, ℤ, ◌&&◌, ◌++◌, ◌+◌, ◌==◌, ◌>>=◌, ◌>>◌, ◌∷◌,
}
use narou_viewer.Taskstate.Model.{
  Db, Error, Request, RequestedAction, Row, Task, TaskProgress, TaskRef, encoded, foreign_work,
  interrupted, is_queued, is_running, nonpositive_work, paused, stale_task_attempt,
  task_already_active,
}
use narou_viewer.Taskstate.Request.{request_for_task}
use narou_viewer.Taskstate.Scan.{get_tx}
use narou_viewer.Taskstate.Schema.{and_other, by_attempt, reserves_work, update_tasks}
use narou_viewer.Taskstate.Target.{Env}

-- An UPDATE of a running attempt, and requireAttemptUpdate on its count of rows.
unfoldable pub update_attempt : TaskRef → (Row → Row) → Db → Result Error Db
update_attempt ref f db = do
  db' ← update_tasks (by_attempt ref) f db
  fail_if (not (count (by_attempt ref) db.tasks == 1)) stale_task_attempt
  ok db'

-- ReadRequestedAction
unfoldable pub read_requested_action : TaskRef → Db → Result Error RequestedAction
read_requested_action ref db = do
  row ← or_fail (find (by_attempt ref) db.tasks) stale_task_attempt
  ok row.requested_action

-- CASE WHEN ? <> '' THEN ? ELSE message END
abbrev pub replace_message : String → String → String
replace_message new old = if str_eq new "" then old else new

unfoldable pub set_progress : ℕ → TaskProgress → Row → Row
set_progress now p r = record r {
  phase = p.phase;
  current_step = p.current_step;
  total_steps = p.total_steps;
  message = replace_message p.message r.message;
  updated_at = now;
}

-- UpdateProgress
unfoldable pub update_progress : ℕ → TaskRef → TaskProgress → Db → Result Error Db
unfolding set_progress
update_progress now ref p db = update_attempt ref (set_progress now p) db

-- UpdateMessage
unfoldable pub update_message : ℕ → TaskRef → String → Db → Result Error Db
update_message now ref text db =
    update_attempt ref (λ r. record r { message = text; updated_at = now }) db

-- SetTarget
unfoldable pub set_target : ℕ → TaskRef → String → Db → Result Error Db
set_target now ref label db =
    update_attempt ref (λ r. record r { target_label = label; updated_at = now }) db

-- SetSavedEpisodeCount
unfoldable pub set_saved_episode_count : ℕ → TaskRef → ℤ → Db → Result Error Db
set_saved_episode_count now ref n db =
    update_attempt ref (λ r. record r { saved_episode_count = n; updated_at = now }) db

-- SetFailureEpisode
unfoldable pub set_failure_episode : ℕ → TaskRef → String → String → Db → Result Error Db
set_failure_episode now ref failed_id resume_id db =
    update_attempt ref
      (λ r. record r {
        failed_episode_id = failed_id;
        resume_episode_id = resume_id;
        updated_at = now;
      })
      db

-- Not the running attempt that the reference names.
abbrev pub is_stale : TaskRef → Task → Bool
is_stale ref t = not (t.attempt_count == ref.attempt && is_running t.status)

unfoldable pub set_warnings : ℕ → List String → Row → Row
set_warnings now texts r = record r { warnings = texts; updated_at = now }

-- The UPDATE of AddWarning.
unfoldable pub write_warnings : ℕ → TaskRef → List String → Db → Result Error Db
unfolding set_warnings
write_warnings now ref texts db = update_attempt ref (set_warnings now texts) db

-- The UPDATE of fetch_tasks for an episode that is saved, with MAX(column, ?) of two counts.
unfoldable pub set_checkpoint : ℕ → ℤ → String → Row → Row
set_checkpoint now saved next_episode r = record r {
  saved_episode_count = int_max r.saved_episode_count saved;
  current_step = int_max r.current_step saved;
  resume_episode_id = next_episode;
  updated_at = now;
}

-- What RecordTaskEpisodeCheckpoint and the save of an episode do to the task.
unfoldable pub record_checkpoint : ℕ → TaskRef → ℤ → String → Db → Result Error Db
unfolding set_checkpoint
record_checkpoint now ref sort_order next_episode db =
    update_attempt ref (set_checkpoint now (int_suc sort_order) next_episode) db

unfoldable pub set_work : ℕ → ℤ → Request → String → String → Row → Row
set_work now work request key fingerprint r = record r {
  request_json = encoded request;
  dedupe_key = key;
  request_fingerprint = fingerprint;
  primary_work_id = work;
  updated_at = now;
}

-- Nothing is written where there is nothing new.
abbrev pub write_new : ℕ → TaskRef → Option (List String) → Db → Result Error Db
write_new now ref none db = ok db
write_new now ref (some texts) db = update_attempt ref (set_warnings now texts) db

module _ (env : Env) where
  -- The task that a reference names, if it is the running attempt.
  unfoldable pub current_attempt : TaskRef → Db → Result Error Task
  current_attempt ref db = do
    found ← get_tx env ref.task_id db
    task ← or_fail found stale_task_attempt
    fail_if (is_stale ref task) stale_task_attempt
    ok task

  -- The part of AddWarning before its UPDATE: the warnings to write, none for a repeated one.
  unfoldable pub new_warnings : TaskRef → String → Db → Result Error (Option (List String))
  unfolding current_attempt
  new_warnings ref warning db = do
    task ← current_attempt ref db
    ok (if any (str_eq warning) task.warnings then none else some (task.warnings ++ warning ∷ []))

  -- AddWarning, on the tables that its SELECT reads and those that its UPDATE finds, since it is no
  -- transaction. Blank and repeated warnings write nothing.
  unfoldable pub add_warning : ℕ → TaskRef → String → Db → Db → Result Error Db
  unfolding new_warnings set_warnings
  add_warning now ref warning before_write db =
      if str_eq (trim_space warning) ""
      then ok db
      else do found ← new_warnings ref warning before_write; write_new now ref found db

  unfoldable pub bind_work : ℕ → TaskRef → ℤ → Task → Db → Result Error Db
  unfolding set_work
  bind_work now ref work task db = do
    fail_if (not (int_eq task.work_id (pos 0))) foreign_work
    fail_if (is_some (find (and_other ref.task_id (reserves_work work)) db.tasks))
        task_already_active
    (request, key, fingerprint) ← request_for_task env (record task { work_id = work })
    update_attempt ref (set_work now work request key fingerprint) db

  -- SetWorkID
  unfoldable pub set_work_id : ℕ → TaskRef → ℤ → Db → Result Error Db
  unfolding bind_work current_attempt
  set_work_id now ref work db = do
    fail_if (not (is_pos work)) nonpositive_work
    task ← current_attempt ref db
    if int_eq task.work_id work then ok db else bind_work now ref work task db

pub record QueueCounts : Type 0 where
  pub total : ℕ
  pub queued_count : ℕ
  pub is_busy : Bool
  pub paused_count : ℕ
  pub interrupted_count : ℕ

abbrev pub is_paused_row : Row → Bool
is_paused_row r = elim r.status [ paused ↦ true | _ ↦ false ]

abbrev pub is_interrupted_row : Row → Bool
is_interrupted_row r = elim r.status [ interrupted ↦ true | _ ↦ false ]

abbrev pub is_queued_row : Row → Bool
is_queued_row r = is_queued r.status

abbrev pub is_running_row : Row → Bool
is_running_row r = is_running r.status

-- QueueCounts
unfoldable pub queue_counts : Db → QueueCounts
queue_counts db =
    let waiting = count is_queued_row db.tasks in
    let busy = count is_running_row db.tasks in
    record {
      total = waiting + busy;
      queued_count = waiting;
      is_busy = ltb 0 busy;
      paused_count = count is_paused_row db.tasks;
      interrupted_count = count is_interrupted_row db.tasks;
    }

-- HasQueuedTasks
unfoldable pub has_queued_tasks : Db → Bool
has_queued_tasks db = ltb 0 (count is_queued_row db.tasks)
