-- ===== src/Taskstate/Enqueue.antt =====
-- taskstate/sqlite.go, Enqueue: reserve a target or a work and append to the queue.
-- Each task comes with the id that NewTaskID would draw for it. `now` is the clock's value.
use narou_viewer.Prelude.{
  ℕ, is_pos, String, false, not, Option, none, some, List, [], ◌∷◌, if◌then◌else◌, str_eq, find,
  is_some, Result, ok, ◌>>=◌, ◌>>◌, or_fail, fail_if,
}
use narou_viewer.Taskstate.Model.{
  Row, Db, Task, Request, Error, queued, no_request, encoded, task_not_found, task_already_active,
}
use narou_viewer.Taskstate.Target.{Env}
use narou_viewer.Taskstate.Request.{request_for_task}
use narou_viewer.Taskstate.Schema.{insert_task, insert_queue, reserves_key, reserves_work}
use narou_viewer.Taskstate.Scan.{get_tx, current_request_version}

pub record EnqueueResult : Type 0 where
  pub tasks : List Task
  pub deduplicated_ids : List String

abbrev pub created : Option ℕ → ℕ → ℕ
created none now = now
created (some t) now = t

-- The INSERT of a queued row.
unfoldable pub new_row : ℕ → String → Task → Request → String → String → Row
new_row now id t request key fingerprint = record {
  task_id = id;
  request_version = current_request_version;
  kind = t.kind;
  request_json = encoded request;
  status = queued;
  requested_action = no_request;
  dedupe_key = key;
  request_fingerprint = fingerprint;
  primary_work_id = t.work_id;
  target_label = t.target_label;
  phase = t.phase;
  current_step = t.current_step;
  total_steps = t.total_steps;
  saved_episode_count = t.saved_episode_count;
  failed_episode_id = t.failed_episode_id;
  resume_episode_id = t.resume_episode_id;
  message = t.message;
  warnings = t.warnings;
  error_message = t.error_message;
  attempt_count = 0;
  execution_committed = false;
  created_at = created t.created_at now;
  last_enqueued_at = now;
  started_at = none;
  updated_at = now;
  paused_at = none;
  interrupted_at = none;
  finished_at = none;
}

-- What the caller's task holds afterwards.
unfoldable pub queued_task : ℕ → String → Task → String → String → Task
queued_task now id t key fingerprint = record t {
  id = id;
  created_at = some (created t.created_at now);
  status = queued;
  requested_action = no_request;
  attempt_count = 0;
  dedupe_key = key;
  request_fingerprint = fingerprint;
  updated_at = now;
}

abbrev pub chosen_id : Task → String → String
chosen_id t fresh = if str_eq t.id "" then fresh else t.id

-- The new database, the task, and the id of the task that it was joined to.
abbrev pub Enqueued : Type 0
Enqueued = Db × Task × Option String

unfoldable pub insert_new :
    ℕ → Task → String → Request → String → String → Db → Result Error Enqueued
unfolding new_row queued_task
insert_new now t fresh request key fingerprint db = do
  fail_if (if is_pos t.work_id then is_some (find (reserves_work t.work_id) db.tasks) else false)
      task_already_active
  let id = chosen_id t fresh
  inserted ← insert_task (new_row now id t request key fingerprint) db
  queued_db ← insert_queue id inserted
  ok (queued_db, queued_task now id t key fingerprint, none)

module _ (env : Env) where
  unfoldable pub join_existing : Row → String → Db → Result Error Enqueued
  join_existing existing fingerprint db = do
    fail_if (not (str_eq existing.request_fingerprint fingerprint)) task_already_active
    found ← get_tx env existing.task_id db
    stored ← or_fail found task_not_found
    ok (db, stored, some existing.task_id)

  unfoldable pub insert_or_join :
      Option Row → ℕ → Task → String → Request → String → String → Db → Result Error Enqueued
  unfolding insert_new join_existing
  insert_or_join (some existing) now t fresh request key fingerprint db =
      join_existing existing fingerprint db
  insert_or_join none now t fresh request key fingerprint db =
      insert_new now t fresh request key fingerprint db

  unfoldable pub enqueue_one : ℕ → Task → String → Db → Result Error Enqueued
  unfolding insert_or_join
  enqueue_one now t fresh db = do
    (request, key, fingerprint) ← request_for_task env t
    insert_or_join (find (reserves_key key) db.tasks) now t fresh request key fingerprint db

  abbrev pub add_result : Task → Option String → EnqueueResult → EnqueueResult
  add_result t none r = record r { tasks = t ∷ r.tasks }
  add_result t (some id) r = record r {
    tasks = t ∷ r.tasks;
    deduplicated_ids = id ∷ r.deduplicated_ids;
  }

  -- Enqueue: one transaction over all the tasks.
  unfoldable pub enqueue : ℕ → List (Task × String) → Db → Result Error (Db × EnqueueResult)
  enqueue now [] db = ok (db, record { tasks = []; deduplicated_ids = [] })
  enqueue now ((t, fresh) ∷ rest) db = do
    (db', stored, joined) ← enqueue_one now t fresh db
    (last, result) ← enqueue now rest db'
    ok (last, add_result stored joined result)
