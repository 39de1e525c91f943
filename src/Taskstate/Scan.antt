-- ===== src/Taskstate/Scan.antt =====
-- taskstate/sqlite.go, getTx and scanTask: a row as a task.
use narou_viewer.Prelude.{
  ℕ, int_eq, String, not, ◌==◌, Option, none, some, str_eq, find, Result, ok, err, ◌>>=◌, ◌>>◌,
  fail_if,
}
use narou_viewer.Taskstate.Model.{Row, Db, Task, Request, Error, malformed_row, inconsistent_work}
use narou_viewer.Taskstate.Target.{Env}
use narou_viewer.Taskstate.Request.{decode_request}
use narou_viewer.Taskstate.Schema.{by_id}

-- CurrentRequestVersion
abbrev pub current_request_version : ℕ
current_request_version = 1

abbrev pub task_of : Row → Request → Task
task_of r q = record {
  id = r.task_id;
  kind = r.kind;
  target = q.target;
  work_id = q.work_id;
  force = q.options.force;
  force_redownload = q.options.force_redownload;
  skip_unchanged = q.options.skip_unchanged;
  status = r.status;
  requested_action = r.requested_action;
  attempt_count = r.attempt_count;
  queue_position = none;
  message = r.message;
  warnings = r.warnings;
  error_message = r.error_message;
  target_label = r.target_label;
  failed_episode_id = r.failed_episode_id;
  resume_episode_id = r.resume_episode_id;
  saved_episode_count = r.saved_episode_count;
  phase = r.phase;
  current_step = r.current_step;
  total_steps = r.total_steps;
  dedupe_key = r.dedupe_key;
  request_fingerprint = r.request_fingerprint;
  created_at = some r.created_at;
  started_at = r.started_at;
  paused_at = r.paused_at;
  interrupted_at = r.interrupted_at;
  finished_at = r.finished_at;
  updated_at = r.updated_at;
  execution_committed = r.execution_committed;
}

module _ (env : Env) where
  unfoldable pub decoded : Row → Result Error Request → Result Error Task
  decoded r (err e) = err malformed_row
  decoded r (ok q) = do
    fail_if (not (r.request_version == current_request_version)) malformed_row
    fail_if (not (str_eq q.kind r.kind)) malformed_row
    fail_if (not (int_eq r.primary_work_id q.work_id)) inconsistent_work
    ok (task_of r q)

  -- scanTask
  unfoldable pub scan_task : Row → Result Error Task
  unfolding decoded
  scan_task r = decoded r (decode_request env r.request_json)

  scan_found : Option Row → Result Error (Option Task)
  scan_found none = ok none
  scan_found (some r) = do t ← scan_task r; ok (some t)

  -- getTx: `none` where no row has the id.
  unfoldable pub get_tx : String → Db → Result Error (Option Task)
  unfolding scan_found
  get_tx id db = scan_found (find (by_id id) db.tasks)
