-- ===== src/Taskqueue/Payload.antt =====
-- taskqueue/payload.go: the map that the API answers for a task. A key that the code leaves out is
-- `none`, a time stands for its text, and `progress` holds the two terms of the quotient, of which
-- the code takes a hundred times.
use narou_viewer.Prelude.{
  Bool, List, Option, String, [], false, if◌then◌else◌, is_pos, none, some, str_eq, true, ℕ, ℤ, ◌∷◌,
}
use narou_viewer.Taskstate.Model.{
  RequestedAction, Status, Task, failed, interrupted, paused, queued, running,
}
use narou_viewer.Taskstate.Request.{itoa}

pub record TaskPayload : Type 0 where
  pub id : String
  pub task_id : String
  pub kind : String
  pub status : Status
  pub requested_action : RequestedAction
  pub attempt_count : ℕ
  pub targets : List String
  pub novel_ids : List String
  pub message : String
  pub created_at : Option ℕ
  pub queue_position : Option ℕ
  pub can_pause : Bool
  pub can_resume : Bool
  pub can_cancel : Bool
  pub force : Option Bool
  pub force_redownload : Option Bool
  pub skip_unchanged : Option Bool
  pub novel_title : Option String
  pub started_at : Option ℕ
  pub finished_at : Option ℕ
  pub paused_at : Option ℕ
  pub interrupted_at : Option ℕ
  pub error : Option String
  pub warnings : Option (List String)
  pub failed_episode_id : Option String
  pub resume_episode_id : Option String
  pub saved_episode_count : Option ℤ
  pub phase : Option String
  pub current_step : Option ℤ
  pub total_steps : Option ℤ
  pub progress : Option (ℤ × ℤ)

abbrev pub unless_empty : String → Option String
unless_empty s = if str_eq s "" then none else some s

abbrev pub if_positive : {A : Type 0} → ℤ → A → Option A
if_positive n a = if is_pos n then some a else none

abbrev pub for_kind : {A : Type 0} → String → Task → A → Option A
for_kind kind t a = if str_eq t.kind kind then some a else none

abbrev pub can_pause_status : Status → Bool
can_pause_status queued = true
can_pause_status running = true
can_pause_status _ = false

abbrev pub can_resume_status : Status → Bool
can_resume_status paused = true
can_resume_status interrupted = true
can_resume_status failed = true
can_resume_status _ = false

abbrev pub can_cancel_status : Status → Bool
can_cancel_status queued = true
can_cancel_status running = true
can_cancel_status paused = true
can_cancel_status interrupted = true
can_cancel_status failed = true
can_cancel_status _ = false

abbrev pub unless_no_warnings : List String → Option (List String)
unless_no_warnings [] = none
unless_no_warnings (w ∷ ws) = some (w ∷ ws)

-- Payload, of a task that is not nil.
unfoldable pub payload : Task → TaskPayload
payload t = record {
  id = t.id;
  task_id = t.id;
  kind = t.kind;
  status = t.status;
  requested_action = t.requested_action;
  attempt_count = t.attempt_count;
  targets = if str_eq t.target "" then [] else t.target ∷ [];
  novel_ids = if is_pos t.work_id then itoa t.work_id ∷ [] else [];
  message = t.message;
  created_at = t.created_at;
  queue_position = t.queue_position;
  can_pause = can_pause_status t.status;
  can_resume = can_resume_status t.status;
  can_cancel = can_cancel_status t.status;
  force = for_kind "download" t t.force;
  force_redownload = for_kind "update" t t.force_redownload;
  skip_unchanged = for_kind "update" t t.skip_unchanged;
  novel_title = unless_empty t.target_label;
  started_at = t.started_at;
  finished_at = t.finished_at;
  paused_at = t.paused_at;
  interrupted_at = t.interrupted_at;
  error = unless_empty t.error_message;
  warnings = unless_no_warnings t.warnings;
  failed_episode_id = unless_empty t.failed_episode_id;
  resume_episode_id = unless_empty t.resume_episode_id;
  saved_episode_count = if_positive t.saved_episode_count t.saved_episode_count;
  phase = unless_empty t.phase;
  current_step = if_positive t.total_steps t.current_step;
  total_steps = if_positive t.total_steps t.total_steps;
  progress = if_positive t.total_steps (t.current_step, t.total_steps);
}
