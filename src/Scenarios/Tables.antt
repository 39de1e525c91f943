-- ===== src/Scenarios/Tables.antt =====
-- Small tables of the repository, which meet its invariant.
use narou_viewer.Prelude.{
  [], arith, count, false, find, none, ok, pos, refl, some, str_eq, str_eq_comm, str_eq_refl, true,
  ◌∷◌, ◌≡◌, ◌≢◌,
}
use narou_viewer.Taskstate.Claim.{start}
use narou_viewer.Taskstate.Commit.{by_commit}
use narou_viewer.Taskstate.Control.{by_open_control}
use narou_viewer.Taskstate.Enqueue.{new_row}
use narou_viewer.Taskstate.Invariant.{Inv, Readable}
use narou_viewer.Taskstate.Model.{
  Db, Request, Row, Task, TaskRef, failed, no_request, pause, queued, running,
}
use narou_viewer.Taskstate.Request.{request_of, validate_request, validate_update, work_key}
use narou_viewer.Taskstate.Schema.{by_id, check_row, first_clash, violation}
use narou_viewer.Taskstate.Target.{Env}
use narou_viewer.Worker.Signaled.{row_ref}

abbrev pub env0 : Env
env0 = record {
  parse_url = λ s. none;
  escaped_path = λ u. u.raw_path;
  to_lower = λ s. s;
  clean = λ s. s;
  digest = λ kind key work options. "f";
}

-- A request to update work 7.
abbrev pub update_task : Task
update_task = record {
  id = "a";
  kind = "update";
  target = "";
  work_id = pos 7;
  force = false;
  force_redownload = false;
  skip_unchanged = false;
  status = queued;
  requested_action = no_request;
  attempt_count = 0;
  queue_position = none;
  message = "";
  warnings = [];
  error_message = "";
  target_label = "";
  failed_episode_id = "";
  resume_episode_id = "";
  saved_episode_count = pos 0;
  phase = "";
  current_step = pos 0;
  total_steps = pos 0;
  dedupe_key = "";
  request_fingerprint = "";
  created_at = none;
  started_at = none;
  paused_at = none;
  interrupted_at = none;
  finished_at = none;
  updated_at = 0;
  execution_committed = false;
}

abbrev pub update_request : Request
update_request = request_of env0 update_task

abbrev pub queued_row : Row
queued_row = new_row 1 "a" update_task update_request (work_key (pos 7)) "f"

abbrev pub running_row : Row
running_row = start 2 queued_row

abbrev pub failed_row : Row
failed_row = record queued_row { status = failed }

abbrev pub waiting_db : Db
waiting_db = record { tasks = queued_row ∷ []; queue = "a" ∷ [] }

abbrev pub running_db : Db
running_db = record { tasks = running_row ∷ []; queue = [] }

abbrev pub failed_db : Db
failed_db = record { tasks = failed_row ∷ []; queue = [] }

pub update_key : validate_request env0 update_request ≡ ok (work_key (pos 7))
unfolding validate_request validate_update str_eq
update_key = refl

pub Readable-update : Readable env0 queued_row
unfolding new_row
Readable-update = record {
  request = update_request;
  is_encoded = refl;
  is_current = refl;
  same_kind = refl;
  same_work = refl;
  valid_key = update_key;
  fingerprint = refl;
}

pub waiting_Inv : Inv env0 waiting_db
unfolding violation check_row first_clash new_row count
waiting_Inv = record {
  constrained = refl;
  queue_matches = λ id. ground (arith, str_eq_comm id "a");
  readable = (Readable-update, tt);
}

pub running_Inv : Inv env0 running_db
unfolding violation check_row first_clash new_row count start
running_Inv = record {
  constrained = refl;
  queue_matches = λ id. ground arith;
  readable = (Readable-update, tt);
}

pub failed_Inv : Inv env0 failed_db
unfolding violation check_row first_clash new_row count
failed_Inv = record {
  constrained = refl;
  queue_matches = λ id. ground arith;
  readable = (Readable-update, tt);
}

pub alone : (r : Row) → find (by_id r.task_id) (r ∷ []) ≡ some r
unfolding find
alone r = rw (str_eq_refl r.task_id) refl

abbrev pub running_ref0 : TaskRef
running_ref0 = row_ref running_row

pub running_status : running_row.status ≡ running
unfolding start
running_status = refl

pub running_commits : by_commit running_ref0 running_row ≡ true
unfolding start new_row str_eq
running_commits = refl

pub running_accepts : by_open_control running_row.task_id running_row ≡ true
unfolding start new_row str_eq
running_accepts = refl

pub pause_real : pause ≢ no_request
pause_real e = cc
