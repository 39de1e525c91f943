-- ===== src/Taskstate/Claim.antt =====
-- taskstate/sqlite.go, ClaimNext: the head of the queue starts to run.
use narou_viewer.Prelude.{
  ℕ, suc, String, Bool, false, not, ◌&&◌, Option, none, some, List, [], ◌∷◌, find, Result, ok,
  ◌>>=◌, ◌>>◌, or_fail, fail_if,
}
use narou_viewer.Taskstate.Model.{
  Row, Db, Task, Error, running, is_queued, no_request, task_not_found, no_rows,
  task_state_conflict,
}
use narou_viewer.Taskstate.Target.{Env}
use narou_viewer.Taskstate.Schema.{by_id, update_tasks, delete_queue}
use narou_viewer.Taskstate.Scan.{get_tx}

-- status = 'running', requested_action = '', attempt_count = attempt_count + 1, …
unfoldable pub start : ℕ → Row → Row
start now r = record r {
  status = running;
  requested_action = no_request;
  attempt_count = suc r.attempt_count;
  execution_committed = false;
  started_at = some now;
  updated_at = now;
}

abbrev pub by_queued_id : String → Row → Bool
by_queued_id id r = by_id id r && is_queued r.status

module _ (env : Env) where
  unfoldable pub claim : String → ℕ → Db → Result Error (Db × Option Task)
  claim id now db = do
    row ← or_fail (find (by_id id) db.tasks) no_rows
    fail_if (not (is_queued row.status)) task_state_conflict
    started ← update_tasks (by_queued_id id) (start now) db
    found ← get_tx env id (delete_queue id started)
    task ← or_fail found task_not_found
    ok (delete_queue id started, some task)

  unfoldable pub claim_head : List String → ℕ → Db → Result Error (Db × Option Task)
  claim_head [] now db = ok (db, none)
  claim_head (id ∷ _) now db = claim id now db

  -- ClaimNext; `none` where the queue is empty.
  unfoldable pub claim_next : ℕ → Db → Result Error (Db × Option Task)
  unfolding claim_head
  claim_next now db = claim_head db.queue now db
