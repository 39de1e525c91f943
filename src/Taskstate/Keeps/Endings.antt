-- ===== src/Taskstate/Keeps/Endings.antt =====
-- taskstate/sqlite.go, Finalize, CommitExecution and RecoverOnStartup: the invariant of the tables.
use narou_viewer.Prelude.{
  Bool-cases, Ensures, Ensures-bind, Ensures-guard, Ensures-if, Ensures-mono, Ensures-then, List,
  Option, String, [], arith, count, done, false, inl, inr, ltb, none, not, raised, refl, some, true,
  ℕ, ◌==◌, ◌∷◌, ◌≡◌,
}
use narou_viewer.Taskstate.Claim.{by_queued_id}
use narou_viewer.Taskstate.Commit.{by_commit, commit_execution, set_committed}
use narou_viewer.Taskstate.Finalize.{finalize, is_final, set_outcome, settle, write_outcome}
use narou_viewer.Taskstate.Invariant.{Inv}
use narou_viewer.Taskstate.Keeps.Writes.{update_attempt-Inv}
use narou_viewer.Taskstate.Model.{Db, Outcome, Row, Status, Task, TaskRef, is_queued, is_running}
use narou_viewer.Taskstate.Progress.{current_attempt, is_running_row}
use narou_viewer.Taskstate.Recover.{
  by_running_id, check_requests, queue_gap, queue_stray, recover_on_startup, recover_row,
  recover_rows, set_recovered,
}
use narou_viewer.Taskstate.Schema.{update_tasks}
use narou_viewer.Taskstate.Tables.{update_tasks_lem, updated}
use narou_viewer.Taskstate.Target.{Env}
use narou_viewer.Taskstate.Updates.{Inv-update}

-- Finalize settles on a status that is not queued.
settle-final :
    (t : Task) (o : Outcome) (s : Status)
    → is_final o.status ≡ true
    → (settle t o).status ≡ some s
    → is_queued s ≡ false
unfolding settle
settle-final t o s f e = ground arith

set_recovered-not_queued : (now : ℕ) (r : Row) → is_queued (set_recovered now r).status ≡ false
unfolding set_recovered
set_recovered-not_queued now r = ground arith

recover-moves :
    (id : String) (now : ℕ) (j : String) (r : Row)
    → by_queued_id j (updated (by_running_id id) (set_recovered now) r) ≡ by_queued_id j r
recover-moves id now j r = elim (Bool-cases (by_running_id id r)) [
  | inl t ↦ rw t (ground (arith, set_recovered-not_queued now r))
  | inr e ↦ rw e refl
]

module _ (env : Env) where
  write_outcome-Inv :
      (now : ℕ) (ref : TaskRef) (o : Outcome) (s : Option Status) (db : Db)
      → ((x : Status) → s ≡ some x → is_queued x ≡ false)
      → Inv env db
      → Ensures (Inv env) (write_outcome now ref o s db)
  unfolding write_outcome set_outcome
  write_outcome-Inv now ref o none db h i = raised
  write_outcome-Inv now ref o (some s) db h i =
      update_attempt-Inv env ref (set_outcome now s o) db (λ r _. h s refl) (λ r _ k. k) i

  pub finalize-Inv :
      (now : ℕ) (ref : TaskRef) (o : Outcome) (db : Db)
      → Inv env db
      → Ensures (Inv env) (finalize env now ref o db)
  unfolding finalize
  finalize-Inv now ref o db i = Ensures-guard (not (is_final o.status)) _ _ λ final.
      Ensures-bind (current_attempt env ref db) _ λ t e.
        write_outcome-Inv now ref (settle t o) (settle t o).status db
          (λ s h. settle-final t o s (ground arith) h) i

  recover_row-Inv :
      (now : ℕ) (r : Row) (db : Db) → Inv env db → Ensures (Inv env) (recover_row now r db)
  unfolding recover_row
  recover_row-Inv now r db i =
      Ensures-if (is_running r.status) _ _
        (λ _.
          Ensures-mono
            (λ db' (e, v). rw e (
              Inv-update env (by_running_id r.task_id) (set_recovered now)
                (λ s _ h. unfold set_recovered in h) db (λ j s. recover-moves r.task_id now j s) v
                i))
            (update_tasks_lem (by_running_id r.task_id) (set_recovered now) db))
        (λ _. done i)

  recover_rows-Inv :
      (now : ℕ) (rows : List Row) (db : Db)
      → Inv env db
      → Ensures (Inv env) (recover_rows now rows db)
  unfolding recover_rows
  recover_rows-Inv now [] db i = done i
  recover_rows-Inv now (r ∷ rows) db i =
      Ensures-then (recover_row now r db) _ (recover_row-Inv now r db i) (recover_rows-Inv now rows)

  pub recover_on_startup-Inv :
      (now : ℕ) (db : Db) → Inv env db → Ensures (Inv env) (recover_on_startup env now db)
  unfolding recover_on_startup
  recover_on_startup-Inv now db i = Ensures-bind (check_requests env db.tasks) _ λ u checked.
      Ensures-guard (ltb 0 (count (queue_gap db) db.tasks)) _ _ λ no_gap.
        Ensures-guard (ltb 0 (count (queue_stray db) db.tasks)) _ _ λ no_stray.
          Ensures-guard (ltb 1 (count is_running_row db.tasks)) _ _
            λ one. recover_rows-Inv now db.tasks db i

commit-moves :
    (ref : TaskRef) (now : ℕ) (j : String) (r : Row)
    → by_queued_id j (updated (by_commit ref) (set_committed now) r) ≡ by_queued_id j r
unfolding set_committed
commit-moves ref now j r = ground arith

pub commit_execution-Inv :
    (env : Env) (now : ℕ) (ref : TaskRef) (db : Db)
    → Inv env db
    → Ensures (Inv env) (commit_execution now ref db)
unfolding commit_execution
commit_execution-Inv env now ref db i =
    Ensures-then (update_tasks (by_commit ref) (set_committed now) db) _
      (update_tasks_lem (by_commit ref) (set_committed now) db)
      λ db' (e, v). Ensures-guard (not (count (by_commit ref) db.tasks == 1)) _ _ λ one. done (
        rw e (
          Inv-update env (by_commit ref) (set_committed now) (λ r _ h. unfold set_committed in h) db
            (commit-moves ref now) v i))
