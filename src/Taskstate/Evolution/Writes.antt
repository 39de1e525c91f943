-- ===== src/Taskstate/Evolution/Writes.antt =====
-- taskstate/sqlite.go, the writes of an attempt, its end and the recovery, and the life of one task.
use mathlib.Core.Option.{some-injective}
use narou_viewer.Taskstate.Reads.{current_attempt_lem}
use narou_viewer.Prelude.{
  ap, str_eq_iff, Bool, Ensures, Ensures-bind, Ensures-guard, Ensures-if, Ensures-mono,
  Ensures-then, List, Option, String, [], arith, count, done, false, find, int_eq, is_pos, is_some,
  ltb, none, not, pos, raised, refl, some, sym, true, ℕ, ℤ, ◌==◌, ◌∙◌, ◌∷◌, ◌≡◌,
}
use narou_viewer.Taskstate.Commit.{by_commit, commit_execution, set_committed}
use narou_viewer.Taskstate.Evolution.Updates.{
  AllEvolve, HonorsCommit, KeepsDecision, row_at, Always, Always-mono, Always-refl, Always-trans,
  Evolves, Evolves-refl, finish_canceled, finish_failed, finish_interrupted, finish_paused,
  finish_succeeded, moves, stays, update-Always, ◌⟶◌,
}
use narou_viewer.Taskstate.Finalize.{finalize, is_final, set_outcome, settle, write_outcome}
use narou_viewer.Taskstate.Model.{
  Db, Outcome, RequestedAction, Row, Status, Task, TaskRef, cancel, canceled, failed, interrupted,
  is_running, no_request, pause, paused, queued, running, succeeded,
}
use narou_viewer.Taskstate.Progress.{
  bind_work, current_attempt, is_running_row, set_work, set_work_id, update_attempt,
}
use narou_viewer.Taskstate.Recover.{
  by_running_id, check_requests, queue_gap, queue_stray, recover_on_startup, recover_row,
  recover_rows, recovered, set_recovered,
}
use narou_viewer.Taskstate.Request.{request_for_task}
use narou_viewer.Taskstate.Schema.{and_other, by_attempt, reserves_work, update_tasks}
use narou_viewer.Taskstate.Tables.{update_tasks_lem}
use narou_viewer.Taskstate.Target.{Env}

-- A write that keeps the id, the status, the attempt and what is decided.
abbrev KeepsLife : (Row → Row) → Type 0
KeepsLife f =
    (r : Row)
    → ((f r).task_id ≡ r.task_id)
      × ((f r).status ≡ r.status)
      × ((f r).attempt_count ≡ r.attempt_count)
      × ((f r).execution_committed ≡ r.execution_committed)
      × ((f r).requested_action ≡ r.requested_action)

-- An end of an attempt.
data Ended (r s : Row) : Type 0 where
  same : s.status ≡ r.status → s.attempt_count ≡ r.attempt_count → KeepsDecision r s → Ended r s
  ends :
      r.status ≡ running
      → running ⟶ s.status
      → s.attempt_count ≡ r.attempt_count
      → HonorsCommit r s
      → Ended r s

Ended-refl : (r : Row) → Ended r r
Ended-refl r = same refl refl ((λ c. c), λ n. (refl, refl))

Ended-Evolves : (r s : Row) → Ended r s → Evolves r s
Ended-Evolves r s (same e a k) = stays e a k
Ended-Evolves r s (ends e m a k) = moves (rw e m) a k

running-not-running : (s : Status) → running ⟶ s → s ≡ running → ⊥
running-not-running queued m e = elim m [ ]
running-not-running running m e = elim m [ ]
running-not-running paused finish_paused e = cc
running-not-running interrupted finish_interrupted e = cc
running-not-running failed finish_failed e = cc
running-not-running canceled finish_canceled e = cc
running-not-running succeeded finish_succeeded e = cc

Ended-trans : (r s t : Row) → Ended r s → Ended s t → Ended r t
Ended-trans r s t (same e a k) (same e' a' k') = same (e' ∙ e) (a' ∙ a) (
  (λ c. k'.0 (k.0 c)),
  λ n. let (p, q) = k.1 n in let (p', q') = k'.1 (rw p n) in (p' ∙ p, q' ∙ q),
)
Ended-trans r s t (same e a k) (ends e' m a' k') =
    ends (sym e ∙ e') m (a' ∙ a) λ live c. k' e' (k.0 c)
Ended-trans r s t (ends e m a k) (same e' a' k') = ends e (rw e' m) (a' ∙ a) λ live c. e' ∙ k live c
Ended-trans r s t (ends e m a k) (ends e' m' a' k') = absurd (running-not-running s.status m e')

Ended-fresh :
    (r s : Row)
    → Ended r s
    → r.status ≡ queued
    → r.attempt_count ≡ 0
    → (s.status ≡ queued) × (s.attempt_count ≡ 0)
Ended-fresh r s (same e a k) q z = (e ∙ q, a ∙ z)
Ended-fresh r s (ends e m a k) q z = absurd (cc)

update_attempt-Always :
    (R : Row → Row → Type 0) (R-refl : (r : Row) → R r r) (ref : TaskRef) (f : Row → Row) (db : Db)
    → ((r : Row) → (f r).task_id ≡ r.task_id)
    → ((r : Row) → row_at r.task_id db ≡ some r → by_attempt ref r ≡ true → R r (f r))
    → Ensures (Always R db) (update_attempt ref f db)
unfolding update_attempt
update_attempt-Always R R-refl ref f db ids h =
    Ensures-then (update_tasks (by_attempt ref) f db) _ (update_tasks_lem (by_attempt ref) f db)
      λ db' (e, v).
        Ensures-guard (not (count (by_attempt ref) db.tasks == 1)) _ _
          λ one. done (rw e (update-Always R R-refl (by_attempt ref) f db db.queue ids h))

pub write-AllEvolve :
    (ref : TaskRef) (f : Row → Row) (db : Db)
    → KeepsLife f
    → Ensures (AllEvolve db) (update_attempt ref f db)
write-AllEvolve ref f db k =
    update_attempt-Always Evolves Evolves-refl ref f db (λ r. (k r).0)
      (λ r _ _. let (i, s, a, c, d) = k r in stays s a ((λ h. c ∙ h), λ n. (d, c)))

edge_of_final : (s : Status) → is_final (some s) ≡ true → running ⟶ s
edge_of_final queued h = absurd (cc)
edge_of_final running h = absurd (cc)
edge_of_final paused h = finish_paused
edge_of_final interrupted h = finish_interrupted
edge_of_final failed h = finish_failed
edge_of_final canceled h = finish_canceled
edge_of_final succeeded h = finish_succeeded

settle-is_final :
    (t : Task) (o : Outcome) → is_final o.status ≡ true → is_final (settle t o).status ≡ true
unfolding settle
settle-is_final t o h = ground arith

pub settle-committed :
    (t : Task) (o : Outcome) → t.execution_committed ≡ true → (settle t o).status ≡ some succeeded
unfolding settle
settle-committed t o h = rw h refl

running_of_attempt : (ref : TaskRef) (r : Row) → by_attempt ref r ≡ true → r.status ≡ running
running_of_attempt ref r h = ground arith

module _ (env : Env) where
  pub set_work_id-AllEvolve :
      (now : ℕ) (ref : TaskRef) (work : ℤ) (db : Db)
      → Ensures (AllEvolve db) (set_work_id env now ref work db)
  unfolding set_work_id bind_work
  set_work_id-AllEvolve now ref work db = Ensures-guard (not (is_pos work)) _ _ λ positive.
      Ensures-bind (current_attempt env ref db) _ λ t e.
        Ensures-if (int_eq t.work_id work) _ _ (λ _. done (Always-refl Evolves Evolves-refl db))
          (λ _. Ensures-guard (not (int_eq t.work_id (pos 0))) _ _ λ unbound.
            Ensures-guard (is_some (find (and_other ref.task_id (reserves_work work)) db.tasks)) _ _
              λ free. Ensures-bind (request_for_task env (record t { work_id = work })) _ λ x valid.
                write-AllEvolve ref (set_work now work x.0 x.1 x.2) db
                  (λ r. unfold set_work in (refl, refl, refl, refl, refl)))

  write_outcome-AllEvolve :
      (now : ℕ) (ref : TaskRef) (o : Outcome) (s : Option Status) (db : Db)
      → is_final s ≡ true
      → ((r : Row)
          → row_at r.task_id db ≡ some r
          → by_attempt ref r ≡ true
          → r.execution_committed ≡ true
          → s ≡ some succeeded)
      → Ensures (AllEvolve db) (write_outcome now ref o s db)
  unfolding write_outcome
  write_outcome-AllEvolve now ref o none db h honors = raised
  write_outcome-AllEvolve now ref o (some s) db h honors =
      update_attempt-Always Evolves Evolves-refl ref (set_outcome now s o) db
        (λ r. unfold set_outcome in refl)
        (λ r here t.
          unfold set_outcome in
          moves (rw (running_of_attempt ref r t) (edge_of_final s h)) refl
            λ live c. some-injective s succeeded (honors r here t c))

  pub finalize-AllEvolve :
      (now : ℕ) (ref : TaskRef) (o : Outcome) (db : Db)
      → Ensures (AllEvolve db) (finalize env now ref o db)
  unfolding finalize
  finalize-AllEvolve now ref o db = Ensures-guard (not (is_final o.status)) _ _ λ final.
      Ensures-then (current_attempt env ref db) _ (current_attempt_lem env ref db) λ t e.
        write_outcome-AllEvolve now ref (settle t o) (settle t o).status db
          (settle-is_final t o (ground arith))
          λ r here taken c.
            let id : r.task_id ≡ ref.task_id = ground (arith, str_eq_iff r.task_id ref.task_id) in
            let one : r ≡ e.of_row.row =
              some-injective r e.of_row.row
                (sym here ∙ (ap (λ k. row_at k db) id ∙ e.of_row.found)) in
            settle-committed t o (
              ap (λ x. x.execution_committed) e.of_row.read
              ∙ (ap (λ x. x.execution_committed) (sym one) ∙ c))

pub commit_execution-AllEvolve :
    (now : ℕ) (ref : TaskRef) (db : Db) → Ensures (AllEvolve db) (commit_execution now ref db)
unfolding commit_execution
commit_execution-AllEvolve now ref db =
    Ensures-then (update_tasks (by_commit ref) (set_committed now) db) _
      (update_tasks_lem (by_commit ref) (set_committed now) db)
      λ db' (e, v). Ensures-guard (not (count (by_commit ref) db.tasks == 1)) _ _ λ one. done (
        rw e (
          update-Always Evolves Evolves-refl (by_commit ref) (set_committed now) db db.queue
            (λ r. unfold set_committed in refl)
            λ r _ t.
              unfold set_committed in stays refl refl ((λ c. refl), λ n. absurd (ground arith))))

recovered-edge : (committed : Bool) (a : RequestedAction) → running ⟶ (recovered committed a).0
recovered-edge true a = finish_succeeded
recovered-edge false cancel = finish_canceled
recovered-edge false pause = finish_interrupted
recovered-edge false no_request = finish_interrupted

set_recovered-Ended :
    (id : String) (now : ℕ) (r : Row) → by_running_id id r ≡ true → Ended r (set_recovered now r)
unfolding set_recovered
set_recovered-Ended id now r h =
    ends (ground arith) (recovered-edge r.execution_committed r.requested_action) refl
      λ live c. rw c refl

recover_row-Always :
    (now : ℕ) (r : Row) (db : Db) → Ensures (Always Ended db) (recover_row now r db)
unfolding recover_row
recover_row-Always now r db =
    Ensures-if (is_running r.status) _ _
      (λ _.
        Ensures-mono
          (λ db' (e, v). rw e (
            update-Always Ended Ended-refl (by_running_id r.task_id) (set_recovered now) db db.queue
              (λ s. unfold set_recovered in refl) (λ s _ h. set_recovered-Ended r.task_id now s h)))
          (update_tasks_lem (by_running_id r.task_id) (set_recovered now) db))
      (λ _. done (Always-refl Ended Ended-refl db))

recover_rows-Always :
    (now : ℕ) (rows : List Row) (db : Db) → Ensures (Always Ended db) (recover_rows now rows db)
unfolding recover_rows
recover_rows-Always now [] db = done (Always-refl Ended Ended-refl db)
recover_rows-Always now (r ∷ rows) db =
    Ensures-then (recover_row now r db) _ (recover_row-Always now r db) λ db' h.
      Ensures-mono (λ db'' k. Always-trans Ended Ended-refl Ended-trans Ended-fresh db db' db'' h k)
        (recover_rows-Always now rows db')

pub recover_on_startup-AllEvolve :
    (env : Env) (now : ℕ) (db : Db) → Ensures (AllEvolve db) (recover_on_startup env now db)
unfolding recover_on_startup
recover_on_startup-AllEvolve env now db = Ensures-bind (check_requests env db.tasks) _ λ u checked.
    Ensures-guard (ltb 0 (count (queue_gap db) db.tasks)) _ _ λ no_gap.
      Ensures-guard (ltb 0 (count (queue_stray db) db.tasks)) _ _ λ no_stray.
        Ensures-guard (ltb 1 (count is_running_row db.tasks)) _ _ λ one.
          Ensures-mono (λ db' h. Always-mono Ended Ended-refl Evolves Ended-Evolves db db' h)
            (recover_rows-Always now db.tasks db)
