-- ===== src/Taskstate/Evolution/Operations.antt =====
-- taskstate/sqlite.go, its operations and the life of one task.
use mathlib.Core.Option.{some-injective}
use narou_viewer.Prelude.{
  Ensures, Ensures-bind, Ensures-guard, Ensures-mono, Ensures-or_fail, Ensures-then, List, Option,
  String, [], ap, arith, done, false, find, if◌then◌else◌, is_pos, is_some, none, not, refl, some,
  str_eq, sym, true, ℕ, ◌++◌, ◌∙◌, ◌∷◌, ◌≡◌,
}
use narou_viewer.Taskstate.Claim.{by_queued_id, claim, claim_head, claim_next, start}
use narou_viewer.Taskstate.Enqueue.{
  chosen_id, enqueue, enqueue_one, insert_new, insert_or_join, join_existing, new_row,
}
use narou_viewer.Taskstate.Evolution.Updates.{
  AllEvolve, Always, Always-mono, Always-refl, Always-trans, Evolves, Evolves-refl, insert-Always,
  row_at, starts, stays, update-Always,
}
use narou_viewer.Taskstate.Model.{Db, Request, Row, Task, is_queued, queued}
use narou_viewer.Taskstate.Request.{request_for_task}
use narou_viewer.Taskstate.Scan.{get_tx}
use narou_viewer.Taskstate.Schema.{
  by_id, delete_queue, insert_queue, insert_task, reserves_key, reserves_work, update_tasks,
  without,
}
use narou_viewer.Taskstate.Tables.{insert_queue_lem, insert_task_lem, update_tasks_lem}
use narou_viewer.Taskstate.Target.{Env}

same_row :
    (id : String) (db : Db) (r s : Row)
    → row_at id db ≡ some r
    → r.task_id ≡ id
    → s.task_id ≡ id
    → row_at s.task_id db ≡ some s
    → s ≡ r
same_row id db r s e i j f = some-injective s r (sym f ∙ (ap (λ k. row_at k db) j ∙ e))

-- A row is not touched.
abbrev Same : Row → Row → Type 0
Same r s = s ≡ r

Same-refl : (r : Row) → Same r r
Same-refl r = refl

Same-trans : (r s t : Row) → Same r s → Same s t → Same r t
Same-trans r s t e f = f ∙ e

Same-fresh :
    (r s : Row)
    → Same r s
    → r.status ≡ queued
    → r.attempt_count ≡ 0
    → (s.status ≡ queued) × (s.attempt_count ≡ 0)
Same-fresh r s e q a = (ap (λ x. x.status) e ∙ q, ap (λ x. x.attempt_count) e ∙ a)

Same-Evolves : (r s : Row) → Same r s → Evolves r s
Same-Evolves r s e = stays (ap (λ x. x.status) e) (ap (λ x. x.attempt_count) e) (
  (λ c. ap (λ x. x.execution_committed) e ∙ c),
  λ n. (ap (λ x. x.requested_action) e, ap (λ x. x.execution_committed) e),
)

module _ (env : Env) where
  insert_new-Always :
      (now : ℕ) (t : Task) (fresh : String) (q : Request) (key fp : String) (db : Db)
      → Ensures (λ e. Always Same db e.0) (insert_new now t fresh q key fp db)
  unfolding insert_new new_row
  insert_new-Always now t fresh q key fp db =
      let r = new_row now (chosen_id t fresh) t q key fp in
      Ensures-guard
        (if is_pos t.work_id then is_some (find (reserves_work t.work_id) db.tasks) else false) _ _
        λ free. Ensures-then (insert_task r db) _ (insert_task_lem r db) λ inserted (e, v).
          Ensures-then (insert_queue (chosen_id t fresh) inserted) _
            (insert_queue_lem (chosen_id t fresh) inserted)
            λ queued_db (e', absent_id, present). done (
              rw (e', e)
                (insert-Always Same Same-refl r db (db.queue ++ chosen_id t fresh ∷ []) refl refl))

  insert_or_join-Always :
      (o : Option Row) (now : ℕ) (t : Task) (fresh : String) (q : Request) (key fp : String)
      (db : Db)
      → Ensures (λ e. Always Same db e.0) (insert_or_join env o now t fresh q key fp db)
  unfolding insert_or_join join_existing
  insert_or_join-Always none now t fresh q key fp db = insert_new-Always now t fresh q key fp db
  insert_or_join-Always (some r) now t fresh q key fp db =
      Ensures-guard (not (str_eq r.request_fingerprint fp)) _ _ λ same.
        Ensures-bind (get_tx env r.task_id db) _
          λ o got. Ensures-or_fail o _ _ λ task e. done (Always-refl Same Same-refl db)

  enqueue_one-Always :
      (now : ℕ) (t : Task) (fresh : String) (db : Db)
      → Ensures (λ e. Always Same db e.0) (enqueue_one env now t fresh db)
  unfolding enqueue_one
  enqueue_one-Always now t fresh db =
      Ensures-bind (request_for_task env t) _
        λ x e. insert_or_join-Always (find (reserves_key x.1) db.tasks) now t fresh x.0 x.1 x.2 db

  -- Enqueue adds queued rows and touches no other.
  pub enqueue-Always :
      (now : ℕ) (ts : List (Task × String)) (db : Db)
      → Ensures (λ e. Always Same db e.0) (enqueue env now ts db)
  unfolding enqueue
  enqueue-Always now [] db = done (Always-refl Same Same-refl db)
  enqueue-Always now ((t, fresh) ∷ rest) db =
      Ensures-then (enqueue_one env now t fresh db) _ (enqueue_one-Always now t fresh db) λ x h.
        Ensures-then (enqueue env now rest x.0) _ (enqueue-Always now rest x.0)
          λ y k. done (Always-trans Same Same-refl Same-trans Same-fresh db x.0 y.0 h k)

  pub enqueue-AllEvolve :
      (now : ℕ) (ts : List (Task × String)) (db : Db)
      → Ensures (λ e. AllEvolve db e.0) (enqueue env now ts db)
  enqueue-AllEvolve now ts db =
      Ensures-mono (λ e h. Always-mono Same Same-refl Evolves Same-Evolves db e.0 h)
        (enqueue-Always now ts db)

  start-Evolves :
      (id : String) (now : ℕ) (r : Row) → by_queued_id id r ≡ true → Evolves r (start now r)
  unfolding start
  start-Evolves id now r h = starts (ground arith) refl refl

  claim-AllEvolve :
      (id : String) (now : ℕ) (db : Db) → Ensures (λ e. AllEvolve db e.0) (claim env id now db)
  unfolding claim delete_queue
  claim-AllEvolve id now db = Ensures-or_fail (find (by_id id) db.tasks) _ _ λ row found.
      Ensures-guard (not (is_queued row.status)) _ _ λ is_waiting.
        Ensures-then (update_tasks (by_queued_id id) (start now) db) _
          (update_tasks_lem (by_queued_id id) (start now) db)
          λ started (e, v). Ensures-bind (get_tx env id (delete_queue id started)) _ λ o got.
            Ensures-or_fail o _ _ λ task some_task. done (
              rw e (
                update-Always Evolves Evolves-refl (by_queued_id id) (start now) db
                  (without id db.queue) (λ r. unfold start in refl)
                  (λ r _ h. start-Evolves id now r h)))

  pub claim_next-AllEvolve :
      (now : ℕ) (db : Db) → Ensures (λ e. AllEvolve db e.0) (claim_next env now db)
  unfolding claim_next
  claim_next-AllEvolve now db = go db.queue
    where
      go : (q : List String) → Ensures (λ e. AllEvolve db e.0) (claim_head env q now db)
      go [] = done (Always-refl Evolves Evolves-refl db)
      go (id ∷ rest) = claim-AllEvolve id now db
