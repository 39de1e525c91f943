-- ===== src/Taskstate/Keeps/Enqueue.antt =====
-- taskstate/sqlite.go, Enqueue and ClaimNext: the invariant of the tables.
use narou_viewer.Taskstate.Scan.{get_tx}
use narou_viewer.Prelude.{
  ℕ, ◌≡◌, refl, String, false, not, ◌&&◌, Option, none, some, List, [], ◌∷◌, if◌then◌else◌, str_eq,
  str_eq_iff, find, arith, inl, inr, Ensures, done, raised, Ensures-bind, Ensures-guard,
  Ensures-or_fail, Ensures-then, ok, Result-cases, is_pos, is_some,
}
use narou_viewer.Taskstate.Model.{Row, Db, Task, is_queued}
use narou_viewer.Taskstate.Target.{Env}
use narou_viewer.Taskstate.Request.{request_for_task, validate_request, request_of}
use narou_viewer.Taskstate.Schema.{
  by_id, delete_queue, insert_task, insert_queue, update_tasks, reserves_work, reserves_key,
}
use narou_viewer.Taskstate.Enqueue.{
  enqueue_one, enqueue, new_row, chosen_id, insert_new, join_existing, insert_or_join,
}
use narou_viewer.Taskstate.Claim.{by_queued_id, start, claim, claim_next, claim_head}
use narou_viewer.Taskstate.Invariant.{Inv, Readable}
use narou_viewer.Taskstate.Tables.{updated, update_tasks_lem, insert_task_lem, insert_queue_lem}
use narou_viewer.Taskstate.Updates.{Inv-dequeue, Inv-insert}

start-moves :
    (id : String) (now : ℕ) (j : String) (r : Row)
    → by_queued_id j (updated (by_queued_id id) (start now) r)
      ≡ not (str_eq j id) && by_queued_id j r
unfolding start
start-moves id now j r =
    ground (arith, str_eq_iff r.task_id id, str_eq_iff r.task_id j, str_eq_iff j id)

module _ (env : Env) where
  start-Readable : (now : ℕ) (r : Row) → Readable env r → Readable env (start now r)
  unfolding start
  start-Readable now r h = h

  new_row-Readable :
      (now : ℕ) (id : String) (t : Task) (key fp : String)
      → validate_request env (request_of env t) ≡ ok key
      → fp ≡ env.digest t.kind key t.work_id (request_of env t).options
      → Readable env (new_row now id t (request_of env t) key fp)
  unfolding new_row
  new_row-Readable now id t key fp valid digest = record {
    request = request_of env t;
    is_encoded = refl;
    is_current = refl;
    same_kind = refl;
    same_work = refl;
    valid_key = valid;
    fingerprint = digest;
  }

  pub request_for_task_lem :
      (t : Task)
      → Ensures
          (λ x.
            (x.0 ≡ request_of env t)
            × (validate_request env (request_of env t) ≡ ok x.1)
            × (x.2 ≡ env.digest t.kind x.1 t.work_id (request_of env t).options))
          (request_for_task env t)
  unfolding request_for_task
  request_for_task_lem t = elim (Result-cases (validate_request env (request_of env t))) [
    | inl (key, e) ↦ rw (e, request_for_task) (done (refl, refl, refl))
    | inr (x, e) ↦ rw (e, request_for_task) raised
  ]

  insert_new-Inv :
      (now : ℕ) (t : Task) (fresh key fp : String) (db : Db)
      → validate_request env (request_of env t) ≡ ok key
      → fp ≡ env.digest t.kind key t.work_id (request_of env t).options
      → Inv env db
      → Ensures (λ e. Inv env e.0) (insert_new now t fresh (request_of env t) key fp db)
  unfolding insert_new new_row
  insert_new-Inv now t fresh key fp db valid digest i =
      let r = new_row now (chosen_id t fresh) t (request_of env t) key fp in
      Ensures-guard
        (if is_pos t.work_id then is_some (find (reserves_work t.work_id) db.tasks) else false) _ _
        λ free. Ensures-then (insert_task r db) _ (insert_task_lem r db) λ inserted (e, v).
          Ensures-then (insert_queue (chosen_id t fresh) inserted) _
            (insert_queue_lem (chosen_id t fresh) inserted)
            λ queued_db (e', absent, present). done (
              rw (e', e)
                (Inv-insert env r db refl
                  (new_row-Readable now (chosen_id t fresh) t key fp valid digest) v
                  (rw e at absent) i))

  -- Claiming the head of the queue keeps the invariant.
  claim-Inv :
      (id : String) (now : ℕ) (db : Db)
      → Inv env db
      → Ensures (λ e. Inv env e.0) (claim env id now db)
  unfolding claim delete_queue
  claim-Inv id now db i = Ensures-or_fail (find (by_id id) db.tasks) _ _ λ row found.
      Ensures-guard (not (is_queued row.status)) _ _ λ is_waiting.
        Ensures-then (update_tasks (by_queued_id id) (start now) db) _
          (update_tasks_lem (by_queued_id id) (start now) db)
          λ started (e, v). Ensures-bind (get_tx env id (delete_queue id started)) _ λ o got.
            Ensures-or_fail o _ _ λ task some_task. done (
              rw e (
                Inv-dequeue env (by_queued_id id) (start now) (λ r _. start-Readable now r) id db
                  (start-moves id now) v i))

  pub claim_next-Inv :
      (now : ℕ) (db : Db) → Inv env db → Ensures (λ e. Inv env e.0) (claim_next env now db)
  unfolding claim_next
  claim_next-Inv now db i = go db.queue
    where
      go : (q : List String) → Ensures (λ e. Inv env e.0) (claim_head env q now db)
      go [] = done i
      go (id ∷ rest) = claim-Inv id now db i

  join_existing-Inv :
      (existing : Row) (fp : String) (db : Db)
      → Inv env db
      → Ensures (λ e. Inv env e.0) (join_existing env existing fp db)
  unfolding join_existing
  join_existing-Inv existing fp db i =
      Ensures-guard (not (str_eq existing.request_fingerprint fp)) _ _ λ same.
        Ensures-bind (get_tx env existing.task_id db) _
          λ o got. Ensures-or_fail o _ _ λ task e. done i

  insert_or_join-Inv :
      (o : Option Row) (now : ℕ) (t : Task) (fresh key fp : String) (db : Db)
      → validate_request env (request_of env t) ≡ ok key
      → fp ≡ env.digest t.kind key t.work_id (request_of env t).options
      → Inv env db
      → Ensures (λ e. Inv env e.0) (insert_or_join env o now t fresh (request_of env t) key fp db)
  unfolding insert_or_join
  insert_or_join-Inv (some existing) now t fresh key fp db valid digest i =
      join_existing-Inv existing fp db i
  insert_or_join-Inv none now t fresh key fp db valid digest i =
      insert_new-Inv now t fresh key fp db valid digest i

  enqueue_one-Inv :
      (now : ℕ) (t : Task) (fresh : String) (db : Db)
      → Inv env db
      → Ensures (λ e. Inv env e.0) (enqueue_one env now t fresh db)
  unfolding enqueue_one
  enqueue_one-Inv now t fresh db i =
      Ensures-then (request_for_task env t) _ (request_for_task_lem t) λ x (e, valid, digest).
        rw e (
          insert_or_join-Inv (find (reserves_key x.1) db.tasks) now t fresh x.1 x.2 db valid digest
            i)

  pub enqueue-Inv :
      (now : ℕ) (ts : List (Task × String)) (db : Db)
      → Inv env db
      → Ensures (λ e. Inv env e.0) (enqueue env now ts db)
  unfolding enqueue
  enqueue-Inv now [] db i = done i
  enqueue-Inv now ((t, fresh) ∷ rest) db i =
      Ensures-then (enqueue_one env now t fresh db) _ (enqueue_one-Inv now t fresh db i) λ x i'.
        Ensures-then (enqueue env now rest x.0) _ (enqueue-Inv now rest x.0 i') λ y i''. done i''
