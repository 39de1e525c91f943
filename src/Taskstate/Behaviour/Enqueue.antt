-- ===== src/Taskstate/Behaviour/Enqueue.antt =====
-- Enqueue of one task on tables that meet the invariant.
use narou_viewer.Prelude.{
  All, Bool, Bool-cases, List, String, [], any, any-of_count, ap, arith, count-zero_of_find, err,
  false, find, if◌then◌else◌, inl, inr, is_pos, is_some, none, ok, refl, some, str_eq, str_eq_comm,
  str_eq_iff, str_eq_ne, str_eq_refl, subst, true, ℕ, ◌++◌, ◌∙◌, ◌∷◌, ◌≡◌, ◌≢◌,
}
use narou_viewer.Taskstate.Behaviour.Reading.{get_tx_ok, Readable-row}
use narou_viewer.Taskstate.Constraints.{Apart, clash-ids, violation-insert}
use narou_viewer.Taskstate.Enqueue.{
  chosen_id, enqueue_one, insert_new, insert_or_join, join_existing, new_row, queued_task,
}
use narou_viewer.Taskstate.Invariant.{Inv}
use narou_viewer.Taskstate.Model.{Db, Request, Row, Task, is_queued, task_already_active}
use narou_viewer.Taskstate.Reads.{count-le_and}
use narou_viewer.Taskstate.Request.{request_for_task}
use narou_viewer.Taskstate.Scan.{get_tx, task_of}
use narou_viewer.Taskstate.Schema.{
  by_id, check_row, first_clash, insert_queue, reserves_key, reserves_work, violation,
}
use narou_viewer.Taskstate.Tables.{first_clash-cons, insert_task_ok, violation-cons}
use narou_viewer.Taskstate.Target.{Env}

absent-after :
    (r : Row) (rows : List Row)
    → first_clash r rows ≡ none
    → (p : Row → Bool) (x : Row) → find p rows ≡ some x
    → str_eq r.task_id x.task_id ≡ false
unfolding find
absent-after r [] e p x f = absurd (cc)
absent-after r (s ∷ rows) e p x f =
    let (clear, clear') = first_clash-cons r s rows e in
    elim (Bool-cases (p s)) [
      | inl t ↦
          let same : s ≡ x = ground arith in
          subst (λ y. str_eq r.task_id y.task_id ≡ false) same (clash-ids r s clear)
      | inr t ↦ absent-after r rows clear' p x (ground arith)
    ]

-- A row that any query finds is the one that its own id finds.
pub find-own :
    (p : Row → Bool) (rows : List Row) (r : Row)
    → violation rows ≡ none
    → find p rows ≡ some r
    → find (by_id r.task_id) rows ≡ some r
unfolding find
find-own p [] r v e = absurd (cc)
find-own p (s ∷ rows) r v e =
    let (checked, clear, v') = violation-cons s rows v in
    elim (Bool-cases (p s)) [
      | inl t ↦
          let same : s ≡ r = ground arith in
          rw (ap (λ x. str_eq x.task_id r.task_id) same, str_eq_refl) (ap some same)
      | inr t ↦
          let found : find p rows ≡ some r = ground arith in
          rw (absent-after s rows clear p r found) (find-own p rows r v' found)
    ]

pub insert_queue_ok :
    (id : String) (db : Db)
    → any (str_eq id) db.queue ≡ false
    → any (by_id id) db.tasks ≡ true
    → insert_queue id db ≡ ok (record db { queue = db.queue ++ id ∷ [] })
unfolding insert_queue
insert_queue_ok id db fresh stored = rw (fresh, stored) refl

any-last : (p : Row → Bool) (rows : List Row) (r : Row) → p r ≡ true → any p (rows ++ r ∷ []) ≡ true
unfolding any
any-last p [] r t = ground arith
any-last p (s ∷ rows) r t = ground (arith, any-last p rows r t)

module _ (env : Env) where
  join_existing-same :
      (existing : Row) (fingerprint : String) (t : Task) (db : Db)
      → str_eq existing.request_fingerprint fingerprint ≡ true
      → get_tx env existing.task_id db ≡ ok (some t)
      → join_existing env existing fingerprint db ≡ ok (db, t, some existing.task_id)
  unfolding join_existing
  join_existing-same existing fingerprint t db same read = rw same (rw read refl)

  enqueue_one-joins :
      (now : ℕ) (t : Task) (fresh : String) (db : Db) (request : Request) (key fingerprint : String)
      (existing : Row)
      → request_for_task env t ≡ ok (request, key, fingerprint)
      → find (reserves_key key) db.tasks ≡ some existing
      → enqueue_one env now t fresh db ≡ join_existing env existing fingerprint db
  unfolding enqueue_one insert_or_join
  enqueue_one-joins now t fresh db request key fingerprint existing valid found =
      rw valid (rw found refl)

  -- Enqueue of a request whose key a task has reserved: the same request joins that task and leaves
  -- the tables alone, and another request for the resource answers that it is already active.
  pub enqueue_one-reserved :
      (now : ℕ) (t : Task) (fresh : String) (db : Db) (request : Request) (key fingerprint : String)
      (existing : Row)
      → Inv env db
      → request_for_task env t ≡ ok (request, key, fingerprint)
      → find (reserves_key key) db.tasks ≡ some existing
      → (existing.request_fingerprint ≡ fingerprint
          → (q : Request) × (enqueue_one env now t fresh db
              ≡ ok (db, task_of existing q, some existing.task_id)))
        × (existing.request_fingerprint ≢ fingerprint
            → enqueue_one env now t fresh db ≡ err task_already_active)
  enqueue_one-reserved now t fresh db request key fingerprint existing i valid found =
      (joins, refuses)
    where
      joined : enqueue_one env now t fresh db ≡ join_existing env existing fingerprint db
      joined = enqueue_one-joins now t fresh db request key fingerprint existing valid found

      joins :
          existing.request_fingerprint ≡ fingerprint
          → (q : Request) × (enqueue_one env now t fresh db
              ≡ ok (db, task_of existing q, some existing.task_id))
      joins same =
          let own = find-own (reserves_key key) db.tasks existing i.constrained found in
          let h = Readable-row env i existing.task_id existing own in
          (
            h.request,
            joined
                ∙ join_existing-same existing fingerprint (task_of existing h.request) db
                    ((str_eq_iff existing.request_fingerprint fingerprint).1 same)
                    (get_tx_ok env existing.task_id db existing h own),
          )

      refuses :
          existing.request_fingerprint ≢ fingerprint
          → enqueue_one env now t fresh db ≡ err task_already_active
      refuses differs =
          joined
          ∙ (unfold join_existing in
              rw (str_eq_ne existing.request_fingerprint fingerprint differs) refl)

  new_row-Apart :
      (now : ℕ) (id : String) (t : Task) (q : Request) (key fp : String) (rows : List Row)
      → find (reserves_key key) rows ≡ none
      → (is_pos t.work_id ≡ true → find (reserves_work t.work_id) rows ≡ none)
      → find (by_id id) rows ≡ none
      → All (Apart (new_row now id t q key fp)) rows
  unfolding find new_row
  new_row-Apart now id t q key fp [] k w f = tt
  new_row-Apart now id t q key fp (s ∷ rows) k w f = (
    record {
      other_id = ground (arith, str_eq_comm s.task_id id);
      free_key = ground arith;
      free_work = λ p. ground (arith, w p);
    },
    new_row-Apart now id t q key fp rows (ground arith) (λ p. ground (arith, w p)) (ground arith),
  )

  -- Enqueue of a valid request whose key and work no task has reserved, under an id that is new and
  -- with steps that meet the checks, succeeds: it appends one queued row and puts it last in the
  -- queue.
  pub enqueue_one-new :
      (now : ℕ) (t : Task) (fresh : String) (db : Db) (request : Request) (key fingerprint : String)
      → Inv env db
      → request_for_task env t ≡ ok (request, key, fingerprint)
      → find (reserves_key key) db.tasks ≡ none
      → (is_pos t.work_id ≡ true → find (reserves_work t.work_id) db.tasks ≡ none)
      → find (by_id (chosen_id t fresh)) db.tasks ≡ none
      → check_row (new_row now (chosen_id t fresh) t request key fingerprint) ≡ true
      → enqueue_one env now t fresh db
        ≡ ok (
          record {
            tasks = db.tasks ++ new_row now (chosen_id t fresh) t request key fingerprint ∷ [];
            queue = db.queue ++ chosen_id t fresh ∷ [];
          },
          queued_task now (chosen_id t fresh) t key fingerprint,
          none,
        )
  unfolding enqueue_one insert_or_join insert_new
  enqueue_one-new now t fresh db request key fingerprint i valid free free_work new checked =
      rw valid (rw free (rw no_work (rw (insert_task_ok row db inserted) (rw queued_last refl))))
    where
      id : String
      id = chosen_id t fresh

      row : Row
      row = new_row now id t request key fingerprint

      no_work :
          (if is_pos t.work_id then is_some (find (reserves_work t.work_id) db.tasks) else false)
          ≡ false
      no_work = elim (Bool-cases (is_pos t.work_id)) [
        | inl p ↦ rw (p, free_work p) refl
        | inr n ↦ rw n refl
      ]

      inserted : violation (db.tasks ++ row ∷ []) ≡ none
      inserted =
          violation-insert row db.tasks (unfold new_row in refl) checked
            (new_row-Apart now id t request key fingerprint db.tasks free free_work new)
            i.constrained

      not_queued : any (str_eq id) db.queue ≡ false
      not_queued = any-of_count (str_eq id) db.queue (
          omega (
            arith,
            i.queue_matches id,
            count-le_and (by_id id) (λ s. is_queued s.status) db.tasks,
            count-zero_of_find (by_id id) db.tasks new,
          ))

      stored : any (by_id id) (db.tasks ++ row ∷ []) ≡ true
      stored = any-last (by_id id) db.tasks row (unfold new_row in str_eq_refl id)

      queued_last :
          insert_queue id (record db { tasks = db.tasks ++ row ∷ [] })
          ≡ ok (record { tasks = db.tasks ++ row ∷ []; queue = db.queue ++ id ∷ [] })
      queued_last =
          insert_queue_ok id (record db { tasks = db.tasks ++ row ∷ [] }) not_queued stored
