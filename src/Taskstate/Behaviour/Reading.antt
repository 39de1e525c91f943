-- ===== src/Taskstate/Behaviour/Reading.antt =====
-- A row of tables that meet the invariant reads back as its task.
use narou_viewer.Prelude.{
  All-find, Bool, Bool-cases, List, Option-cases, String, arith, count, count-zero_of_find, find,
  inl, inr, ok, refl, some, str_eq, str_eq_refl, suc, true, ◌∷◌, ◌≡◌,
}
use narou_viewer.Taskstate.Control.{required}
use narou_viewer.Taskstate.Invariant.{Inv, Readable, scan_task-Readable}
use narou_viewer.Taskstate.Keeps.Control.{without-absent}
use narou_viewer.Taskstate.Model.{Db, Row, is_queued, queued}
use narou_viewer.Taskstate.Reads.{count-by_id_and, count-le_and}
use narou_viewer.Taskstate.Scan.{get_tx, task_of}
use narou_viewer.Taskstate.Schema.{by_id, update_where, without}
use narou_viewer.Taskstate.Tables.{find-update_where, updated}
use narou_viewer.Taskstate.Target.{Env}

module _ (env : Env) where
  pub Readable-row :
      {db : Db}
      → Inv env db
      → (id : String) (r : Row) → find (by_id id) db.tasks ≡ some r
      → Readable env r
  Readable-row {db} i id r e = All-find (Readable env) (by_id id) db.tasks r i.readable e

  pub get_tx_ok :
      (id : String) (db : Db) (r : Row) (h : Readable env r)
      → find (by_id id) db.tasks ≡ some r
      → get_tx env id db ≡ ok (some (task_of r h.request))
  unfolding get_tx
  get_tx_ok id db r h e = rw e (rw (scan_task-Readable env r h) refl)

  pub required_ok :
      (id : String) (db : Db) (r : Row) (h : Readable env r)
      → find (by_id id) db.tasks ≡ some r
      → required env id db ≡ ok (task_of r h.request)
  unfolding required
  required_ok id db r h e = rw (get_tx_ok id db r h e) refl

  -- The row of an id after an UPDATE that keeps the ids.
  pub find-updated :
      (p : Row → Bool) (f : Row → Row) (id : String) (rows : List Row) (r : Row)
      → ((s : Row) → (f s).task_id ≡ s.task_id)
      → find (by_id id) rows ≡ some r
      → p r ≡ true
      → find (by_id id) (update_where p f rows) ≡ some (f r)
  find-updated p f id rows r ids e t =
      rw (find-update_where p f (by_id id) same rows) (rw e (rw t refl))
    where
      same : (s : Row) → by_id id (updated p f s) ≡ by_id id s
      same s = elim (Bool-cases (p s)) [ inl t ↦ rw t (rw (ids s) refl) | inr u ↦ rw u refl ]

count-head :
    (id : String) (rest xs : List String)
    → xs ≡ id ∷ rest
    → count (str_eq id) xs ≡ suc (count (str_eq id) rest)
unfolding count
count-head id rest xs e = rw e (rw (str_eq_refl id) (omega arith))

without-head :
    (id : String) (rest xs : List String)
    → xs ≡ id ∷ rest
    → count (str_eq id) rest ≡ 0
    → without id xs ≡ rest
unfolding without
without-head id rest xs e z = rw e (rw (str_eq_refl id) (without-absent id rest z))

-- The head of the queue is a queued task, and stands there once.
pub queue-head :
    (env : Env) (db : Db) (id : String) (rest : List String)
    → Inv env db
    → db.queue ≡ id ∷ rest
    → (row : Row) × (find (by_id id) db.tasks ≡ some row)
      × (row.status ≡ queued)
      × (without id db.queue ≡ rest)
queue-head env db id rest i e = elim (Option-cases (find (by_id id) db.tasks)) [
  | inl missing ↦ absurd (
      omega (
        arith,
        count-head id rest db.queue e,
        i.queue_matches id,
        count-le_and (by_id id) (λ s. is_queued s.status) db.tasks,
        count-zero_of_find (by_id id) db.tasks missing,
      ))
  | inr (row, found) ↦
      let one = count-by_id_and id (λ s. is_queued s.status) db.tasks row i.constrained found in
      (
        row,
        found,
        ground (arith, one, i.queue_matches id, count-head id rest db.queue e),
        without-head id rest db.queue e
            (ground (arith, one, i.queue_matches id, count-head id rest db.queue e)),
      )
]
