-- ===== src/Taskstate/Reads.antt =====
-- What getTx and the queries by task_id read: the one row with the id.
use narou_viewer.Prelude.{
  All, Bool, Bool-cases, Ensures, Ensures-guard, Ensures-then, List, Option, Option-cases, Result,
  Result-cases, String, [], ap, arith, count, done, err, fail_if, false, find, if◌then◌else◌, inl,
  inr, int_eq, int_eq_iff, none, not, ok, or_fail, raised, refl, some, str_eq, str_eq_iff, subst,
  true, ◌&&◌, ◌+◌, ◌==◌, ◌>>=◌, ◌>>◌, ◌∷◌, ◌≡◌, ◌≤◌,
}
use narou_viewer.Taskstate.Control.{required}
use narou_viewer.Taskstate.Invariant.{first_clash-ids}
use narou_viewer.Taskstate.Model.{
  Db, Error, Request, RequestJson, Row, Task, TaskRef, encoded, malformed, running,
  stale_task_attempt, task_not_found,
}
use narou_viewer.Taskstate.Progress.{current_attempt, is_stale}
use narou_viewer.Taskstate.Request.{decode_request, validate_request}
use narou_viewer.Taskstate.Scan.{current_request_version, decoded, get_tx, scan_task, task_of}
use narou_viewer.Taskstate.Schema.{by_id, violation}
use narou_viewer.Taskstate.Tables.{violation-cons}
use narou_viewer.Taskstate.Target.{Env}

-- `t` is the row of `id`, read as a task.
pub record RowOf (id : String) (db : Db) (t : Task) : Type 0 where
  pub row : Row
  pub request : Request
  pub found : find (by_id id) db.tasks ≡ some row
  pub read : t ≡ task_of row request
  pub work : request.work_id ≡ row.primary_work_id
  pub json : row.request_json ≡ encoded request

abbrev pub ReadRow : String → Db → Option Task → Type 0
ReadRow id db none = find (by_id id) db.tasks ≡ none
ReadRow id db (some t) = RowOf id db t

pub RowOf-status : {id : String} {db : Db} {t : Task} (h : RowOf id db t) → t.status ≡ h.row.status
RowOf-status h = ap (λ x. x.status) h.read

pub count-le_and :
    (p q : Row → Bool) (rows : List Row) → count (λ r. p r && q r) rows ≤ count p rows
unfolding count
count-le_and p q [] = omega arith
count-le_and p q (r ∷ rows) = ground (arith, count-le_and p q rows)

-- A query that fixes the id counts one row or none.
pub count-by_id_and :
    (id : String) (q : Row → Bool) (rows : List Row) (r : Row)
    → violation rows ≡ none
    → find (by_id id) rows ≡ some r
    → count (λ s. by_id id s && q s) rows ≡ (if q r then 1 else 0)
unfolding count find
count-by_id_and id q [] r v e = absurd (cc)
count-by_id_and id q (s ∷ rows) r v e =
    let (checked, clear, v') = violation-cons s rows v in
    elim (Bool-cases (str_eq s.task_id id)) [
      | inl t ↦ rw t (
          let same : s ≡ r = ground (arith) in
          subst
            (λ x.
              (if q s then 1 else 0) + count (λ y. by_id id y && q y) rows ≡ (if q x then 1 else 0))
            same
            (omega (
              arith,
              count-le_and (by_id id) q rows,
              subst (λ j. count (by_id j) rows ≡ 0) ((str_eq_iff s.task_id id).0 t)
                  (first_clash-ids s rows clear),
            )))
      | inr f ↦ rw f (omega (arith, count-by_id_and id q rows r v' (ground arith)))
    ]

absent-All :
    (id : String) (r : Row) (rows : List Row)
    → count (by_id id) rows ≡ 0
    → All (λ s. by_id id s ≡ true → s ≡ r) rows
unfolding count
absent-All id r [] e = tt
absent-All id r (s ∷ rows) e = ((λ t. absurd (ground arith)), absent-All id r rows (ground arith))

-- The row that a query by id finds is the only one with the id.
pub only-row :
    (id : String) (rows : List Row) (r : Row)
    → violation rows ≡ none
    → find (by_id id) rows ≡ some r
    → All (λ s. by_id id s ≡ true → s ≡ r) rows
unfolding find
only-row id [] r v e = absurd (cc)
only-row id (s ∷ rows) r v e =
    let (checked, clear, v') = violation-cons s rows v in
    elim (Bool-cases (str_eq s.task_id id)) [
      | inl t ↦ (
        (λ _. ground arith),
        absent-All id r rows (
            subst (λ j. count (by_id j) rows ≡ 0) ((str_eq_iff s.task_id id).0 t)
              (first_clash-ids s rows clear)),
      )
      | inr f ↦ ((λ t. absurd (cc)), only-row id rows r v' (ground arith))
    ]

-- The running attempt that a reference names.
pub record Current (ref : TaskRef) (db : Db) (t : Task) : Type 0 where
  pub of_row : RowOf ref.task_id db t
  pub is_current : t.attempt_count ≡ ref.attempt
  pub is_live : t.status ≡ running

not_stale :
    (ref : TaskRef) (t : Task)
    → is_stale ref t ≡ false
    → (t.attempt_count ≡ ref.attempt) × (t.status ≡ running)
not_stale ref t h = ground arith

module _ (env : Env) where
  decode_request_lem :
      (json : RequestJson) → Ensures (λ q. json ≡ encoded q) (decode_request env json)
  unfolding decode_request
  decode_request_lem malformed = raised
  decode_request_lem (encoded q) = elim (Result-cases (validate_request env q)) [
    | inl (key, e) ↦ rw (e, decode_request) (done refl)
    | inr (x, e) ↦ rw (e, decode_request) raised
  ]

  decoded_lem :
      (r : Row) (m : Result Error Request)
      → Ensures (λ q. r.request_json ≡ encoded q) m
      → Ensures
          (λ t.
            (q : Request) × (t ≡ task_of r q)
            × (q.work_id ≡ r.primary_work_id)
            × (r.request_json ≡ encoded q))
          (decoded env r m)
  unfolding decoded
  decoded_lem r (err x) raised = raised
  decoded_lem r (ok q) (done json) =
      Ensures-guard (not (r.request_version == current_request_version)) _ _ λ current.
        Ensures-guard (not (str_eq q.kind r.kind)) _ _ λ same_kind.
          Ensures-guard (not (int_eq r.primary_work_id q.work_id)) _ _ λ same_work.
            done (q, refl, ground (arith, int_eq_iff r.primary_work_id q.work_id), json)

  pub scan_task_lem :
      (r : Row)
      → Ensures
          (λ t.
            (q : Request) × (t ≡ task_of r q)
            × (q.work_id ≡ r.primary_work_id)
            × (r.request_json ≡ encoded q))
          (scan_task env r)
  unfolding scan_task
  scan_task_lem r = decoded_lem r _ (decode_request_lem r.request_json)

  pub get_tx_lem : (id : String) (db : Db) → Ensures (ReadRow id db) (get_tx env id db)
  unfolding get_tx
  get_tx_lem id db = elim (Option-cases (find (by_id id) db.tasks)) [
    | inl e ↦ rw (e, get_tx) (done e)
    | inr (r, e) ↦
        rw (e, get_tx)
          (Ensures-then (scan_task env r) _ (scan_task_lem r) λ t (q, read, work, json).
            done
              (record { row = r; request = q; found = e; read = read; work = work; json = json }))
  ]

  pub required_lem : (id : String) (db : Db) → Ensures (RowOf id db) (required env id db)
  unfolding required
  required_lem id db = Ensures-then (get_tx env id db) _ (get_tx_lem id db) go
    where
      go : (o : Option Task) → ReadRow id db o → Ensures (RowOf id db) (or_fail o task_not_found)
      go none e = raised
      go (some t) h = done h

  pub current_attempt_lem :
      (ref : TaskRef) (db : Db) → Ensures (Current ref db) (current_attempt env ref db)
  unfolding current_attempt
  current_attempt_lem ref db =
      Ensures-then (get_tx env ref.task_id db) _ (get_tx_lem ref.task_id db) go
    where
      go :
          (o : Option Task)
          → ReadRow ref.task_id db o
          → Ensures (Current ref db) (
              or_fail o stale_task_attempt >>= λ t.
              fail_if (is_stale ref t) stale_task_attempt >> ok t)
      go none e = raised
      go (some t) h = Ensures-guard (is_stale ref t) _ _ λ live. done (record {
        of_row = h;
        is_current = (not_stale ref t live).0;
        is_live = (not_stale ref t live).1;
      })
