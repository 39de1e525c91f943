-- ===== src/Taskstate/Behaviour/Reservations.antt =====
-- Whose the reservations of a table are: its key and its work belong to a reserved row.
-- The resources of a row are free: no other task holds its key, nor its work.
use narou_viewer.Prelude.{
  All, All-mono, Bool, Bool-cases, List, String, [], arith, false, find, inl, inr, int_eq_comm,
  is_pos, none, refl, some, str_eq, str_eq_comm, str_eq_refl, subst, true, ◌∷◌, ◌≡◌,
}
use narou_viewer.Taskstate.Constraints.{Apart, clash_comm}
use narou_viewer.Taskstate.Model.{Db, Row, is_reserved}
use narou_viewer.Taskstate.Schema.{
  and_other, by_id, clash, first_clash, reserves_key, reserves_work, violation,
}
use narou_viewer.Taskstate.Tables.{first_clash-cons, violation-cons}

abbrev pub FreeKey : Row → Db → Type 0
FreeKey row db = find (and_other row.task_id (reserves_key row.dedupe_key)) db.tasks ≡ none

abbrev pub FreeWork : Row → Db → Type 0
FreeWork row db =
    is_pos row.primary_work_id ≡ true
    → find (and_other row.task_id (reserves_work row.primary_work_id)) db.tasks ≡ none

-- A reserved row of a table that meets the unique indexes keeps its resources from every other row.
Apart-reserved : (row r : Row) → is_reserved row.status ≡ true → clash row r ≡ none → Apart row r
unfolding clash
Apart-reserved row r held e = record {
  other_id = ground arith;
  free_key = ground (arith, str_eq_comm row.dedupe_key r.dedupe_key);
  free_work = λ p. ground (arith, int_eq_comm row.primary_work_id r.primary_work_id);
}

pub first_clash-All :
    (r : Row) (rows : List Row)
    → first_clash r rows ≡ none
    → All (λ s. by_id r.task_id s ≡ false → clash r s ≡ none) rows
first_clash-All r [] e = tt
first_clash-All r (s ∷ rows) e =
    let (clear, clear') = first_clash-cons r s rows e in
    ((λ other. clear), first_clash-All r rows clear')

first_clash-found :
    (s : Row) (rows : List Row)
    → first_clash s rows ≡ none
    → (p : Row → Bool) (row : Row) → find p rows ≡ some row
    → clash s row ≡ none
unfolding find
first_clash-found s [] e p row f = absurd (cc)
first_clash-found s (r ∷ rows) e p row f =
    let (clear, clear') = first_clash-cons s r rows e in
    elim (Bool-cases (p r)) [
      | inl t ↦ let same : r ≡ row = ground arith in subst (λ y. clash s y ≡ none) same clear
      | inr t ↦ first_clash-found s rows clear' p row (ground arith)
    ]

-- No other row clashes with the row of an id.
clear-All :
    (id : String) (rows : List Row) (row : Row)
    → violation rows ≡ none
    → find (by_id id) rows ≡ some row
    → All (λ s. by_id row.task_id s ≡ false → clash row s ≡ none) rows
unfolding find
clear-All id [] row v e = tt
clear-All id (s ∷ rows) row v e =
    let (checked, clear, v') = violation-cons s rows v in
    elim (Bool-cases (str_eq s.task_id id)) [
      | inl t ↦
          let same : s ≡ row = ground arith in
          subst (λ x. All (λ s'. by_id x.task_id s' ≡ false → clash x s' ≡ none) (s ∷ rows)) same
            (
              (λ other. absurd (ground (arith, str_eq_refl s.task_id))),
              first_clash-All s rows clear,
            )
      | inr f ↦
          let found : find (by_id id) rows ≡ some row = ground arith in
          (
            (λ other. clash_comm s row (first_clash-found s rows clear (by_id id) row found)),
            clear-All id rows row v' found,
          )
    ]

other-none :
    (row : Row) (p : Row → Bool) (rows : List Row)
    → All (λ s. by_id row.task_id s ≡ false → p s ≡ false) rows
    → find (and_other row.task_id p) rows ≡ none
unfolding find
other-none row p [] a = refl
other-none row p (s ∷ rows) a = elim (Bool-cases (str_eq s.task_id row.task_id)) [
  | inl t ↦ rw t (other-none row p rows a.1)
  | inr f ↦ rw (f, a.0 f) (other-none row p rows a.1)
]

-- A reserved task's resources are its own.
pub held-key :
    (row : Row) (db : Db)
    → violation db.tasks ≡ none
    → find (by_id row.task_id) db.tasks ≡ some row
    → is_reserved row.status ≡ true
    → FreeKey row db
held-key row db v found held = other-none row (reserves_key row.dedupe_key) db.tasks (
    All-mono _ _ (λ s h other. (Apart-reserved row s held (h other)).free_key) db.tasks
      (clear-All row.task_id db.tasks row v found))

pub held-work :
    (row : Row) (db : Db)
    → violation db.tasks ≡ none
    → find (by_id row.task_id) db.tasks ≡ some row
    → is_reserved row.status ≡ true
    → FreeWork row db
held-work row db v found held p = other-none row (reserves_work row.primary_work_id) db.tasks (
    All-mono _ _ (λ s h other. (Apart-reserved row s held (h other)).free_work p) db.tasks
      (clear-All row.task_id db.tasks row v found))
