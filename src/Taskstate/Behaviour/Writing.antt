-- ===== src/Taskstate/Behaviour/Writing.antt =====
-- An UPDATE of the one row with an id, and an UPDATE that finds no row.
use narou_viewer.Prelude.{
  Bool, Bool-cases, List, String, [], ap, arith, count, find, inl, inr, none, refl, some, subst,
  sym, true, ◌∷◌, ◌≡◌,
}
use narou_viewer.Taskstate.Constraints.{Weaker, Weaker-refl, clash-Weaker}
use narou_viewer.Taskstate.Model.{Row}
use narou_viewer.Taskstate.Reads.{only-row}
use narou_viewer.Taskstate.Schema.{by_id, check_row, update_where, violation}
use narou_viewer.Taskstate.Tables.{updated, violation-update_where}

only-check :
    (p : Row → Bool) (f : Row → Row) (row r : Row)
    → (check_row row ≡ true → check_row (f row) ≡ true)
    → (p r ≡ true → r ≡ row)
    → check_row r ≡ true
    → check_row (updated p f r) ≡ true
only-check p f row r c same h = elim (Bool-cases (p r)) [
  | inl t ↦ rw t (
      subst (λ x. check_row (f x) ≡ true) (sym (same t))
        (c (subst (λ x. check_row x ≡ true) (same t) h)))
  | inr t ↦ rw t h
]

only-Weaker :
    (p : Row → Bool) (f : Row → Row) (row r : Row)
    → Weaker row (f row)
    → (p r ≡ true → r ≡ row)
    → Weaker r (updated p f r)
only-Weaker p f row r w same = elim (Bool-cases (p r)) [
  | inl t ↦ rw t (subst (λ x. Weaker x (f x)) (sym (same t)) w)
  | inr t ↦ rw t (Weaker-refl r)
]

-- A write of one row that takes no new key, status or reservation violates nothing.
pub violation-update_row :
    (p : Row → Bool) (f : Row → Row) (id : String) (rows : List Row) (row : Row)
    → ((r : Row) → p r ≡ true → by_id id r ≡ true)
    → find (by_id id) rows ≡ some row
    → Weaker row (f row)
    → (check_row row ≡ true → check_row (f row) ≡ true)
    → violation rows ≡ none
    → violation (update_where p f rows) ≡ none
violation-update_row p f id rows row has_id found w c v =
    violation-update_where p f (λ r. by_id id r ≡ true → r ≡ row)
      (λ r only h. only-check p f row r c (λ t. only (has_id r t)) h)
      (λ r s only only' e.
        clash-Weaker r s _ _ (only-Weaker p f row r w (λ t. only (has_id r t)))
          (only-Weaker p f row s w (λ t. only' (has_id s t))) e)
      rows (only-row id rows row v found) v

pub update_where-none :
    (p : Row → Bool) (f : Row → Row) (rows : List Row)
    → count p rows ≡ 0
    → update_where p f rows ≡ rows
unfolding count update_where
update_where-none p f [] e = refl
update_where-none p f (r ∷ rows) e = elim (Bool-cases (p r)) [
  | inl t ↦ absurd (ground arith)
  | inr t ↦ rw t (ap (λ x. r ∷ x) (update_where-none p f rows (ground arith)))
]
