-- ===== src/Taskstate/Constraints.antt =====
-- When an UPDATE meets the unique indexes and the checks.
use narou_viewer.Prelude.{
  All, All-mono, Bool, Bool-cases, List, String, [], arith, false, inl, inr, int_eq_comm,
  int_eq_iff, is_pos, none, refl, str_eq, str_eq_comm, str_eq_iff, subst, sym, true, ℕ, ◌++◌, ◌∷◌,
  ◌≡◌,
}
use narou_viewer.Taskstate.Claim.{by_queued_id, start}
use narou_viewer.Taskstate.Control.{set_queued}
use narou_viewer.Taskstate.Model.{Row, is_reserved, is_running}
use narou_viewer.Taskstate.Schema.{
  by_id, check_row, clash, reserves_key, reserves_work, update_where, violation,
}
use narou_viewer.Taskstate.Tables.{updated, violation-append, violation-update_where}

-- `s` holds no more than `r`: the same keys, and a running status or a reservation only if `r` has it.
pub record Weaker (r s : Row) : Type 0 where
  pub same_id : s.task_id ≡ r.task_id
  pub same_key : s.dedupe_key ≡ r.dedupe_key
  pub same_work : s.primary_work_id ≡ r.primary_work_id
  pub runs_less : is_running s.status ≡ true → is_running r.status ≡ true
  pub reserves_less : is_reserved s.status ≡ true → is_reserved r.status ≡ true

pub Weaker-refl : (r : Row) → Weaker r r
Weaker-refl r = record {
  same_id = refl;
  same_key = refl;
  same_work = refl;
  runs_less = λ h. h;
  reserves_less = λ h. h;
}

pub clash-Weaker :
    (r s r' s' : Row) → Weaker r r' → Weaker s s' → clash r s ≡ none → clash r' s' ≡ none
unfolding clash
clash-Weaker r s r' s' h k e =
    rw (h.same_id, k.same_id, h.same_key, k.same_key, h.same_work, k.same_work) (ground arith)

pub All-Unit : (rows : List Row) → All (λ r. Unit {0}) rows
All-Unit [] = tt
All-Unit (r ∷ rows) = (tt, All-Unit rows)

pub violation-Weaker :
    (p : Row → Bool) (f : Row → Row) (rows : List Row)
    → ((r : Row) → p r ≡ true → Weaker r (f r))
    → ((r : Row) → p r ≡ true → check_row r ≡ true → check_row (f r) ≡ true)
    → violation rows ≡ none
    → violation (update_where p f rows) ≡ none
violation-Weaker p f rows w c v =
    violation-update_where p f (λ r. Unit {0}) check
      (λ r s _ _ e. clash-Weaker r s _ _ (weak r) (weak s) e) rows (All-Unit rows) v
  where
    weak : (r : Row) → Weaker r (updated p f r)
    weak r = elim (Bool-cases (p r)) [ inl t ↦ rw t (w r t) | inr t ↦ rw t (Weaker-refl r) ]

    check : (r : Row) → Unit {0} → check_row r ≡ true → check_row (updated p f r) ≡ true
    check r _ h = elim (Bool-cases (p r)) [ inl t ↦ rw t (c r t h) | inr t ↦ rw t h ]

-- Claiming a task while none runs violates no index.
claim-clash :
    (id : String) (now : ℕ) (r s : Row)
    → is_running r.status ≡ false
    → is_running s.status ≡ false
    → clash r s ≡ none
    → clash (updated (by_queued_id id) (start now) r) (updated (by_queued_id id) (start now) s)
      ≡ none
unfolding clash start
claim-clash id now r s h k e =
    ground (arith, str_eq_iff r.task_id id, str_eq_iff s.task_id id, str_eq_iff r.task_id s.task_id)

start-check : (now : ℕ) (r : Row) → check_row r ≡ true → check_row (start now r) ≡ true
unfolding check_row start
start-check now r h = ground arith

pub violation-claim :
    (id : String) (now : ℕ) (rows : List Row)
    → All (λ r. is_running r.status ≡ false) rows
    → violation rows ≡ none
    → violation (update_where (by_queued_id id) (start now) rows) ≡ none
violation-claim id now rows idle v =
    violation-update_where (by_queued_id id) (start now) (λ r. is_running r.status ≡ false) check
      (claim-clash id now) rows idle v
  where
    check :
        (r : Row)
        → is_running r.status ≡ false
        → check_row r ≡ true
        → check_row (updated (by_queued_id id) (start now) r) ≡ true
    check r _ h = elim (Bool-cases (by_queued_id id r)) [
      | inl t ↦ rw t (start-check now r h)
      | inr t ↦ rw t h
    ]

-- `s` is another task, which holds no reservation that `r` asks for.
pub record Apart (r s : Row) : Type 0 where
  pub other_id : str_eq r.task_id s.task_id ≡ false
  pub free_key : reserves_key r.dedupe_key s ≡ false
  pub free_work : is_pos r.primary_work_id ≡ true → reserves_work r.primary_work_id s ≡ false

clash-queued : (r s : Row) → is_running r.status ≡ false → Apart r s → clash r s ≡ none
unfolding clash
clash-queued r s q h =
    ground (
      arith,
      str_eq_comm r.dedupe_key s.dedupe_key,
      int_eq_comm r.primary_work_id s.primary_work_id,
    )

pub clash_comm : (r s : Row) → clash r s ≡ none → clash s r ≡ none
unfolding clash
clash_comm r s h = ground (
  arith,
  str_eq_comm r.task_id s.task_id,
  str_eq_comm r.dedupe_key s.dedupe_key,
  int_eq_iff r.primary_work_id s.primary_work_id,
  int_eq_comm r.primary_work_id s.primary_work_id,
)

-- A new queued row that is apart from every other violates no index.
pub violation-insert :
    (r : Row) (rows : List Row)
    → is_running r.status ≡ false
    → check_row r ≡ true
    → All (Apart r) rows
    → violation rows ≡ none
    → violation (rows ++ r ∷ []) ≡ none
violation-insert r rows q c a v = violation-append r rows v c (
    All-mono (Apart r) (λ s. clash s r ≡ none) (λ s h. clash_comm r s (clash-queued r s q h)) rows
      a)

-- The rows of a table, seen from `row`, which is one of them.
abbrev pub Around : Row → Row → Type 0
Around row r =
    (str_eq r.task_id row.task_id ≡ true → r ≡ row)
    × (str_eq r.task_id row.task_id ≡ false → Apart row r)

set_queued-Apart : (now : ℕ) (row s : Row) → Apart row s → Apart (set_queued now row) s
unfolding set_queued
set_queued-Apart now row s h = record {
  other_id = h.other_id;
  free_key = h.free_key;
  free_work = h.free_work;
}

set_queued-clash : (now : ℕ) (row s : Row) → Apart row s → clash (set_queued now row) s ≡ none
set_queued-clash now row s h =
    clash-queued (set_queued now row) s (unfold set_queued in refl) (set_queued-Apart now row s h)

pub clash-ids : (r s : Row) → clash r s ≡ none → str_eq r.task_id s.task_id ≡ false
unfolding clash
clash-ids r s e = ground arith

resume-clash :
    (now : ℕ) (row r s : Row)
    → Around row r
    → Around row s
    → clash r s ≡ none
    → clash
        (updated (by_id row.task_id) (set_queued now) r)
        (updated (by_id row.task_id) (set_queued now) s)
      ≡ none
resume-clash now row r s h k e = elim (Bool-cases (str_eq r.task_id row.task_id)) [
  | inl t ↦ elim (Bool-cases (str_eq s.task_id row.task_id)) [
    | inl u ↦ absurd (
        ground (
          arith,
          clash-ids r s e,
          str_eq_iff r.task_id row.task_id,
          str_eq_iff s.task_id row.task_id,
          str_eq_iff r.task_id s.task_id,
        ))
    | inr u ↦
        rw (t, u)
          (subst (λ x. clash (set_queued now x) s ≡ none) (sym (h.0 t))
            (set_queued-clash now row s (k.1 u)))
  ]
  | inr t ↦ elim (Bool-cases (str_eq s.task_id row.task_id)) [
    | inl u ↦
        rw (t, u)
          (subst (λ x. clash r (set_queued now x) ≡ none) (sym (k.0 u))
            (clash_comm (set_queued now row) r (set_queued-clash now row r (h.1 t))))
    | inr u ↦ rw (t, u) e
  ]
]

set_queued-check : (now : ℕ) (r : Row) → check_row r ≡ true → check_row (set_queued now r) ≡ true
unfolding check_row set_queued
set_queued-check now r h = ground arith

-- A task can be queued again if every other leaves its resources free.
pub violation-resume :
    (now : ℕ) (row : Row) (rows : List Row)
    → All (Around row) rows
    → violation rows ≡ none
    → violation (update_where (by_id row.task_id) (set_queued now) rows) ≡ none
violation-resume now row rows a v =
    violation-update_where (by_id row.task_id) (set_queued now) (Around row) check
      (resume-clash now row) rows a v
  where
    check :
        (r : Row)
        → Around row r
        → check_row r ≡ true
        → check_row (updated (by_id row.task_id) (set_queued now) r) ≡ true
    check r _ h = elim (Bool-cases (by_id row.task_id r)) [
      | inl t ↦ rw t (set_queued-check now r h)
      | inr t ↦ rw t h
    ]
