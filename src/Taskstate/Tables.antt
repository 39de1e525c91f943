-- ===== src/Taskstate/Tables.antt =====
-- Laws of the statements of Schema.antt: what an UPDATE, an INSERT and a DELETE leave.
use narou_viewer.Prelude.{
  All, Bool, Ensures, Ensures-guard, Ensures-then, List, Option, Option-cases, String, [], any,
  arith, count, done, err, false, find, if◌then◌else◌, inl, inr, none, ok, raised, refl, some,
  str_eq, str_eq_iff, true, ◌++◌, ◌∷◌, ◌≡◌, ◌≢◌,
}
use narou_viewer.Taskstate.Model.{Constraint, Db, Row, constraint}
use narou_viewer.Taskstate.Schema.{
  by_id, check_row, check_violation, clash, delete_queue, exec, first_clash, insert_queue,
  insert_task, or_else, update_tasks, update_where, violation, without,
}

-- The row that an UPDATE leaves for `r`.
abbrev pub updated : (Row → Bool) → (Row → Row) → Row → Row
updated p f r = if p r then f r else r

or_else-none : (a b : Option Constraint) → or_else a b ≡ none → (a ≡ none) × (b ≡ none)
or_else-none none b h = (refl, h)
or_else-none (some c) b h = absurd (cc)

check_violation-none : (r : Row) → check_violation r ≡ none → check_row r ≡ true
check_violation-none r h = ground arith

pub first_clash-cons :
    (r s : Row) (rows : List Row)
    → first_clash r (s ∷ rows) ≡ none
    → (clash r s ≡ none) × (first_clash r rows ≡ none)
unfolding first_clash
first_clash-cons r s rows e = or_else-none _ _ e

-- A table without violations: its first row is checked and clashes with no other, and so on.
pub violation-cons :
    (r : Row) (rows : List Row)
    → violation (r ∷ rows) ≡ none
    → (check_row r ≡ true) × (first_clash r rows ≡ none) × (violation rows ≡ none)
unfolding violation
violation-cons r rows e =
    let (e₁, e') = or_else-none _ _ e in
    let (e₂, e₃) = or_else-none _ _ e' in (check_violation-none r e₁, e₂, e₃)

-- An UPDATE keeps the keys and moves a row that a query finds.
module _ (p : Row → Bool) (f : Row → Row) where
  pub find-update_where :
      (q : Row → Bool)
      → ((r : Row) → q (updated p f r) ≡ q r)
      → (rows : List Row)
      → find q (update_where p f rows)
        ≡ (elim (find q rows) [ none ↦ none | some r ↦ some (updated p f r) ])
  unfolding find update_where
  find-update_where q h [] = refl
  find-update_where q h (r ∷ rows) = ground (arith, h r, find-update_where q h rows)

  pub count-update_where :
      (q : Row → Bool)
      → ((r : Row) → q (updated p f r) ≡ q r)
      → (rows : List Row) → count q (update_where p f rows) ≡ count q rows
  unfolding count update_where
  count-update_where q h [] = refl
  count-update_where q h (r ∷ rows) = ground (arith, h r, count-update_where q h rows)

  pub count-update_where_none :
      (q : Row → Bool)
      → ((r : Row) → q (updated p f r) ≡ false)
      → (rows : List Row) → count q (update_where p f rows) ≡ 0
  unfolding count update_where
  count-update_where_none q h [] = refl
  count-update_where_none q h (r ∷ rows) = ground (arith, h r, count-update_where_none q h rows)

  -- The rows that `q` counts afterwards are those that `q'` counted before.
  pub count-update_where_of :
      (q q' : Row → Bool)
      → ((r : Row) → q (updated p f r) ≡ q' r)
      → (rows : List Row) → count q (update_where p f rows) ≡ count q' rows
  unfolding count update_where
  count-update_where_of q q' h [] = refl
  count-update_where_of q q' h (r ∷ rows) = ground (arith, h r, count-update_where_of q q' h rows)

  pub All-update_where :
      (P Q : Row → Type 0)
      → ((r : Row) → P r → Q (updated p f r))
      → (rows : List Row) → All P rows
      → All Q (update_where p f rows)
  unfolding update_where
  All-update_where P Q h [] a = tt
  All-update_where P Q h (r ∷ rows) a = (h r a.0, All-update_where P Q h rows a.1)

  first_clash-update :
      (Q : Row → Type 0)
      → ((r s : Row) → Q r → Q s → clash r s ≡ none → clash (updated p f r) (updated p f s) ≡ none)
      → (r : Row) (rows : List Row) → Q r
      → All Q rows
      → first_clash r rows ≡ none
      → first_clash (updated p f r) (update_where p f rows) ≡ none
  unfolding first_clash update_where
  first_clash-update Q h r [] q a e = refl
  first_clash-update Q h r (s ∷ rows) q a e =
      let (e₁, e₂) = first_clash-cons r s rows e in
      rw (h r s q a.0 e₁, first_clash-update Q h r rows q a.1 e₂) refl

  -- An UPDATE that respects the checks and the unique indexes leaves a table that does.
  pub violation-update_where :
      (Q : Row → Type 0)
      → ((r : Row) → Q r → check_row r ≡ true → check_row (updated p f r) ≡ true)
      → ((r s : Row) → Q r → Q s → clash r s ≡ none → clash (updated p f r) (updated p f s) ≡ none)
      → (rows : List Row) → All Q rows
      → violation rows ≡ none
      → violation (update_where p f rows) ≡ none
  unfolding violation update_where
  violation-update_where Q hc h [] a e = refl
  violation-update_where Q hc h (r ∷ rows) a e =
      let (e₁, e₂, e₃) = violation-cons r rows e in
      let checked = hc r a.0 e₁ in
      rw
        (
          checked,
          first_clash-update Q h r rows a.0 a.1 e₂,
          violation-update_where Q hc h rows a.1 e₃,
        )
        refl

exec_lem : (rows : List Row) → Ensures (λ rs. (rs ≡ rows) × (violation rows ≡ none)) (exec rows)
unfolding exec
exec_lem rows = elim (Option-cases (violation rows)) [
  | inl e ↦ rw (e, exec) (done (refl, refl))
  | inr (c, e) ↦ rw (e, exec) raised
]

exec_ok : (rows : List Row) → violation rows ≡ none → exec rows ≡ ok rows
unfolding exec
exec_ok rows e = rw (e, exec) refl

-- An UPDATE that succeeds leaves these rows, and they violate nothing.
abbrev pub Updated : (Row → Bool) → (Row → Row) → Db → Db → Type 0
Updated p f db db' =
    (db' ≡ record db { tasks = update_where p f db.tasks })
    × (violation (update_where p f db.tasks) ≡ none)

pub update_tasks_lem :
    (p : Row → Bool) (f : Row → Row) (db : Db) → Ensures (Updated p f db) (update_tasks p f db)
unfolding update_tasks
update_tasks_lem p f db =
    Ensures-then (exec (update_where p f db.tasks)) _ (exec_lem _)
      (λ rows (e, v). done (rw e refl, v))

pub update_tasks_ok :
    (p : Row → Bool) (f : Row → Row) (db : Db)
    → violation (update_where p f db.tasks) ≡ none
    → update_tasks p f db ≡ ok (record db { tasks = update_where p f db.tasks })
unfolding update_tasks
update_tasks_ok p f db v = rw (exec_ok _ v) refl

pub update_tasks_refused :
    (p : Row → Bool) (f : Row → Row) (db : Db)
    → violation (update_where p f db.tasks) ≢ none
    → (c : Constraint) × (update_tasks p f db ≡ err (constraint c))
unfolding update_tasks exec
update_tasks_refused p f db h = elim (Option-cases (violation (update_where p f db.tasks))) [
  | inl v ↦ absurd (h v)
  | inr (c, e) ↦ (c, rw (e, exec) refl)
]

pub insert_task_lem :
    (r : Row) (db : Db)
    → Ensures
        (λ db'.
          (db' ≡ record db { tasks = db.tasks ++ r ∷ [] })
          × (violation (db.tasks ++ r ∷ []) ≡ none))
        (insert_task r db)
unfolding insert_task
insert_task_lem r db =
    Ensures-then (exec (db.tasks ++ r ∷ [])) _ (exec_lem _) (λ rows (e, v). done (rw e refl, v))

pub insert_task_ok :
    (r : Row) (db : Db)
    → violation (db.tasks ++ r ∷ []) ≡ none
    → insert_task r db ≡ ok (record db { tasks = db.tasks ++ r ∷ [] })
unfolding insert_task
insert_task_ok r db v = rw (exec_ok _ v) refl

first_clash-append :
    (r s : Row) (rows : List Row)
    → first_clash r rows ≡ none
    → clash r s ≡ none
    → first_clash r (rows ++ s ∷ []) ≡ none
unfolding first_clash
first_clash-append r s [] e c = rw c refl
first_clash-append r s (t ∷ rows) e c =
    let (e₁, e₂) = first_clash-cons r t rows e in rw (e₁, first_clash-append r s rows e₂ c) refl

-- A row that clashes with none and meets the checks can be inserted.
pub violation-append :
    (r : Row) (rows : List Row)
    → violation rows ≡ none
    → check_row r ≡ true
    → All (λ s. clash s r ≡ none) rows
    → violation (rows ++ r ∷ []) ≡ none
unfolding violation first_clash
violation-append r [] e c a = rw c refl
violation-append r (s ∷ rows) e c a =
    let (e₁, e₂, e₃) = violation-cons s rows e in
    rw (e₁, first_clash-append s r rows e₂ a.0, violation-append r rows e₃ c a.1) refl

count-without :
    (j id : String) (xs : List String)
    → count (str_eq j) (without id xs) ≡ (if str_eq j id then 0 else count (str_eq j) xs)
unfolding count without
count-without j id [] = ground arith
count-without j id (x ∷ xs) =
    ground (arith, str_eq_iff id x, str_eq_iff j x, str_eq_iff j id, count-without j id xs)

-- A DELETE removes every copy of one id and no other.
pub count-delete_queue :
    (j id : String) (db : Db)
    → count (str_eq j) (delete_queue id db).queue
      ≡ (if str_eq j id then 0 else count (str_eq j) db.queue)
unfolding delete_queue
count-delete_queue j id db = count-without j id db.queue

-- An INSERT into the queue appends an id that was not there and has a task.
pub insert_queue_lem :
    (id : String) (db : Db)
    → Ensures
        (λ db'.
          (db' ≡ record db { queue = db.queue ++ id ∷ [] })
          × (any (str_eq id) db.queue ≡ false)
          × (any (by_id id) db.tasks ≡ true))
        (insert_queue id db)
unfolding insert_queue
insert_queue_lem id db =
    Ensures-guard _ _ _
      (λ absent. Ensures-guard _ _ _ (λ present. done (refl, absent, ground arith)))
