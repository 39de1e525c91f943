-- ===== src/Taskstate/Evolution/Updates.antt =====
-- How one row may change from a transaction to the next, and which updates respect it.
use narou_viewer.Prelude.{
  Bool, Bool-cases, false, List, Option, String, [], arith, find, find-holds, if◌then◌else◌, inl,
  inr, none, refl, some, str_eq_iff, subst, suc, sym, true, ◌++◌, ◌∷◌, ◌≡◌,
}
use narou_viewer.Taskstate.Model.{
  Db, Row, Status, canceled, failed, interrupted, is_no_request, paused, queued, running, succeeded,
}
use narou_viewer.Taskstate.Schema.{by_id, update_where}
use narou_viewer.Taskstate.Tables.{find-update_where, updated}

-- The status diagram, without the claim.
infix 40 ◌⟶◌
pub data ◌⟶◌ : Status → Status → Type 0 where
  pause_waiting : queued ⟶ paused
  cancel_waiting : queued ⟶ canceled
  finish_paused : running ⟶ paused
  finish_interrupted : running ⟶ interrupted
  finish_failed : running ⟶ failed
  finish_canceled : running ⟶ canceled
  finish_succeeded : running ⟶ succeeded
  cancel_paused : paused ⟶ canceled
  cancel_interrupted : interrupted ⟶ canceled
  cancel_failed : failed ⟶ canceled
  resume_paused : paused ⟶ queued
  resume_interrupted : interrupted ⟶ queued
  resume_failed : failed ⟶ queued

-- A committed result stays committed, and a requested action stays requested, with no commit.
abbrev pub KeepsDecision : Row → Row → Type 0
KeepsDecision r s =
    (r.execution_committed ≡ true → s.execution_committed ≡ true)
    × (is_no_request r.requested_action ≡ false
        → (s.requested_action ≡ r.requested_action)
          × (s.execution_committed ≡ r.execution_committed))

-- A running attempt with a committed result succeeds.
abbrev pub HonorsCommit : Row → Row → Type 0
HonorsCommit r s = r.status ≡ running → r.execution_committed ≡ true → s.status ≡ succeeded

-- A row keeps its status, its attempt and what is decided, or follows the diagram within its
-- attempt, or is claimed, which starts the next attempt.
pub data Evolves (r s : Row) : Type 0 where
  stays : s.status ≡ r.status → s.attempt_count ≡ r.attempt_count → KeepsDecision r s → Evolves r s
  moves : r.status ⟶ s.status → s.attempt_count ≡ r.attempt_count → HonorsCommit r s → Evolves r s
  starts :
      r.status ≡ queued → s.status ≡ running → s.attempt_count ≡ suc r.attempt_count → Evolves r s

-- The row of an id before and after: it changes by `R`, or a new one is queued with no attempt.
pub data At (R : Row → Row → Type 0) : Option Row → Option Row → Type 0 where
  nowhere : At R none none
  appears : {s : Row} → s.status ≡ queued → s.attempt_count ≡ 0 → At R none (some s)
  both : {r s : Row} → R r s → At R (some r) (some s)

abbrev pub row_at : String → Db → Option Row
row_at id db = find (by_id id) db.tasks

-- Every task changes by `R`.
abbrev pub Always : (Row → Row → Type 0) → Db → Db → Type 0
Always R db db' = (id : String) → At R (row_at id db) (row_at id db')

abbrev pub AllEvolve : Db → Db → Type 0
AllEvolve = Always Evolves

pub Evolves-refl : (r : Row) → Evolves r r
Evolves-refl r = stays refl refl ((λ c. c), λ n. (refl, refl))

module _ (R : Row → Row → Type 0) (R-refl : (r : Row) → R r r) where
  pub Always-refl : (db : Db) → Always R db db
  Always-refl db id = go (row_at id db)
    where
      go : (o : Option Row) → At R o o
      go none = nowhere
      go (some r) = both (R-refl r)

  pub Always-mono :
      (S : Row → Row → Type 0)
      → ((r s : Row) → R r s → S r s)
      → (db db' : Db) → Always R db db'
      → Always S db db'
  Always-mono S f db db' h id = go (h id)
    where
      go : {o o' : Option Row} → At R o o' → At S o o'
      go nowhere = nowhere
      go (appears q a) = appears q a
      go (both {r = r} {s = s} x) = both (f r s x)

  pub Always-trans :
      ((r s t : Row) → R r s → R s t → R r t)
      → ((r s : Row)
          → R r s
          → r.status ≡ queued
          → r.attempt_count ≡ 0
          → (s.status ≡ queued) × (s.attempt_count ≡ 0))
      → (db db' db'' : Db) → Always R db db'
      → Always R db' db''
      → Always R db db''
  Always-trans compose fresh db db' db'' h k id = go (h id) (k id)
    where
      go : {o o' o'' : Option Row} → At R o o' → At R o' o'' → At R o o''
      go nowhere nowhere = nowhere
      go nowhere (appears q a) = appears q a
      go (appears {s = r} q a) (both {s = s} x) = let (q', a') = fresh r s x q a in appears q' a'
      go (both {r = r} {s = s} x) (both {s = t} y) = both (compose r s t x y)

find-append_one :
    (p : Row → Bool) (rows : List Row) (r : Row)
    → find p (rows ++ r ∷ [])
      ≡ (elim (find p rows) [ some s ↦ some s | none ↦ (if p r then some r else none) ])
unfolding find
find-append_one p [] r = refl
find-append_one p (s ∷ rows) r = ground (arith, find-append_one p rows r)

module _ (R : Row → Row → Type 0) (R-refl : (r : Row) → R r r) where
  -- An UPDATE that keeps the ids, and changes each row that it takes by `R`.
  pub update-Always :
      (p : Row → Bool) (f : Row → Row) (db : Db) (q : List String)
      → ((r : Row) → (f r).task_id ≡ r.task_id)
      → ((r : Row) → row_at r.task_id db ≡ some r → p r ≡ true → R r (f r))
      → Always R db (record { tasks = update_where p f db.tasks; queue = q })
  update-Always p f db q ids h id =
      rw (find-update_where p f (by_id id) same db.tasks) (go (row_at id db) refl)
    where
      same : (r : Row) → by_id id (updated p f r) ≡ by_id id r
      same r = elim (Bool-cases (p r)) [ inl t ↦ rw t (rw (ids r) refl) | inr e ↦ rw e refl ]

      go :
          (o : Option Row)
          → row_at id db ≡ o
          → At R o (elim o [ none ↦ none | some r ↦ some (updated p f r) ])
      go none e = nowhere
      go (some r) e = elim (Bool-cases (p r)) [
        | inl t ↦ rw t (
            both (
              h r
                (subst (λ j. row_at j db ≡ some r)
                  (sym ((str_eq_iff r.task_id id).0 (find-holds (by_id id) db.tasks r e))) e)
                t))
        | inr t ↦ rw t (both (R-refl r))
      ]

  -- A new queued row.
  pub insert-Always :
      (r : Row) (db : Db) (q : List String)
      → r.status ≡ queued
      → r.attempt_count ≡ 0
      → Always R db (record { tasks = db.tasks ++ r ∷ []; queue = q })
  insert-Always r db q s a id = rw (find-append_one (by_id id) db.tasks r) (go (row_at id db))
    where
      go :
          (o : Option Row)
          → At R o (elim o [ some x ↦ some x | none ↦ (if by_id id r then some r else none) ])
      go (some x) = both (R-refl x)
      go none = elim (Bool-cases (by_id id r)) [ inl t ↦ rw t (appears s a) | inr t ↦ rw t nowhere ]
