-- ===== src/Characters/Ordinals.antt =====
-- characters/id_allocator.go: the loops over the ordinals come to an end.
use narou_viewer.Characters.Allocator.{first_free}
use narou_viewer.Characters.Identity.{contains_id}
use narou_viewer.Prelude.{
  Bool, Bool-cases, List, not, ◌&&◌, ◌+◌, ◌==◌, ◌⊎◌, String, [], any, arith, false, if◌then◌else◌,
  inl, inr, length, refl, some, str_eq, str_eq_iff, suc, sym, true, zero, ℕ, ◌<◌, ◌∙◌, ◌∷◌, ◌≡◌,
  ◌≤◌,
}

equal_or_below : (m n : ℕ) → m ≤ n → (m ≡ n) ⊎ (m < n)
equal_or_below m n le = elim (Bool-cases (m == n)) [
  | inl t ↦ inl (ground arith)
  | inr f ↦ inr (ground arith)
]

-- The ids of the ordinals below a bound differ.
unfoldable pub differs_below : (ℕ → String) → String → ℕ → Bool
differs_below stable_id id zero = true
differs_below stable_id id (suc n) = not (str_eq (stable_id n) id) && differs_below stable_id id n

unfoldable pub distinct_below : (ℕ → String) → ℕ → Bool
unfolding differs_below
distinct_below stable_id zero = true
distinct_below stable_id (suc n) =
    differs_below stable_id (stable_id n) n && distinct_below stable_id n

differs_below_lem :
    (stable_id : ℕ → String) (id : String) (bound m : ℕ)
    → differs_below stable_id id bound ≡ true
    → m < bound
    → str_eq (stable_id m) id ≡ false
unfolding differs_below
differs_below_lem stable_id id zero m h lt = absurd (omega arith)
differs_below_lem stable_id id (suc n) m h lt = elim (equal_or_below m n (omega arith)) [
  | inl e ↦ rw e (ground arith)
  | inr below ↦ differs_below_lem stable_id id n m (ground arith) below
]

distinct_below_lem :
    (stable_id : ℕ → String) (bound m n : ℕ)
    → distinct_below stable_id bound ≡ true
    → m < n
    → n < bound
    → str_eq (stable_id m) (stable_id n) ≡ false
unfolding distinct_below
distinct_below_lem stable_id zero m n h lt le = absurd (omega arith)
distinct_below_lem stable_id (suc k) m n h lt le = elim (equal_or_below n k (omega arith)) [
  | inl e ↦ rw e (differs_below_lem stable_id (stable_id k) k m (ground arith) (omega (arith, e)))
  | inr below ↦ distinct_below_lem stable_id k m n (ground arith) lt below
]

unfoldable pub without_id : String → List String → List String
without_id id [] = []
without_id id (x ∷ xs) = if str_eq x id then without_id id xs else x ∷ without_id id xs

without_id-le : (id : String) (xs : List String) → length (without_id id xs) ≤ length xs
unfolding without_id
without_id-le id [] = omega arith
without_id-le id (x ∷ xs) =
    let ih : length (without_id id xs) ≤ length xs = without_id-le id xs in ground arith

without_id-lt :
    (id : String) (xs : List String)
    → contains_id xs id ≡ true
    → length (without_id id xs) < length xs
unfolding without_id contains_id any
without_id-lt id [] h = absurd (cc)
without_id-lt id (x ∷ xs) h = elim (Bool-cases (str_eq x id)) [
  | inl t ↦ let le = without_id-le id xs in rw t (omega arith)
  | inr f ↦
      let ih : length (without_id id xs) < length xs = without_id-lt id xs (ground arith) in
      rw f (omega arith)
]

contains-without_id :
    (id x : String) (xs : List String)
    → str_eq id x ≡ false
    → contains_id (without_id id xs) x ≡ contains_id xs x
unfolding without_id contains_id any
contains-without_id id x [] h = refl
contains-without_id id x (y ∷ ys) h =
    let ih : any (λ z. str_eq z x) (without_id id ys) ≡ any (λ z. str_eq z x) ys =
      contains-without_id id x ys h in
    elim (Bool-cases (str_eq y id)) [
      | inl t ↦ let other : str_eq y x ≡ false = rw ((str_eq_iff y id).0 t) h in rw (t, other) ih
      | inr f ↦ rw (f, ih) refl
    ]

module _ (stable_id : ℕ → String) (bound : ℕ)
    (distinct : distinct_below stable_id bound ≡ true) where
  first_free-without :
      (rounds : ℕ) (used : List String) (id : String) (n : ℕ)
      → ((k : ℕ) → n ≤ k → k < n + rounds → str_eq id (stable_id k) ≡ false)
      → first_free stable_id rounds (without_id id used) n ≡ first_free stable_id rounds used n
  unfolding first_free
  first_free-without zero used id n h = refl
  first_free-without (suc rounds) used id n h =
      rw
        (
          contains-without_id id (stable_id n) used (h n (omega arith) (omega arith)),
          first_free-without rounds used id (suc n) (λ k le lt. h k (omega arith) (omega arith)),
        )
        refl

  -- With one round more than there are used ids the loop ends, and the id that it stops at is not
  -- used.
  pub first_free-total :
      (rounds : ℕ) (used : List String) (n : ℕ)
      → length used < rounds
      → n + rounds ≤ bound
      → (k : ℕ) × (first_free stable_id rounds used n ≡ some k)
        × (contains_id used (stable_id k) ≡ false)
        × (n ≤ k)
        × (k < n + rounds)
  unfolding first_free
  first_free-total zero used n h within = absurd (omega arith)
  first_free-total (suc rounds) used n h within =
      elim (Bool-cases (contains_id used (stable_id n))) [
        | inr f ↦ (n, rw f refl, f, omega arith, omega arith)
        | inl t ↦
            let id = stable_id n in
            let fewer = without_id-lt id used t in
            let (k, found, free, le, lt) =
              first_free-total rounds (without_id id used) (suc n) (omega arith) (omega arith) in
            let other : (j : ℕ) → suc n ≤ j → j < suc n + rounds → str_eq id (stable_id j) ≡ false =
              λ j above below.
                distinct_below_lem stable_id bound n j distinct (omega arith) (omega arith) in
            (
              k,
              rw t (sym (first_free-without rounds used id (suc n) other) ∙ found),
              sym (contains-without_id id (stable_id k) used (other k le lt)) ∙ free,
              omega arith,
              omega arith,
            )
      ]

-- No ordinal from this one on is looked at by a number of draws from an ordinal, with a number of ids
-- used.
unfoldable pub reach : ℕ → ℕ → ℕ → ℕ
reach ordinal used zero = ordinal
reach ordinal used (suc draws) = reach (ordinal + suc used) (suc used) draws

pub reach_ge : (ordinal used draws : ℕ) → ordinal ≤ reach ordinal used draws
unfolding reach
reach_ge ordinal used zero = omega arith
reach_ge ordinal used (suc draws) = omega (arith, reach_ge (ordinal + suc used) (suc used) draws)

pub reach_mono : (m n used draws : ℕ) → m ≤ n → reach m used draws ≤ reach n used draws
unfolding reach
reach_mono m n used zero le = le
reach_mono m n used (suc draws) le =
    reach_mono (m + suc used) (n + suc used) (suc used) draws (omega arith)
