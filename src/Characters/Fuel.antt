-- ===== src/Characters/Fuel.antt =====
-- characters/event_store.go: the loops over chains of merges come to an end.
use narou_viewer.Characters.Acyclic.{target}
use narou_viewer.Characters.Chains.{Acyclic, Next, Star, arrived, contains_id-cons, follow}
use narou_viewer.Characters.Identity.{
  Merges, comes_back, contains_id, enough_for, merged_into, or_empty,
}
use narou_viewer.Prelude.{
  Bool-cases, List, Option-cases, String, [], arith, count, false, inl, inr, length, not, str_eq,
  str_eq_comm, str_eq_iff, str_eq_refl, subst, suc, sym, true, zero, ℕ, ◌+◌, ◌<◌, ◌∙◌, ◌∷◌, ◌≡◌,
  ◌≤◌,
}

-- The merges whose ids were not seen.
unfoldable pub unseen : Merges → List String → ℕ
unseen m seen = count (λ e. not (contains_id seen e.0)) m

unseen-le : (m : Merges) (seen : List String) → unseen m seen ≤ length m
unfolding unseen count
unseen-le [] seen = omega arith
unseen-le (e ∷ m) seen =
    let ih : count (λ e. not (contains_id seen e.0)) m ≤ length m = unseen-le m seen in ground arith

-- Seeing one more id takes nothing back.
unseen-cons : (m : Merges) (seen : List String) (id : String) → unseen m (id ∷ seen) ≤ unseen m seen
unfolding unseen count
unseen-cons [] seen id = omega arith
unseen-cons ((k, t) ∷ m) seen id =
    let ih : count (λ e. not (contains_id (id ∷ seen) e.0)) m
        ≤ count (λ e. not (contains_id seen e.0)) m =
      unseen-cons m seen id in
    let here = contains_id-cons id k seen in ground arith

-- A merge that is followed from a new id leaves one less.
pub unseen-step :
    (m : Merges) (seen : List String) (id c : String)
    → Next m id c
    → contains_id seen id ≡ false
    → unseen m (id ∷ seen) < unseen m seen
unfolding unseen count merged_into
unseen-step [] seen id c next new = absurd (cc)
unseen-step ((k, t) ∷ m) seen id c next new =
    let rest : count (λ e. not (contains_id (id ∷ seen) e.0)) m
        ≤ count (λ e. not (contains_id seen e.0)) m =
      unseen-cons m seen id in
    let here = contains_id-cons id k seen in
    elim (Bool-cases (str_eq k id)) [
      | inl e ↦
          let same : contains_id seen k ≡ false =
            subst (λ a. contains_id seen a ≡ false) (sym ((str_eq_iff k id).0 e)) new in
          let seen_now : contains_id (id ∷ seen) k ≡ true =
            here ∙ ground (arith, str_eq_comm id k) in
          rw (same, seen_now) (omega arith)
      | inr f ↦
          let ih : count (λ e. not (contains_id (id ∷ seen) e.0)) m
              < count (λ e. not (contains_id seen e.0)) m =
            unseen-step m seen id c (ground arith) new in
          ground arith
    ]

-- With fuel for every merge the loop says "yes" only where the chain leads to an id that was seen.
pub comes_back_sound :
    (fuel : ℕ) (m : Merges) (seen : List String) (target : String)
    → Acyclic m
    → unseen m seen + 2 ≤ fuel
    → comes_back fuel m seen target ≡ true
    → (x : String) × (contains_id seen x ≡ true) × Star m x target
unfolding comes_back Acyclic
comes_back_sound zero m seen target acyclic enough h = absurd (omega arith)
comes_back_sound (suc fuel) m seen target acyclic enough h = elim (Bool-cases (str_eq target "")) [
  | inl t ↦ absurd (ground arith)
  | inr f ↦ elim (Bool-cases (contains_id seen target)) [
    | inl t ↦ (target, t, arrived)
    | inr g ↦
        let more : comes_back fuel m (target ∷ seen) (or_empty (merged_into m target)) ≡ true =
          ground arith in
        elim (Option-cases (merged_into m target)) [
          | inl e ↦ absurd (ended fuel (omega arith) (rw e at more))
          | inr (c, e) ↦
              let less = unseen-step m seen target c e g in
              let (x, seen_x, chain) =
                comes_back_sound fuel m (target ∷ seen) c acyclic (omega arith) (rw e at more) in
              elim (Bool-cases (contains_id seen x)) [
                | inl t ↦ (x, t, follow e chain)
                | inr n ↦
                    let here : str_eq target x ≡ true =
                      ground (arith, contains_id-cons target x seen) in
                    absurd (
                      acyclic target c e
                        (subst (λ b. Star m b c) (sym ((str_eq_iff target x).0 here)) chain))
              ]
        ]
  ]
]
  where
    ended : (k : ℕ) → 0 < k → comes_back k m (target ∷ seen) "" ≡ true → ⊥
    ended zero p q = omega arith
    ended (suc k) p q = let e = str_eq_refl "" in ground arith

pub enough-unseen : (m : Merges) (seen : List String) → unseen m seen + 2 ≤ enough_for m
enough-unseen m seen = omega (arith, unseen-le m seen)
