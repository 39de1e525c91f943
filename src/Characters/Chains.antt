-- ===== src/Characters/Chains.antt =====
-- characters/event_store.go: chains of merges, and the loops that follow them.
use narou_viewer.Characters.Identity.{Merges, comes_back, contains_id, merged_into, or_empty}
use narou_viewer.Prelude.{
  Bool-cases, List, String, any, arith, false, inl, inr, none, refl, some, str_eq, str_eq_iff,
  subst, suc, true, zero, ℕ, ◌||◌, ◌∙◌, ◌∷◌, ◌≡◌, ◌⊎◌,
}

-- A merge leads from an id to the next one.
abbrev pub Next : Merges → String → String → Type 0
Next m a b = merged_into m a ≡ some b

pub data Star (m : Merges) (b : String) : String → Type 0 where
  arrived : Star m b b
  follow : {a c : String} → Next m a c → Star m b c → Star m b a

-- No id leads back to itself.
unfoldable pub Acyclic : Merges → Type 0
Acyclic m = (a c : String) → Next m a c → ¬ Star m a c

-- No key is empty.
unfoldable pub NoEmptyKey : Merges → Type 0
NoEmptyKey m = merged_into m "" ≡ none

pub contains_id-cons :
    (x id : String) (ids : List String)
    → contains_id (x ∷ ids) id ≡ (str_eq x id || contains_id ids id)
unfolding contains_id any
contains_id-cons x id ids = refl

-- A chain is empty, or has a first step.
pub Star-cases :
    {m : Merges} {b a : String} → Star m b a → (a ≡ b) ⊎ ((c : String) × Next m a c × Star m b c)
Star-cases arrived = inl refl
Star-cases (follow {c = c} next rest) = inr (c, next, rest)

-- Where the loop finds no way back, no chain leads to an id that was seen.
pub comes_back-Star :
    (fuel : ℕ) (m : Merges) (seen : List String) (target x : String)
    → NoEmptyKey m
    → comes_back fuel m seen target ≡ false
    → contains_id seen x ≡ true
    → contains_id seen "" ≡ false
    → ¬ Star m x target
unfolding comes_back NoEmptyKey
comes_back-Star zero m seen target x keys h seen_x no_empty chain = absurd (cc)
comes_back-Star (suc fuel) m seen target x keys h seen_x no_empty chain = elim (Star-cases chain) [
  | inl e ↦
      let seen_target : contains_id seen target ≡ true = rw e seen_x in
      elim (Bool-cases (str_eq target "")) [
        | inl t ↦
            let both : contains_id seen "" ≡ true =
              subst (λ a. contains_id seen a ≡ true) ((str_eq_iff target "").0 t) seen_target in
            ground arith
        | inr f ↦ ground arith
      ]
  | inr (c, next, rest) ↦ elim (Bool-cases (str_eq target "")) [
    | inl t ↦
        let lost : merged_into m "" ≡ some c =
          subst (λ a. merged_into m a ≡ some c) ((str_eq_iff target "").0 t) next in
        ground arith
    | inr f ↦ elim (Bool-cases (contains_id seen target)) [
      | inl t ↦ absurd (ground arith)
      | inr g ↦
          comes_back-Star fuel m (target ∷ seen) c x keys
            (subst (λ o. comes_back fuel m (target ∷ seen) (or_empty o) ≡ false) next
              (ground arith))
            (contains_id-cons target x seen ∙ ground arith)
            (contains_id-cons target "" seen ∙ ground arith) rest
    ]
  ]
]
