-- ===== src/Characters/Resolved.antt =====
-- characters/event_store.go, resolveTarget in mergeCharacterEventRecordsByID.
use narou_viewer.Characters.Acyclic.{added-step, source, target}
use narou_viewer.Characters.Chains.{Acyclic, Next, Star, arrived, contains_id-cons, follow}
use narou_viewer.Characters.Fuel.{enough-unseen, unseen, unseen-step}
use narou_viewer.Characters.Identity.{
  IdentityMerge, Merges, accepted_merges, add_merge, candidates_of, contains_id, enough_for,
  is_cyclic, merge_less, merged_into, merges_of, normalize_merges, resolve_from, resolve_target,
}
use narou_viewer.Characters.Merged.{HasEnds, candidates-HasEnds, normalize_merges-Acyclic}
use narou_viewer.Prelude.{
  All, All-sort_stable, Bool-cases, List, Option-cases, String, [], any, arith, false, inl, inr,
  none, some, sort_stable, str_eq, str_eq_iff, str_eq_refl, subst, suc, sym, true, zero, ℕ, ◌++◌,
  ◌+◌, ◌∷◌, ◌≡◌, ◌≤◌,
}

-- Every merge leads to an id that is not empty.
unfoldable pub HasTargets : Merges → Type 0
HasTargets m = (a c : String) → Next m a c → str_eq c "" ≡ false

-- The loop stops at an id that is merged no further, which the chain of the target leads to.
abbrev pub Root : Merges → String → String → Type 0
Root m target r = Star m r target × (merged_into m r ≡ none)

resolve_from-Root :
    (fuel : ℕ) (m : Merges) (seen : List String) (target : String)
    → Acyclic m
    → HasTargets m
    → unseen m seen + 2 ≤ fuel
    → str_eq target "" ≡ false
    → ((x : String) → contains_id seen x ≡ true → ¬ Star m x target)
    → Root m target (resolve_from fuel m seen target)
unfolding resolve_from Acyclic HasTargets
resolve_from-Root zero m seen target acyclic aimed enough named apart = absurd (omega arith)
resolve_from-Root (suc fuel) m seen target acyclic aimed enough named apart =
    elim (Bool-cases (contains_id seen target)) [
      | inl t ↦ absurd (apart target t arrived)
      | inr new ↦ elim (Option-cases (merged_into m target)) [
        | inl e ↦ rw (named, new, e, str_eq_refl "") (arrived, e)
        | inr (c, e) ↦
            let less = unseen-step m seen target c e new in
            let (chain, ended) =
              resolve_from-Root fuel m (target ∷ seen) c acyclic aimed (omega arith)
                (aimed target c e) (further c e) in
            rw (named, new, e, aimed target c e) (follow e chain, ended)
      ]
    ]
  where
    further :
        (c : String)
        → Next m target c
        → (x : String) → contains_id (target ∷ seen) x ≡ true
        → ¬ Star m x c
    further c e x h chain = elim (Bool-cases (contains_id seen x)) [
      | inl t ↦ apart x t (follow e chain)
      | inr f ↦
          let here : str_eq target x ≡ true = ground (arith, contains_id-cons target x seen) in
          acyclic target c e (subst (λ b. Star m b c) (sym ((str_eq_iff target x).0 here)) chain)
    ]

add-HasTargets :
    (m : Merges) (e : IdentityMerge) → HasTargets m → HasEnds e → HasTargets (add_merge e m)
unfolding HasTargets
add-HasTargets m e h ends a c next = elim (added-step e m a c next) [
  | inl (at, there) ↦ rw there ends.1
  | inr old_step ↦ h a c old_step
]

accepted-HasTargets :
    (m : Merges) (es xs ys : List IdentityMerge)
    → HasTargets m
    → All HasEnds es
    → accepted_merges m es ≡ xs ++ ys
    → HasTargets (merges_of m xs)
unfolding accepted_merges merges_of
accepted-HasTargets m [] [] ys aimed named h = aimed
accepted-HasTargets m [] (x ∷ xs) ys aimed named h = absurd (cc)
accepted-HasTargets m (e ∷ es) [] ys aimed named h = aimed
accepted-HasTargets m (e ∷ es) (x ∷ xs) ys aimed named h = elim (Bool-cases (is_cyclic m e)) [
  | inl t ↦ accepted-HasTargets m es (x ∷ xs) ys aimed named.1 (rw t at h)
  | inr f ↦
      let kept : e ∷ accepted_merges (add_merge e m) es ≡ x ∷ (xs ++ ys) = rw f at h in
      let same : e ≡ x = cc in
      rw (← same) (
        accepted-HasTargets (add_merge e m) es xs ys (add-HasTargets m e aimed named.0) named.1
          (cc))
]

empty-HasTargets : HasTargets []
unfolding HasTargets merged_into
empty-HasTargets a c next = absurd (cc)

-- resolveTarget ends: of the merges of normalized events, up to whichever of them, it follows those
-- of a merged character to an id that is merged no further.
pub resolve_target-Root :
    (values xs ys : List IdentityMerge) (source target : String)
    → normalize_merges values ≡ xs ++ ys
    → merged_into (merges_of [] xs) source ≡ some target
    → Root (merges_of [] xs) target (resolve_target (merges_of [] xs) source)
unfolding resolve_target
resolve_target-Root values xs ys source target h next =
    let m = merges_of [] xs in
    let aimed =
      accepted-HasTargets [] (sort_stable merge_less (candidates_of [] values)) xs ys
        empty-HasTargets
        (All-sort_stable merge_less HasEnds (candidates_of [] values)
          (candidates-HasEnds [] values))
        (unfold normalize_merges in h) in
    rw next (
      resolve_from-Root (enough_for m) m [] target (normalize_merges-Acyclic values xs ys h) aimed
        (enough-unseen m []) (unfold HasTargets in aimed source target next)
        (λ x none_seen chain. unfold contains_id any in ground arith))
