-- ===== src/Characters/Merged.antt =====
-- characters/event_store.go, NormalizeGeneratedIdentityMergeEvents and resolveTarget.
use narou_viewer.Characters.Acyclic.{add-Acyclic}
use narou_viewer.Characters.Chains.{Acyclic, NoEmptyKey, Star, comes_back-Star}
use narou_viewer.Characters.Fuel.{comes_back_sound, enough-unseen}
use narou_viewer.Characters.Identity.{
  IdentityMerge, Merges, accepted_merges, add_merge, candidates_of, contains_id, enough_for,
  is_cyclic, is_incomplete, merge_less, merged_into, merges_of, normalize_merges, same_merge,
  trimmed_merge,
}
use narou_viewer.Prelude.{
  All, All-sort_stable, Bool-cases, List, String, [], any, arith, false, inl, inr, refl,
  sort_stable, str_eq, str_eq_iff, str_eq_refl, subst, sym, true, ◌++◌, ◌||◌, ◌↔◌, ◌∙◌, ◌∷◌, ◌≡◌,
}

-- The source of an event is not empty.
abbrev pub HasSource : IdentityMerge → Type 0
HasSource e = str_eq e.source_character_id "" ≡ false

-- Both ends of an event.
abbrev pub HasEnds : IdentityMerge → Type 0
HasEnds e = HasSource e × (str_eq e.target_character_id "" ≡ false)

pub candidates-HasEnds : (seen es : List IdentityMerge) → All HasEnds (candidates_of seen es)
unfolding candidates_of
candidates-HasEnds seen [] = tt
candidates-HasEnds seen (e ∷ es) =
    let t = trimmed_merge e in
    elim (Bool-cases (is_incomplete t || any (same_merge t) seen)) [
      | inl skip ↦ rw skip (candidates-HasEnds seen es)
      | inr keep ↦ rw keep ((ground arith, ground arith), candidates-HasEnds (t ∷ seen) es)
    ]

one_id : (a x : String) → contains_id (a ∷ []) x ≡ str_eq a x
unfolding contains_id any
one_id a x = ground arith

module _ (m : Merges) (e : IdentityMerge) (acyclic : Acyclic m) (keys : NoEmptyKey m)
    (named : HasSource e) where
  abbrev source_id : String
  source_id = e.source_character_id

  refused-Star : is_cyclic m e ≡ true → Star m source_id e.target_character_id
  unfolding is_cyclic
  refused-Star h =
      let (x, seen, chain) =
        comes_back_sound (enough_for m) m (source_id ∷ []) e.target_character_id acyclic
          (enough-unseen m (source_id ∷ [])) h in
      let same : source_id ≡ x = (str_eq_iff source_id x).0 (sym (one_id source_id x) ∙ seen) in
      subst (λ b. Star m b e.target_character_id) (sym same) chain

  apart_if_accepted : is_cyclic m e ≡ false → ¬ Star m source_id e.target_character_id
  unfolding is_cyclic
  apart_if_accepted f chain =
      comes_back-Star (enough_for m) m (source_id ∷ []) e.target_character_id source_id keys f
        (one_id source_id source_id ∙ str_eq_refl source_id) (one_id source_id "" ∙ named) chain

  -- The loop of NormalizeGeneratedIdentityMergeEvents refuses an event exactly if it would close a
  -- cycle: if merges that were accepted before lead from its target to its source. The map has no
  -- cycle, and no empty id is merged.
  pub is_cyclic-iff_Star : (is_cyclic m e ≡ true) ↔ Star m source_id e.target_character_id
  is_cyclic-iff_Star = (
    refused-Star,
    λ chain. elim (Bool-cases (is_cyclic m e)) [
      | inl t ↦ t
      | inr f ↦ absurd (apart_if_accepted f chain)
    ],
  )

add-NoEmptyKey :
    (m : Merges) (e : IdentityMerge) → NoEmptyKey m → HasSource e → NoEmptyKey (add_merge e m)
unfolding NoEmptyKey merged_into
add-NoEmptyKey m e keys named = rw named keys

accepted-Acyclic :
    (m : Merges) (es xs ys : List IdentityMerge)
    → Acyclic m
    → NoEmptyKey m
    → All HasEnds es
    → accepted_merges m es ≡ xs ++ ys
    → Acyclic (merges_of m xs)
unfolding accepted_merges merges_of
accepted-Acyclic m [] [] ys acyclic keys named h = acyclic
accepted-Acyclic m [] (x ∷ xs) ys acyclic keys named h = absurd (cc)
accepted-Acyclic m (e ∷ es) [] ys acyclic keys named h = acyclic
accepted-Acyclic m (e ∷ es) (x ∷ xs) ys acyclic keys named h = elim (Bool-cases (is_cyclic m e)) [
  | inl t ↦ accepted-Acyclic m es (x ∷ xs) ys acyclic keys named.1 (rw t at h)
  | inr f ↦
      let kept : e ∷ accepted_merges (add_merge e m) es ≡ x ∷ (xs ++ ys) = rw f at h in
      let same : e ≡ x = cc in
      rw (← same) (
        accepted-Acyclic (add_merge e m) es xs ys
          (add-Acyclic e m acyclic (apart_if_accepted m e acyclic keys named.0.0 f))
          (add-NoEmptyKey m e keys named.0.0) named.1 (cc))
]

empty-Acyclic : Acyclic []
unfolding Acyclic merged_into
empty-Acyclic a c next rest = absurd (cc)

empty-NoEmptyKey : NoEmptyKey []
unfolding NoEmptyKey merged_into
empty-NoEmptyKey = refl

-- Whatever events are normalized, and up to whichever of the normalized events the map of merges is
-- built, as for a boundary in their order: no character is merged, over any number of steps, into
-- itself.
pub normalize_merges-Acyclic :
    (values xs ys : List IdentityMerge)
    → normalize_merges values ≡ xs ++ ys
    → Acyclic (merges_of [] xs)
unfolding normalize_merges
normalize_merges-Acyclic values xs ys h =
    accepted-Acyclic [] (sort_stable merge_less (candidates_of [] values)) xs ys empty-Acyclic
      empty-NoEmptyKey
      (All-sort_stable merge_less HasEnds (candidates_of [] values) (candidates-HasEnds [] values))
      h
