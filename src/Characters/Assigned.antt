-- ===== src/Characters/Assigned.antt =====
-- characters/id_allocator.go, Assign: the ids of the characters that it returns.
use narou_viewer.Characters.Allocator.{
  Allocator, GeneratedCharacter, assign, assign_all, assign_one, enough_rounds, needs_id,
  next_stable, ordinal_of, stable_character_id, use_id,
}
use narou_viewer.Characters.Chains.{contains_id-cons}
use narou_viewer.Characters.Identity.{contains_id}
use narou_viewer.Characters.Ordinals.{distinct_below, first_free-total, reach, reach_ge, reach_mono}
use narou_viewer.Prelude.{
  length, ◌+◌, ◌≤◌, All, All-mono, Bool-cases, List, String, [], any, arith, false, inl, inr, pos,
  refl, some, subst, suc, sym, trim_space, true, ℕ, ◌∙◌, ◌∷◌, ◌≡◌, ◌⊎◌,
}
use narou_viewer.Taskqueue.Queue.{kept}

-- The id of an item has no white space around it.
abbrev pub IsTrimmed : GeneratedCharacter → Type 0
IsTrimmed c = trim_space c.character_id ≡ c.character_id

abbrev pub IdNotIn : List String → GeneratedCharacter → Type 0
IdNotIn ids c = contains_id ids c.character_id ≡ false

-- No two characters have the same id.
unfoldable pub DistinctIds : List GeneratedCharacter → Type 0
DistinctIds [] = Unit
DistinctIds (c ∷ cs) = All (IdNotIn (c.character_id ∷ [])) cs × DistinctIds cs

-- Every id in the first list is in the second.
abbrev pub Within : List String → List String → Type 0
Within seen used = (x : String) → contains_id used x ≡ false → contains_id seen x ≡ false

-- An item keeps its id, unless it has none or a character before it has the same one; then it gets
-- an id that was not used. All else is kept.
abbrev pub KeptOrNew : List String → List String → GeneratedCharacter → GeneratedCharacter → Type 0
KeptOrNew seen used c c' =
    ((needs_id seen c ≡ false) × (c' ≡ c))
    ⊎ ((needs_id seen c ≡ true)
        × (contains_id used c'.character_id ≡ false)
        × (c' ≡ record c { character_id = c'.character_id }))

-- The items that are returned, each against the one it stands for.
unfoldable pub Pairwise :
    List String → List String → List GeneratedCharacter → List GeneratedCharacter → Type 0
Pairwise seen used [] [] = Unit
Pairwise seen used [] (c' ∷ cs') = ⊥
Pairwise seen used (c ∷ cs) [] = ⊥
Pairwise seen used (c ∷ cs) (c' ∷ cs') =
    KeptOrNew seen used c c' × Pairwise (c'.character_id ∷ seen) (c'.character_id ∷ used) cs cs'

module _ (stable_id : ℕ → String) (bound : ℕ)
    (distinct : distinct_below stable_id bound ≡ true) where
  next_stable-total :
      (a : Allocator)
      → ordinal_of a.next_ordinal + suc (length a.used_ids) ≤ bound
      → (id : String) × (a' : Allocator) × (next_stable stable_id a ≡ some (id, a'))
        × (contains_id a.used_ids id ≡ false)
        × (a'.used_ids ≡ a.used_ids)
        × (ordinal_of a'.next_ordinal ≤ ordinal_of a.next_ordinal + suc (length a.used_ids))
  unfolding next_stable
  next_stable-total a enough =
      let (k, found, free, le, lt) =
        first_free-total stable_id bound distinct (enough_rounds a.used_ids) a.used_ids
          (ordinal_of a.next_ordinal) (omega arith) enough in
      (
        stable_id k,
        record a { next_ordinal = pos (suc k) },
        rw found refl,
        free,
        refl,
        omega (arith, lt),
      )

  assign_one-total :
      (seen : List String) (c : GeneratedCharacter) (a : Allocator)
      → Within seen a.used_ids
      → IsTrimmed c
      → ordinal_of a.next_ordinal + suc (length a.used_ids) ≤ bound
      → (c' : GeneratedCharacter) × (a' : Allocator) × (assign_one stable_id seen c a
          ≡ some (c', a'))
        × KeptOrNew seen a.used_ids c c'
        × (contains_id seen c'.character_id ≡ false)
        × (a'.used_ids ≡ a.used_ids)
        × (ordinal_of a'.next_ordinal ≤ ordinal_of a.next_ordinal + suc (length a.used_ids))
  unfolding assign_one
  assign_one-total seen c a within trimmed enough = elim (Bool-cases (needs_id seen c)) [
    | inl t ↦
        let (id, a', found, free, same_used, next) = next_stable-total a enough in
        (
          record c { character_id = id },
          record a' { issued_ids = id ∷ a'.issued_ids },
          rw (t, found) refl,
          inr (t, free, refl),
          within id free,
          same_used,
          next,
        )
    | inr f ↦ (
      c,
      a,
      rw f refl,
      inl (f, refl),
      subst (λ (x : String). contains_id seen x ≡ false) trimmed (ground arith),
      refl,
      omega arith,
    )
  ]

  -- The ordinals that are left are enough for the items that are left.
  abbrev Enough : List GeneratedCharacter → Allocator → Type 0
  Enough cs a = reach (ordinal_of a.next_ordinal) (length a.used_ids) (length cs) ≤ bound

  Enough-one :
      (c : GeneratedCharacter) (cs : List GeneratedCharacter) (a : Allocator)
      → Enough (c ∷ cs) a
      → ordinal_of a.next_ordinal + suc (length a.used_ids) ≤ bound
  unfolding reach
  Enough-one c cs a enough = omega (
    arith,
    enough,
    reach_ge (ordinal_of a.next_ordinal + suc (length a.used_ids)) (suc (length a.used_ids))
        (length cs),
  )

  Enough-next :
      (c : GeneratedCharacter) (cs : List GeneratedCharacter) (id : String) (a a' : Allocator)
      → Enough (c ∷ cs) a
      → a'.used_ids ≡ a.used_ids
      → ordinal_of a'.next_ordinal ≤ ordinal_of a.next_ordinal + suc (length a.used_ids)
      → Enough cs (use_id id a')
  unfolding reach
  Enough-next c cs id a a' enough same_used next = rw same_used (
      omega (
        arith,
        enough,
        reach_mono (ordinal_of a'.next_ordinal)
            (ordinal_of a.next_ordinal + suc (length a.used_ids)) (suc (length a.used_ids))
            (length cs) next,
      ))

  assign_all-total :
      (seen : List String) (cs : List GeneratedCharacter) (a : Allocator)
      → Within seen a.used_ids
      → All IsTrimmed cs
      → Enough cs a
      → (out : List GeneratedCharacter) × (a' : Allocator) × (assign_all stable_id seen cs a
          ≡ some (out, a'))
        × Pairwise seen a.used_ids cs out
        × All (IdNotIn seen) out
        × DistinctIds out
  unfolding assign_all DistinctIds Pairwise
  assign_all-total seen [] a within trimmed enough = ([], a, refl, tt, tt, tt)
  assign_all-total seen (c ∷ cs) a within trimmed enough =
      let (c', a', one, kept, fresh, same_used, next) =
        assign_one-total seen c a within trimmed.0 (Enough-one c cs a enough) in
      let id = c'.character_id in
      let (out, a'', rest, pairs, apart, distinct_out) =
        assign_all-total (id ∷ seen) cs (use_id id a')
          (λ x h. grown x id a'.used_ids (subst (Within seen) (sym same_used) within) h) trimmed.1
          (Enough-next c cs id a a' enough same_used next) in
      (
        c' ∷ out,
        a'',
        rw (one, rest) refl,
        (kept, subst (λ u. Pairwise (id ∷ seen) (id ∷ u) cs out) same_used pairs),
        (fresh, All-mono _ (IdNotIn seen) (λ x h. older x.character_id id h) out apart),
        (
          All-mono _ (IdNotIn (id ∷ [])) (λ x h. newest x.character_id id h) out apart,
          distinct_out,
        ),
      )
    where
      grown :
          (x id : String) (used : List String)
          → Within seen used
          → contains_id (id ∷ used) x ≡ false
          → contains_id (id ∷ seen) x ≡ false
      grown x id used h k =
          let both = contains_id-cons id x used in
          let w = h x (ground arith) in contains_id-cons id x seen ∙ ground arith

      older : (x id : String) → contains_id (id ∷ seen) x ≡ false → contains_id seen x ≡ false
      older x id h = let both = contains_id-cons id x seen in ground arith

      newest : (x id : String) → contains_id (id ∷ seen) x ≡ false → contains_id (id ∷ []) x ≡ false
      newest x id h =
          let both = contains_id-cons id x seen in
          contains_id-cons id x [] ∙ (unfold contains_id any in ground arith)

-- Assign ends, and gives every character an id of its own: no two of them are the same. A character
-- keeps its id unless it has none or one before it has the same; otherwise it gets an id that neither
-- the allocator nor a character before it has used, and nothing else of it changes. The given ids are
-- trimmed, and the twelve digits of the digests of the novel's ordinals differ from each other up to
-- the ordinal that so many draws can reach.
pub assign-DistinctIds :
    (sha1_hex : String → String) (novel : String) (incoming : List GeneratedCharacter)
    (a : Allocator)
    → distinct_below
        (stable_character_id sha1_hex novel)
        (reach (ordinal_of a.next_ordinal) (length a.used_ids) (length incoming))
      ≡ true
    → All IsTrimmed incoming
    → (out : List GeneratedCharacter) × (a' : Allocator) × (assign
          (stable_character_id sha1_hex novel)
          incoming
          a
        ≡ some (out, a'))
      × DistinctIds out
      × Pairwise [] a.used_ids incoming out
unfolding assign
assign-DistinctIds sha1_hex novel incoming a distinct trimmed =
    let (out, a', found, pairs, apart, distinct_out) =
      assign_all-total (stable_character_id sha1_hex novel)
        (reach (ordinal_of a.next_ordinal) (length a.used_ids) (length incoming)) distinct []
        incoming a (λ x h. unfold contains_id any in refl) trimmed (omega arith) in
    (out, a', found, distinct_out, pairs)
