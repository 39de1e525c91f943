-- ===== src/Characters/Identity.antt =====
-- characters/event_store.go: which characters were merged into which.
use narou_viewer.Characters.Episodes.{Order, after, before, compare_episode_index, same}
use narou_viewer.Prelude.{
  Bool, List, Option, String, [], any, false, if◌then◌else◌, length, none, not, some, sort_stable,
  str_eq, suc, text_lt, trim_space, true, zero, ℕ, ◌&&◌, ◌||◌, ◌∷◌,
}

-- The struct GeneratedIdentityMergeEvent.
pub record IdentityMerge : Type 0 where
  pub source_character_id : String
  pub target_character_id : String
  pub effective_episode_index : String

abbrev pub trimmed_merge : IdentityMerge → IdentityMerge
trimmed_merge e = record {
  source_character_id = trim_space e.source_character_id;
  target_character_id = trim_space e.target_character_id;
  effective_episode_index = trim_space e.effective_episode_index;
}

abbrev pub is_incomplete : IdentityMerge → Bool
is_incomplete e =
    str_eq e.source_character_id ""
    || (str_eq e.target_character_id ""
        || (str_eq e.source_character_id e.target_character_id
            || str_eq e.effective_episode_index ""))

-- The two events have the same key.
abbrev pub same_merge : IdentityMerge → IdentityMerge → Bool
same_merge a b =
    str_eq a.effective_episode_index b.effective_episode_index
    && (str_eq a.source_character_id b.source_character_id
        && str_eq a.target_character_id b.target_character_id)

-- The first loop: the complete events, each once, after those that were seen.
unfoldable pub candidates_of : List IdentityMerge → List IdentityMerge → List IdentityMerge
candidates_of seen [] = []
candidates_of seen (e ∷ es) =
    let t = trimmed_merge e in
    let skip = is_incomplete t || any (same_merge t) seen in
    let rest = candidates_of (if skip then seen else t ∷ seen) es in if skip then rest else t ∷ rest

abbrev pub merge_less_ids : IdentityMerge → IdentityMerge → Bool
merge_less_ids a b =
    if not (str_eq a.source_character_id b.source_character_id)
    then text_lt a.source_character_id b.source_character_id
    else text_lt a.target_character_id b.target_character_id

abbrev pub merge_less_by : Order → IdentityMerge → IdentityMerge → Bool
merge_less_by before a b = true
merge_less_by after a b = false
merge_less_by same a b = merge_less_ids a b

abbrev pub merge_less : IdentityMerge → IdentityMerge → Bool
merge_less a b =
    merge_less_by (compare_episode_index a.effective_episode_index b.effective_episode_index) a b

-- The map from ids to the ids they are merged into; the last entry of a key stands first.
abbrev pub Merges : Type 0
Merges = List (String × String)

unfoldable pub merged_into : Merges → String → Option String
merged_into [] id = none
merged_into ((k, t) ∷ m) id = if str_eq k id then some t else merged_into m id

-- A lookup in the source's map, "" for a missing key.
abbrev pub or_empty : Option String → String
or_empty none = ""
or_empty (some t) = t

unfoldable pub contains_id : List String → String → Bool
contains_id ids id = any (λ x. str_eq x id) ids

-- The inner loop: whether the chain of a target comes back to an id that was seen. Without fuel it
-- says so, which does not happen with the fuel that is given.
unfoldable pub comes_back : ℕ → Merges → List String → String → Bool
unfolding contains_id
comes_back zero m seen target = true
comes_back (suc fuel) m seen target =
    let rest = comes_back fuel m (target ∷ seen) (or_empty (merged_into m target)) in
    if str_eq target "" then false else if contains_id seen target then true else rest

abbrev pub enough_for : Merges → ℕ
enough_for m = suc (suc (length m))

unfoldable pub is_cyclic : Merges → IdentityMerge → Bool
unfolding comes_back
is_cyclic m e = comes_back (enough_for m) m (e.source_character_id ∷ []) e.target_character_id

abbrev pub add_merge : IdentityMerge → Merges → Merges
add_merge e m = (e.source_character_id, e.target_character_id) ∷ m

-- The second loop: the events that close no cycle.
unfoldable pub accepted_merges : Merges → List IdentityMerge → List IdentityMerge
unfolding is_cyclic
accepted_merges m [] = []
accepted_merges m (e ∷ es) =
    let cyclic = is_cyclic m e in
    let rest = accepted_merges (if cyclic then m else add_merge e m) es in
    if cyclic then rest else e ∷ rest

-- NormalizeGeneratedIdentityMergeEvents
unfoldable pub normalize_merges : List IdentityMerge → List IdentityMerge
unfolding candidates_of accepted_merges
normalize_merges values = accepted_merges [] (sort_stable merge_less (candidates_of [] values))

-- The map that mergeIdentityCharacterEventRecordsAtBoundary builds from events in their order.
unfoldable pub merges_of : Merges → List IdentityMerge → Merges
merges_of m [] = m
merges_of m (e ∷ es) = merges_of (add_merge e m) es

-- The loop of resolveTarget, on ids that are trimmed.
unfoldable pub resolve_from : ℕ → Merges → List String → String → String
unfolding contains_id
resolve_from zero m seen target = target
resolve_from (suc fuel) m seen target =
    let next = or_empty (merged_into m target) in
    let rest = resolve_from fuel m (target ∷ seen) next in
    if str_eq target "" || contains_id seen target
    then target
    else if str_eq next ""
    then target
    else rest

unfoldable pub resolve_target : Merges → String → String
unfolding resolve_from
resolve_target m source = resolve_from (enough_for m) m [] (or_empty (merged_into m source))
