-- ===== src/Scenarios/Identities.antt =====
-- Merges and new ids of characters.
use narou_viewer.Characters.Allocator.{
  Allocator, GeneratedCharacter, assign, ordinal_of, stable_character_id,
}
use narou_viewer.Characters.Assigned.{DistinctIds, IsTrimmed, Pairwise, assign-DistinctIds}
use narou_viewer.Characters.Chains.{Acyclic, NoEmptyKey, Star}
use narou_viewer.Characters.Episodes.{compare_episode_index}
use narou_viewer.Characters.Identity.{
  IdentityMerge, contains_id, is_cyclic, merged_into, merges_of, normalize_merges, resolve_target,
}
use narou_viewer.Characters.Merged.{is_cyclic-iff_Star, normalize_merges-Acyclic}
use narou_viewer.Characters.Ordinals.{distinct_below, reach}
use narou_viewer.Characters.Resolved.{Root, resolve_target-Root}
use narou_viewer.Prelude.{
  All, List, String, [], any, false, if◌then◌else◌, length, none, pos, refl, some, sort_stable,
  str_eq, text_lt, trim_space, true, ◌++◌, ◌↔◌, ◌∷◌, ◌≡◌,
}
use narou_viewer.Taskstate.Request.{decimal, digit, itoa}

abbrev merge_event : String → String → String → IdentityMerge
merge_event a b at = record {
  source_character_id = a;
  target_character_id = b;
  effective_episode_index = at;
}

-- The second event would close a cycle.
abbrev merge_events : List IdentityMerge
merge_events = merge_event "a" "b" "1" ∷ merge_event "b" "a" "2" ∷ merge_event " b" "c" "3" ∷ []

abbrev kept_events : List IdentityMerge
kept_events = merge_event "a" "b" "1" ∷ merge_event "b" "c" "3" ∷ []

normalized : normalize_merges merge_events ≡ kept_events ++ []
unfolding normalize_merges trim_space str_eq any compare_episode_index text_lt sort_stable
    contains_id merged_into is_cyclic
normalized = refl

normalize_merges-Acyclic_example : Acyclic (merges_of [] kept_events)
normalize_merges-Acyclic_example = normalize_merges-Acyclic merge_events kept_events [] normalized

first_merge : merged_into (merges_of [] kept_events) "a" ≡ some "b"
unfolding merged_into merges_of str_eq
first_merge = refl

resolve_target-Root_example :
    Root (merges_of [] kept_events) "b" (resolve_target (merges_of [] kept_events) "a")
resolve_target-Root_example =
    resolve_target-Root merge_events kept_events [] "a" "b" normalized first_merge

resolves_to_c : resolve_target (merges_of [] kept_events) "a" ≡ "c"
unfolding resolve_target merged_into merges_of str_eq contains_id any
resolves_to_c = refl

one_merge-Acyclic : Acyclic (merges_of [] (merge_event "a" "b" "1" ∷ []))
one_merge-Acyclic =
    normalize_merges-Acyclic merge_events (merge_event "a" "b" "1" ∷ [])
      (merge_event "b" "c" "3" ∷ []) normalized

one_merge-NoEmptyKey : NoEmptyKey (merges_of [] (merge_event "a" "b" "1" ∷ []))
unfolding NoEmptyKey merged_into merges_of str_eq
one_merge-NoEmptyKey = refl

b_named : str_eq "b" "" ≡ false
unfolding str_eq
b_named = refl

is_cyclic-iff_Star_example :
    (is_cyclic (merges_of [] (merge_event "a" "b" "1" ∷ [])) (merge_event "b" "a" "2") ≡ true)
    ↔ Star (merges_of [] (merge_event "a" "b" "1" ∷ [])) "b" "a"
is_cyclic-iff_Star_example =
    is_cyclic-iff_Star (merges_of [] (merge_event "a" "b" "1" ∷ [])) (merge_event "b" "a" "2")
      one_merge-Acyclic one_merge-NoEmptyKey b_named

-- The SHA-1 of the texts that ordinals of a novel give, and nothing for other texts.
abbrev sha1_table : List (String × String)
sha1_table =
    ("n1:stable:0", "ff0d06fb4b1ab6ecc240bfefc38a82b4767c8d7c")
    ∷ ("n1:stable:1", "745ab3907a5f71ec48933ee05c54ff9ea53fbc49")
    ∷ ("n1:stable:2", "149e84fe72453c2750afff75ab4a91561e308f7d")
    ∷ ("n1:stable:3", "5b85265afa2116ba98b23c1f25c4114af6d656f8")
    ∷ ("n1:stable:4", "f3ee8175b40ecede70cd3f3a809723f056eb13f7")
    ∷ ("n1:stable:5", "cd610504fe99d52d8f54dd12d43dba8b83e730b1")
    ∷ ("n1:stable:6", "7422a142612956cfc7bda58885daeec392810f84")
    ∷ ("n1:stable:7", "4400170e582cadc29d9794e72a116795a1f51194")
    ∷ ("n1:stable:8", "a3270bea6838774fe3f73b2b400d673452720dbc")
    ∷ ("n1:stable:9", "da882f89fc3ce9056af0ecaa5d0b89bbcbaf77be")
    ∷ []

find_digest : List (String × String) → String → String
find_digest [] text = ""
find_digest ((k, d) ∷ rest) text = if str_eq k text then d else find_digest rest text

abbrev sha1_of : String → String
sha1_of text = find_digest sha1_table text

abbrev named_character : String → String → GeneratedCharacter
named_character id name = record {
  character_id = id;
  canonical_name = name;
  canonical_episode_index = "1";
  name_history = [];
  full_name = none;
  full_name_episode_index = "";
  full_name_history = [];
  gender = none;
  gender_episode_index = "";
  gender_history = [];
  first_appearance_episode_index = "1";
  aliases = [];
  appearance_history = [];
  personality_history = [];
  summary_history = [];
  appearance = none;
  personality = none;
  summary = none;
}

-- Two characters with one id, and one without.
abbrev three_characters : List GeneratedCharacter
three_characters = named_character "c1" "A" ∷ named_character "c1" "B" ∷ named_character "" "C" ∷ []

abbrev fresh_allocator : Allocator
fresh_allocator = record {
  next_ordinal = pos 1;
  used_ids = "x" ∷ [];
  issued_ids = [];
  retired_ids = [];
}

three-IsTrimmed : All IsTrimmed three_characters
unfolding trim_space
three-IsTrimmed = (refl, (refl, (refl, tt)))

three-distinct :
    distinct_below (stable_character_id sha1_of "n1") (
      reach
        (ordinal_of fresh_allocator.next_ordinal)
        (length fresh_allocator.used_ids)
        (length three_characters))
    ≡ true
unfolding distinct_below stable_character_id reach find_digest str_eq itoa decimal digit
three-distinct = refl

assign-DistinctIds_example :
    (out : List GeneratedCharacter) × (a' : Allocator) × (assign
        (stable_character_id sha1_of "n1")
        three_characters
        fresh_allocator
      ≡ some (out, a'))
    × DistinctIds out
    × Pairwise [] fresh_allocator.used_ids three_characters out
assign-DistinctIds_example =
    assign-DistinctIds sha1_of "n1" three_characters fresh_allocator three-distinct three-IsTrimmed
