-- ===== src/Characters/Allocator.antt =====
-- characters/id_allocator.go and domain.go: stable ids for generated characters. A map to booleans
-- stands as the list of its keys.
use mathlib.Core.Option
use Prim.Native.String.{◌++◌}
use narou_viewer.Characters.Identity.{contains_id}
use narou_viewer.Prelude.{
  Bool, List, Option, String, [], if◌then◌else◌, int_le, length, negsuc, none, pos, some, str_eq,
  suc, trim_space, zero, ℕ, ℤ, ◌||◌, ◌∷◌,
}
use narou_viewer.Taskstate.Request.{itoa}

pub record GeneratedTextVersion : Type 0 where
  pub text : String
  pub episode_index : String

pub record GeneratedHistoryVersion : Type 0 where
  pub episode_index : String
  pub text : String

pub record GeneratedCharacter : Type 0 where
  pub character_id : String
  pub canonical_name : String
  pub canonical_episode_index : String
  pub name_history : List GeneratedTextVersion
  pub full_name : Option String
  pub full_name_episode_index : String
  pub full_name_history : List GeneratedTextVersion
  pub gender : Option String
  pub gender_episode_index : String
  pub gender_history : List GeneratedTextVersion
  pub first_appearance_episode_index : String
  pub aliases : List GeneratedTextVersion
  pub appearance_history : List GeneratedHistoryVersion
  pub personality_history : List GeneratedHistoryVersion
  pub summary_history : List GeneratedHistoryVersion
  pub appearance : Option String
  pub personality : Option String
  pub summary : Option String

-- The struct GeneratedRetiredCharacterID.
pub record RetiredCharacter : Type 0 where
  pub character_id : String
  pub merged_into_id : String

-- The struct GeneratedCharacterIDAllocator; the newest entry of a retired id stands first.
pub record Allocator : Type 0 where
  pub next_ordinal : ℤ
  pub used_ids : List String
  pub issued_ids : List String
  pub retired_ids : List (String × String)

-- `if current <= 0 { current = 1 }`.
abbrev pub ordinal_of : ℤ → ℕ
ordinal_of (pos zero) = 1
ordinal_of (pos (suc n)) = suc n
ordinal_of (negsuc n) = 1

-- An id that is trimmed, unless it is empty.
abbrev pub add_trimmed : String → List String → List String
add_trimmed id ids = if str_eq (trim_space id) "" then ids else trim_space id ∷ ids

-- generatedCharacterIDSet
unfoldable pub generated_character_id_set : List GeneratedCharacter → List String
generated_character_id_set [] = []
generated_character_id_set (c ∷ cs) = add_trimmed c.character_id (generated_character_id_set cs)

abbrev pub enough_rounds : List String → ℕ
enough_rounds used = suc (length used)

-- Whether Assign draws an id for an item.
abbrev pub needs_id : List String → GeneratedCharacter → Bool
needs_id seen c =
    str_eq (trim_space c.character_id) "" || contains_id seen (trim_space c.character_id)

abbrev pub use_id : String → Allocator → Allocator
use_id id a = record a { used_ids = id ∷ a.used_ids }

-- The item as it is kept, with an id of its own.
abbrev pub drawn :
    GeneratedCharacter → Option (String × Allocator) → Option (GeneratedCharacter × Allocator)
drawn c none = none
drawn c (some (id, a)) =
    some (record c { character_id = id }, record a { issued_ids = id ∷ a.issued_ids })

abbrev pub cons_result :
    GeneratedCharacter
    → Option (List GeneratedCharacter × Allocator)
    → Option (List GeneratedCharacter × Allocator)
cons_result c none = none
cons_result c (some (cs, a)) = some (c ∷ cs, a)

abbrev pub then_rest :
    Option (GeneratedCharacter × Allocator)
    → (GeneratedCharacter → Allocator → Option (List GeneratedCharacter × Allocator))
    → Option (List GeneratedCharacter × Allocator)
then_rest none next = none
then_rest (some (c, a)) next = cons_result c (next c a)

-- Retire
unfoldable pub retire : RetiredCharacter → Allocator → Allocator
retire r a =
    let id = trim_space r.character_id in
    if str_eq id "" then a else record a {
      used_ids = id ∷ a.used_ids;
      retired_ids = (id, trim_space r.merged_into_id) ∷ a.retired_ids;
    }

unfoldable pub issue_ids : List String → Allocator → Allocator
issue_ids [] a = a
issue_ids (id ∷ ids) a =
    issue_ids ids
      (record a { used_ids = add_trimmed id a.used_ids; issued_ids = add_trimmed id a.issued_ids })

unfoldable pub retire_all : List RetiredCharacter → Allocator → Allocator
unfolding retire
retire_all [] a = a
retire_all (r ∷ rs) a = retire_all rs (retire r a)

unfoldable pub take_chars : ℕ → String → String
take_chars zero s = String.[]
take_chars (suc n) String.[] = String.[]
take_chars (suc n) (String.◌∷◌ c s) = String.◌∷◌ c (take_chars n s)

-- stableCharacterIDForOrdinal: twelve digits of the hexadecimal SHA-1 of a text, which is a parameter.
unfoldable pub stable_character_id : (String → String) → String → ℕ → String
unfolding take_chars
stable_character_id sha1_hex novel ordinal =
    "char_" ++ take_chars 12 (sha1_hex (novel ++ ":stable:" ++ itoa (pos ordinal)))

-- The allocator draws from the stable ids of its novel.
module _ (stable_id : ℕ → String) where
  -- The first ordinal from one on whose id is not used, in a number of rounds.
  unfoldable pub first_free : ℕ → List String → ℕ → Option ℕ
  first_free zero used n = none
  first_free (suc rounds) used n =
      let rest = first_free rounds used (suc n) in
      if contains_id used (stable_id n) then rest else some n

  abbrev pub free_from : List String → ℤ → Option ℕ
  free_from used ordinal = first_free (enough_rounds used) used (ordinal_of ordinal)

  -- advanceNextStableCharacterOrdinal
  unfoldable pub advance : Allocator → Option Allocator
  unfolding first_free
  advance a =
      Option.map (λ k. record a { next_ordinal = pos k }) (free_from a.used_ids a.next_ordinal)

  -- nextStableCharacterID: the id, and the ordinal after its own.
  unfoldable pub next_stable : Allocator → Option (String × Allocator)
  unfolding first_free
  next_stable a =
      Option.map (λ k. (stable_id k, record a { next_ordinal = pos (suc k) }))
        (free_from a.used_ids a.next_ordinal)

  -- NewGeneratedCharacterIDAllocator
  unfoldable pub new_allocator : List GeneratedCharacter → Option Allocator
  unfolding generated_character_id_set advance
  new_allocator existing = advance (record {
    next_ordinal = pos 1;
    used_ids = generated_character_id_set existing;
    issued_ids = [];
    retired_ids = [];
  })

  unfoldable pub assign_one :
      List String → GeneratedCharacter → Allocator → Option (GeneratedCharacter × Allocator)
  unfolding next_stable
  assign_one seen c a = if needs_id seen c then drawn c (next_stable a) else some (c, a)

  -- The loop of Assign, after the items whose ids are `seen`.
  unfoldable pub assign_all :
      List String
      → List GeneratedCharacter
      → Allocator
      → Option (List GeneratedCharacter × Allocator)
  unfolding assign_one
  assign_all seen [] a = some ([], a)
  assign_all seen (c ∷ cs) a =
      then_rest (assign_one seen c a)
        λ c' a'. assign_all (c'.character_id ∷ seen) cs (use_id c'.character_id a')

  -- Assign
  unfoldable pub assign :
      List GeneratedCharacter → Allocator → Option (List GeneratedCharacter × Allocator)
  unfolding assign_all
  assign incoming a = assign_all [] incoming a

  -- ApplyState
  unfoldable pub apply_state :
      ℤ → List String → List RetiredCharacter → Allocator → Option Allocator
  unfolding issue_ids retire_all advance
  apply_state ordinal issued retired a =
      let b = retire_all retired (issue_ids issued a) in
      advance (record b {
        next_ordinal = if int_le ordinal b.next_ordinal then b.next_ordinal else ordinal;
      })
