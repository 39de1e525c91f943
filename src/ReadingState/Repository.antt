-- ===== src/ReadingState/Repository.antt =====
-- readingstate/repository.go. The YAML file holds a document; each operation reads it, normalizes
-- it, and writes a new one as a whole. The map of novels is a list of pairs.
use Prim.Native.Char.{code}
-- A float64: a number n / 2^s, or one that is not finite. Signed zeros are not told apart.
use narou_viewer.Prelude.{
  Bool, List, Option, Result, String, [], err, false, if◌then◌else◌, int_eq, is_some, leb, ltb,
  negsuc, none, not, ok, pos, some, str_eq, suc, trim_space, true, zero, ℕ, ℤ, ◌&&◌, ◌*◌, ◌||◌, ◌∷◌,
}

pub data Ratio : Type 0 where
  finite : ℤ → ℕ → Ratio
  not_a_number positive_infinity negative_infinity : Ratio

abbrev pub two_to : ℕ → ℕ
two_to zero = 1
two_to (suc s) = 2 * two_to s

-- min(1, max(0, value))
unfoldable pub clamp_ratio : Ratio → Ratio
clamp_ratio not_a_number = not_a_number
clamp_ratio positive_infinity = finite (pos 1) 0
clamp_ratio negative_infinity = finite (pos 0) 0
clamp_ratio (finite (negsuc n) s) = finite (pos 0) 0
clamp_ratio (finite (pos n) s) = if ltb (two_to s) n then finite (pos 1) 0 else finite (pos n) s

pub record ScrollState : Type 0 where
  pub kind : String
  pub value : Ratio

-- The struct record.
pub record Entry : Type 0 where
  pub last_read_episode_index : Option String
  pub position : ℤ
  pub scroll : Option ScrollState
  pub updated_at : Option String
  pub state_version : ℤ
  pub updated_by_client_id : Option String
  pub deleted : Bool

abbrev pub Novels : Type 0
Novels = List (String × Entry)

pub record Document : Type 0 where
  pub revision : ℤ
  pub novels : Novels

-- The struct State.
pub record ReadingState : Type 0 where
  pub novel_id : String
  pub last_read_episode_index : Option String
  pub position : ℤ
  pub scroll : Option ScrollState
  pub updated_at : Option String
  pub state_version : ℤ
  pub updated_by_client_id : Option String

pub record PutInput : Type 0 where
  pub novel_id : String
  pub last_read_episode_index : Option String
  pub position : ℤ
  pub scroll : Option ScrollState
  pub expected_state_version : Option ℤ
  pub updated_by_client_id : Option String

abbrev pub zero_entry : Entry
zero_entry = record {
  last_read_episode_index = none;
  position = pos 0;
  scroll = none;
  updated_at = none;
  state_version = pos 0;
  updated_by_client_id = none;
  deleted = false;
}

only_digits : String → Bool
only_digits String.[] = true
only_digits (String.◌∷◌ c s) = leb b'0' (code c) && (leb (code c) b'9' && only_digits s)

unfoldable pub is_episode_index : String → Bool
unfolding only_digits
is_episode_index value = not (str_eq value "") && only_digits value

unfoldable pub normalize_episode_index : Option String → Option String
normalize_episode_index none = none
normalize_episode_index (some i) = if is_episode_index i then some i else none

abbrev pub normalize_position : ℤ → ℤ
normalize_position (pos n) = pos n
normalize_position (negsuc n) = pos 0

unfoldable pub normalize_scroll : Option ScrollState → Option ScrollState
normalize_scroll none = none
normalize_scroll (some s) =
    if str_eq s.kind "ratio"
    then some (record { kind = "ratio"; value = clamp_ratio s.value })
    else none

unfoldable pub normalize_client_id : Option String → Option String
normalize_client_id none = none
normalize_client_id (some c) = if str_eq (trim_space c) "" then none else some (trim_space c)

-- At least one.
abbrev pub at_least_one : ℤ → ℤ
at_least_one (pos zero) = pos 1
at_least_one (pos (suc n)) = pos (suc n)
at_least_one (negsuc n) = pos 1

-- What is left of a deleted entry: its version.
abbrev pub tombstone : ℤ → Entry
tombstone version = record zero_entry { state_version = version; deleted = true }

unfoldable pub normalize_entry : Entry → Entry
normalize_entry e =
    if e.deleted then tombstone (at_least_one (normalize_position e.state_version)) else record {
      last_read_episode_index = normalize_episode_index e.last_read_episode_index;
      position = normalize_position e.position;
      scroll = normalize_scroll e.scroll;
      updated_at = e.updated_at;
      state_version = normalize_position e.state_version;
      updated_by_client_id = normalize_client_id e.updated_by_client_id;
      deleted = false;
    }

abbrev pub is_blank : String → Bool
is_blank s = str_eq (trim_space s) ""

unfoldable pub normalize_novels : Novels → Novels
normalize_novels [] = []
normalize_novels ((id, e) ∷ rest) =
    if is_blank id then normalize_novels rest else (id, normalize_entry e) ∷ normalize_novels rest

-- normalizeDocument, which readDocument calls
unfoldable pub normalize_document : Document → Document
normalize_document raw = record {
  revision = normalize_position raw.revision;
  novels = normalize_novels raw.novels;
}

-- doc.Novels[novelID]
unfoldable pub lookup : String → Novels → Option Entry
lookup id [] = none
lookup id ((k, e) ∷ rest) = if str_eq k id then some e else lookup id rest

unfoldable pub store_entry : String → Entry → Novels → Novels
store_entry id e [] = (id, e) ∷ []
store_entry id e ((k, x) ∷ rest) =
    if str_eq k id then (k, e) ∷ rest else (k, x) ∷ store_entry id e rest

abbrev pub or_zero : Option Entry → Entry
or_zero none = zero_entry
or_zero (some e) = e

unfoldable pub to_state : String → Entry → ReadingState
to_state id e =
    if e.deleted
    then record {
      novel_id = id;
      last_read_episode_index = none;
      position = pos 0;
      scroll = none;
      updated_at = none;
      state_version = e.state_version;
      updated_by_client_id = none;
    }
    else record {
      novel_id = id;
      last_read_episode_index = e.last_read_episode_index;
      position = e.position;
      scroll = e.scroll;
      updated_at = e.updated_at;
      state_version = e.state_version;
      updated_by_client_id = e.updated_by_client_id;
    }

-- The entry of a novel in the document as read.
unfoldable pub current_entry : String → Document → Entry
current_entry id raw = or_zero (lookup id (normalize_document raw).novels)

unfoldable pub state_or_empty : String → Option Entry → ReadingState
state_or_empty id none = to_state id zero_entry
state_or_empty id (some e) = to_state id e

-- Get
unfoldable pub get_state : String → Document → ReadingState
unfolding state_or_empty
get_state id raw = state_or_empty id (lookup id (normalize_document raw).novels)

-- The version that a client expects is not the current one.
abbrev pub is_conflict : Option ℤ → ℤ → Bool
is_conflict none version = false
is_conflict (some expected) version = not (int_eq version expected)

abbrev pub next_version : ℤ → ℤ
next_version (pos n) = pos (suc n)
next_version (negsuc zero) = pos 0
next_version (negsuc (suc n)) = negsuc n

-- The record that Put stores.
unfoldable pub new_entry : PutInput → String → ℤ → Entry
new_entry input now version =
    let index = normalize_episode_index input.last_read_episode_index in
    record {
      last_read_episode_index = index;
      position = if is_some index then normalize_position input.position else pos 0;
      scroll = normalize_scroll input.scroll;
      updated_at = some now;
      state_version = next_version version;
      updated_by_client_id = normalize_client_id input.updated_by_client_id;
      deleted = false;
    }

-- The document with one entry written under the next revision.
unfoldable pub written : String → Entry → Document → Document
written id e raw = record {
  revision = next_version (normalize_document raw).revision;
  novels = store_entry id e (normalize_document raw).novels;
}

-- Put: the new document and the state, or the current state of a version conflict.
unfoldable pub put_state_of :
    PutInput → String → Document → Result ReadingState (Document × ReadingState)
put_state_of input now raw =
    let current = current_entry input.novel_id raw in
    let stored = new_entry input now current.state_version in
    if is_conflict input.expected_state_version current.state_version
    then err (to_state input.novel_id current)
    else ok (written input.novel_id stored raw, to_state input.novel_id stored)

-- Whether an entry holds something that Prune removes.
abbrev pub has_content : Entry → Bool
has_content e =
    if e.deleted
    then false
    else is_some e.last_read_episode_index
      || (not (int_eq e.position (pos 0)) || (is_some e.scroll || is_some e.updated_at))

unfoldable pub prune_found : String → Option Entry → Document → Document × Bool
prune_found id none raw = (written id (tombstone (pos 1)) raw, false)
prune_found id (some e) raw =
    (written id (tombstone (next_version e.state_version)) raw, has_content e)

-- Prune
unfoldable pub prune : String → Document → Document × Bool
unfolding prune_found
prune id raw = prune_found id (lookup id (normalize_document raw).novels) raw

-- IsDeleted
unfoldable pub is_deleted : String → Document → Bool
is_deleted id raw = (current_entry id raw).deleted
