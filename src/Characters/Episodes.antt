-- ===== src/Characters/Episodes.antt =====
-- characters/episode_order.go: the order of episodes.
use Prim.Native.Char.{code}
use narou_viewer.Prelude.{
  Bool, Option, String, false, if◌then◌else◌, int_eq, int_le, leb, negsuc, none, pos, some, str_eq,
  suc, text_lt, true, zero, ℕ, ℤ, ◌&&◌, ◌*◌, ◌+◌, ◌-◌, ◌==◌,
}

-- The value of decimal digits after those that are read, as strconv.ParseInt reads them.
unfoldable pub digits_value : ℕ → String → Option ℕ
digits_value n String.[] = some n
digits_value n (String.◌∷◌ c s) =
    let rest = digits_value (n * 10 + (code c - b'0')) s in
    if leb b'0' (code c) && leb (code c) b'9' then rest else none

abbrev pub some_digits : String → Option ℕ
some_digits s = if str_eq s "" then none else digits_value 0 s

-- 2^63.
abbrev pub int64_limit : ℕ
int64_limit = 9223372036854775808

abbrev pub within_limit : ℕ → Option ℕ → Option ℕ
within_limit limit none = none
within_limit limit (some n) = if leb n limit then some n else none

abbrev pub positive_of : Option ℕ → Option ℤ
positive_of none = none
positive_of (some n) = some (pos n)

abbrev pub negative_of : Option ℕ → Option ℤ
negative_of none = none
negative_of (some zero) = some (pos 0)
negative_of (some (suc n)) = some (negsuc n)

-- strconv.ParseInt(s, 10, 64), without the kind of its error.
unfoldable pub parse_int : String → Option ℤ
unfolding digits_value
parse_int String.[] = none
parse_int (String.◌∷◌ c s) =
    if code c == b'-'
    then negative_of (within_limit int64_limit (some_digits s))
    else if code c == b'+'
    then positive_of (within_limit (int64_limit - 1) (some_digits s))
    else positive_of (within_limit (int64_limit - 1) (some_digits (String.◌∷◌ c s)))

-- A comparison: -1, 0 or 1 in the source.
pub data Order : Type 0 where
  before same after : Order

abbrev pub compare_int : ℤ → ℤ → Order
compare_int a b = if int_eq a b then same else if int_le a b then before else after

abbrev pub compare_text : String → String → Order
compare_text s t = if text_lt s t then before else if text_lt t s then after else same

abbrev pub compare_parsed : Option ℤ → Option ℤ → String → String → Order
compare_parsed (some a) (some b) left right = compare_int a b
compare_parsed (some a) none left right = compare_text left right
compare_parsed none b left right = compare_text left right

-- compareEpisodeIndex
unfoldable pub compare_episode_index : String → String → Order
unfolding parse_int
compare_episode_index left right = compare_parsed (parse_int left) (parse_int right) left right

abbrev pub comes_before : Order → Bool
comes_before before = true
comes_before same = false
comes_before after = false

abbrev pub comes_after : Order → Bool
comes_after before = false
comes_after same = false
comes_after after = true
