-- ===== src/Publications/Isbn.antt =====
-- apps/viewer-api-go/internal/publications/isbn.go. A text here holds ASCII digits where the code
-- reads its bytes, so a byte is a character.
use Prim.Native.Char.{Char, code}
use narou_viewer.Prelude.{
  Bool, String, false, if◌then◌else◌, leb, ltb, not, suc, text_length, trim_space, true, zero, ℕ,
  ◌%◌, ◌&&◌, ◌*◌, ◌+◌, ◌-◌, ◌==◌,
}

unfoldable pub is_digit_char : Char → Bool
is_digit_char c = leb b'0' (code c) && leb (code c) b'9'

-- The runes '0' to '9' of a text.
unfoldable pub digits_of : String → String
digits_of String.[] = String.[]
digits_of (String.◌∷◌ c s) = if is_digit_char c then String.◌∷◌ c (digits_of s) else digits_of s

-- strings.HasPrefix
unfoldable pub has_prefix : String → String → Bool
has_prefix String.[] s = true
has_prefix (String.◌∷◌ c p) String.[] = false
has_prefix (String.◌∷◌ c p) (String.◌∷◌ d s) = code c == code d && has_prefix p s

-- int(isbn[i] - '0'), whose subtraction is of bytes.
abbrev pub digit_value : Char → ℕ
digit_value c = (code c + 208) % 256

-- The weight of the digit at an index: 1 and 3 in turns.
abbrev pub weight : ℕ → ℕ
weight i = if i % 2 == 0 then 1 else 3

-- The sum of the loop over the indices below 12, from an index on.
unfoldable pub weighted_sum : ℕ → String → ℕ
weighted_sum i String.[] = 0
weighted_sum i (String.◌∷◌ c s) =
    let rest = weighted_sum (suc i) s in if ltb i 12 then digit_value c * weight i + rest else 0

-- isbn[i], of an index in range.
unfoldable pub value_at : ℕ → String → ℕ
value_at i String.[] = 0
value_at zero (String.◌∷◌ c s) = digit_value c
value_at (suc i) (String.◌∷◌ c s) = value_at i s

unfoldable pub valid_isbn13_checksum : String → Bool
valid_isbn13_checksum isbn =
    if not (text_length isbn == 13)
    then false
    else (10 - weighted_sum 0 isbn % 10) % 10 == value_at 12 isbn

-- The digits, if they pass the tests.
unfoldable pub accepted_isbn : String → String
accepted_isbn isbn =
    if not (text_length isbn == 13)
    then ""
    else if not (has_prefix "978" isbn) && not (has_prefix "979" isbn)
    then ""
    else if not (valid_isbn13_checksum isbn)
    then ""
    else isbn

-- NormalizeISBN13
unfoldable pub normalize_isbn13 : String → String
unfolding accepted_isbn
normalize_isbn13 value = accepted_isbn (digits_of (trim_space value))
