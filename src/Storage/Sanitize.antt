-- ===== src/Storage/Sanitize.antt =====
-- storage/pathutil/sanitize.go. A text is valid UTF-8 and stands as its sequence of runes.
use Prim.Native.Char.{Char, code}
use narou_viewer.Prelude.{
  Bool, String, false, if◌then◌else◌, leb, str_eq, suc, text_length, trim_space, zero, ℕ, ◌&&◌,
  ◌==◌, ◌||◌,
}

-- The characters that the replacer makes an underscore.
unfoldable pub is_separator : Char → Bool
is_separator c =
    code c == b'/'
    || code c == b'\\'
    || code c == b':'
    || code c == b'*'
    || code c == b'?'
    || code c == 34
    || code c == b'<'
    || code c == b'>'
    || code c == b'|'

-- The characters that the replacer makes a space.
unfoldable pub is_break : Char → Bool
is_break c = code c == b'\n' || code c == b'\r' || code c == b'\t'

unfoldable pub replaced : Char → Char
unfolding is_separator is_break
replaced c = if is_separator c then "_" else if is_break c then " " else c

-- replacer.Replace.
unfoldable pub replace_all : String → String
unfolding replaced
replace_all String.[] = String.[]
replace_all (String.◌∷◌ c s) = String.◌∷◌ (replaced c) (replace_all s)

-- The cutset of strings.Trim.
unfoldable pub is_cut : Char → Bool
is_cut c = code c == b' ' || code c == b'.'

unfoldable pub cut_left : String → String
unfolding is_cut
cut_left String.[] = String.[]
cut_left (String.◌∷◌ c s) = if is_cut c then cut_left s else String.◌∷◌ c s

unfoldable pub cons_cut : Char → String → String
unfolding is_cut
cons_cut c String.[] = if is_cut c then String.[] else String.◌∷◌ c String.[]
cons_cut c (String.◌∷◌ d s) = String.◌∷◌ c (String.◌∷◌ d s)

unfoldable pub cut_right : String → String
unfolding cons_cut
cut_right String.[] = String.[]
cut_right (String.◌∷◌ c s) = cons_cut c (cut_right s)

abbrev pub is_blank_char : Char → Bool
is_blank_char c = code c == b' '

-- strings.Contains(s, "  "), for a text after a character.
unfoldable pub has_double_after : Char → String → Bool
has_double_after c String.[] = false
has_double_after c (String.◌∷◌ d s) = is_blank_char c && is_blank_char d || has_double_after d s

unfoldable pub has_double : String → Bool
unfolding has_double_after
has_double String.[] = false
has_double (String.◌∷◌ c s) = has_double_after c s

-- strings.ReplaceAll(s, "  ", " "): from left to right, each pair once.
unfoldable pub halve : String → String
halve String.[] = String.[]
halve (String.◌∷◌ c String.[]) = String.◌∷◌ c String.[]
halve (String.◌∷◌ c (String.◌∷◌ d s)) =
    if is_blank_char c && is_blank_char d
    then String.◌∷◌ " " (halve s)
    else String.◌∷◌ c (halve (String.◌∷◌ d s))

-- The loop over ReplaceAll.
unfoldable pub collapse_loop : ℕ → String → String
unfolding has_double halve
collapse_loop zero s = s
collapse_loop (suc fuel) s =
    let rest = collapse_loop fuel (halve s) in if has_double s then rest else s

unfoldable pub collapse_spaces : String → String
unfolding collapse_loop text_length
collapse_spaces s = collapse_loop (text_length s) s

-- WriteRune, on the text that the builder holds.
unfoldable pub write_rune : String → Char → String
write_rune String.[] c = String.◌∷◌ c String.[]
write_rune (String.◌∷◌ d b) c = String.◌∷◌ d (write_rune b c)

-- The loop of TruncateRunes.
unfoldable pub fill : ℕ → String → String → String
unfolding write_rune text_length
fill limit builder String.[] = builder
fill limit builder (String.◌∷◌ c s) =
    let rest = fill limit (write_rune builder c) s in
    if leb limit (text_length builder) then builder else rest

unfoldable pub truncate_runes : String → ℕ → String
unfolding text_length fill trim_space
truncate_runes value limit =
    if leb (text_length value) limit then value else trim_space (fill limit "" value)

unfoldable pub filename : String → String
unfolding replace_all cut_left cut_right collapse_spaces truncate_runes
filename value =
    let sanitized = collapse_spaces (cut_right (cut_left (replace_all value))) in
    if str_eq sanitized "" then "untitled" else truncate_runes sanitized 80

-- strings.ReplaceAll(s, " ", "_").
unfoldable pub underscores : String → String
underscores String.[] = String.[]
underscores (String.◌∷◌ c s) = String.◌∷◌ (if is_blank_char c then "_" else c) (underscores s)

unfoldable pub segment : String → String
unfolding filename underscores
segment value =
    let sanitized = underscores (filename value) in
    if str_eq sanitized "." || str_eq sanitized ".." || str_eq sanitized ""
    then "untitled"
    else sanitized
