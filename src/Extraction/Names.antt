-- ===== src/Extraction/Names.antt =====
-- extraction/job_store.go: which texts may name a job, its novel and its last episode.
use Prim.Native.Char.{Char, code}
use narou_viewer.Prelude.{
  Bool, List, Option, String, [], false, if◌then◌else◌, leb, none, not, some, str_eq, trim_space,
  true, ℕ, ◌&&◌, ◌+◌, ◌==◌, ◌||◌, ◌∷◌,
}

unfoldable pub every_char : (Char → Bool) → String → Bool
every_char p String.[] = true
every_char p (String.◌∷◌ c s) = p c && every_char p s

abbrev pub is_char : ℕ → Char → Bool
is_char n c = code c == n

abbrev pub is_decimal : Char → Bool
is_decimal c = leb b'0' (code c) && leb (code c) b'9'

abbrev pub is_file_name_char : Char → Bool
is_file_name_char c =
    leb b'A' (code c) && leb (code c) b'Z'
    || (leb b'a' (code c) && leb (code c) b'z'
        || (is_decimal c || (is_char b'-' c || is_char b'_' c)))

-- isRawJobFileNameSafe
unfoldable pub is_raw_job_file_name_safe : String → Bool
unfolding every_char
is_raw_job_file_name_safe value = every_char is_file_name_char value && not (str_eq value "")

-- A rune of strings.ToLower, on the names that isRawJobFileNameSafe lets pass, which are ASCII.
abbrev pub lower_code : ℕ → ℕ
lower_code c = if leb b'A' c && leb c b'Z' then c + 32 else c

-- Whether the text in lower case starts with a prefix of three letters.
unfoldable pub codes_lower : String → List ℕ
codes_lower String.[] = []
codes_lower (String.◌∷◌ c s) = lower_code (code c) ∷ codes_lower s

abbrev pub is_word : ℕ → ℕ → ℕ → ℕ → ℕ → ℕ → Bool
is_word a b c x y z = x == a && (y == b && z == c)

unfoldable pub is_reserved_codes : List ℕ → Bool
is_reserved_codes (x ∷ y ∷ z ∷ []) =
    is_word b'c' b'o' b'n' x y z
    || (is_word b'p' b'r' b'n' x y z
        || (is_word b'a' b'u' b'x' x y z || is_word b'n' b'u' b'l' x y z))
is_reserved_codes (x ∷ y ∷ z ∷ d ∷ []) =
    (is_word b'c' b'o' b'm' x y z || is_word b'l' b'p' b't' x y z) && (leb b'1' d && leb d b'9')
is_reserved_codes _ = false

-- isWindowsReservedFileName
unfoldable pub is_windows_reserved_file_name : String → Bool
unfolding is_reserved_codes codes_lower
is_windows_reserved_file_name value = is_reserved_codes (codes_lower value)

-- safeJobFileName: the trimmed id, unless it is no name.
unfoldable pub safe_job_file_name : String → Option String
unfolding is_raw_job_file_name_safe is_windows_reserved_file_name
safe_job_file_name job_id =
    let trimmed = trim_space job_id in
    if not (is_raw_job_file_name_safe trimmed) || is_windows_reserved_file_name trimmed
    then none
    else some trimmed

-- filepath.Base(value) == value, for a value that is not empty: it is "/" or has no separator.
unfoldable pub is_its_base : String → Bool
unfolding every_char
is_its_base value = str_eq value "/" || every_char (λ c. not (is_char b'/' c)) value

unfoldable pub safe_novel_id : String → Bool
unfolding every_char is_its_base
safe_novel_id value =
    not (str_eq value "")
    && (str_eq value (trim_space value)
        && (not (str_eq value ".")
            && (not (str_eq value "..")
                && (is_its_base value
                    && (every_char (λ c. not (is_char 0 c)) value
                        && every_char (λ c. not (is_char b'/' c || is_char b'\\' c)) value)))))

-- safeFutureJobOwner
abbrev pub safe_future_job_owner : String → Bool
safe_future_job_owner value = safe_novel_id value

-- isNonNegativeIntegerString
unfoldable pub is_non_negative_integer_string : String → Bool
unfolding every_char
is_non_negative_integer_string value =
    if str_eq value "" || not (str_eq value (trim_space value))
    then false
    else every_char is_decimal value
