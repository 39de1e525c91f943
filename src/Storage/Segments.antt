-- ===== src/Storage/Segments.antt =====
-- storage/pathutil/sanitize.go, Segment and Filename: the results as names of files.
use Prim.Native.Char.{Char}
use narou_viewer.Prelude.{
  Bool, Bool-cases, String, arith, inl, inr, not, refl, str_eq, str_eq_iff, true, ◌&&◌, ◌||◌, ◌≡◌,
  ◌≢◌,
}
use narou_viewer.Storage.Runes.{
  AllRunes, collapse_spaces-AllRunes, cut-AllRunes, truncate_runes-AllRunes,
}
use narou_viewer.Storage.Sanitize.{
  collapse_spaces, cut_left, cut_right, filename, is_blank_char, is_break, is_separator,
  replace_all, replaced, segment, underscores,
}

-- A rune that may stand in a file name.
unfoldable pub is_allowed : Char → Bool
is_allowed c = not (is_separator c) && not (is_break c)

unfoldable pub is_safe : Char → Bool
is_safe c = is_allowed c && not (is_blank_char c)

-- The name of one directory below its parent.
unfoldable pub IsSegment : String → Type 0
IsSegment s = AllRunes is_safe s × ((s ≢ ".") × ((s ≢ "..") × (s ≢ "")))

fixed-allowed : (is_allowed "_" ≡ true) × (is_allowed " " ≡ true)
unfolding is_allowed is_separator is_break
fixed-allowed = (refl, refl)

untitled-allowed : AllRunes is_allowed "untitled"
unfolding AllRunes is_allowed is_separator is_break
untitled-allowed = (refl, (refl, (refl, (refl, (refl, (refl, (refl, (refl, tt))))))))

replaced-allowed : (c : Char) → is_allowed (replaced c) ≡ true
unfolding replaced is_allowed
replaced-allowed c = elim (Bool-cases (is_separator c)) [
  | inl t ↦ rw t fixed-allowed.0
  | inr f ↦ elim (Bool-cases (is_break c)) [
    | inl t ↦ rw (f, t) fixed-allowed.1
    | inr g ↦ rw (f, g, f, g) refl
  ]
]

replace_all-allowed : (s : String) → AllRunes is_allowed (replace_all s)
unfolding AllRunes replace_all
replace_all-allowed String.[] = tt
replace_all-allowed (String.◌∷◌ c s) = (replaced-allowed c, replace_all-allowed s)

filename-allowed : (value : String) → AllRunes is_allowed (filename value)
unfolding filename
filename-allowed value =
    let trimmed = cut_right (cut_left (replace_all value)) in
    let sanitized = collapse_spaces trimmed in
    let good =
      collapse_spaces-AllRunes is_allowed fixed-allowed.1 trimmed
        (cut-AllRunes is_allowed (replace_all value) (replace_all-allowed value)) in
    elim (Bool-cases (str_eq sanitized "")) [
      | inl t ↦ rw t untitled-allowed
      | inr f ↦ rw f (truncate_runes-AllRunes is_allowed sanitized 80 good)
    ]

underscore-safe : is_safe "_" ≡ true
unfolding is_safe
underscore-safe = rw fixed-allowed.0 refl

underscores-safe : (s : String) → AllRunes is_allowed s → AllRunes is_safe (underscores s)
unfolding AllRunes underscores is_safe
underscores-safe String.[] a = tt
underscores-safe (String.◌∷◌ c s) a = elim (Bool-cases (is_blank_char c)) [
  | inl t ↦ rw t (underscore-safe, underscores-safe s (a.1))
  | inr f ↦ rw (f, a.0, f) (refl, underscores-safe s (a.1))
]

untitled-IsSegment : IsSegment "untitled"
unfolding IsSegment AllRunes is_safe is_allowed is_separator is_break
untitled-IsSegment = (
  (refl, (refl, (refl, (refl, (refl, (refl, (refl, (refl, tt)))))))),
  (λ e. cc, (λ e. cc, λ e. cc)),
)

-- For every text, Segment answers the name of one directory: it is none of "", "." and "..", and no
-- rune of it is a separator of paths, a character that Filename replaces, or a space.
pub segment-IsSegment : (value : String) → IsSegment (segment value)
unfolding segment IsSegment
segment-IsSegment value =
    let sanitized = underscores (filename value) in
    elim (Bool-cases (str_eq sanitized "." || str_eq sanitized ".." || str_eq sanitized "")) [
      | inl t ↦ rw t untitled-IsSegment
      | inr f ↦ rw f (
        underscores-safe (filename value) (filename-allowed value),
        (
          λ e. ground (arith, str_eq_iff sanitized "."),
          (
            λ e. ground (arith, str_eq_iff sanitized ".."),
            λ e. ground (arith, str_eq_iff sanitized ""),
          ),
        ),
      )
    ]
