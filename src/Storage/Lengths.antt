-- ===== src/Storage/Lengths.antt =====
-- storage/pathutil/sanitize.go: the lengths of its results, and its loops.
use Prim.Native.Char.{Char, code}
use narou_viewer.Prelude.{
  Bool-cases, String, ap, arith, cons_trimmed, inl, inr, is_space, leb, refl, str_eq, suc,
  text_length, trim_left, trim_right, trim_space, ℕ, ◌||◌, ◌≡◌, ◌≤◌,
}
use narou_viewer.Storage.Sanitize.{
  collapse_spaces, cut_left, cut_right, filename, fill, replace_all, segment, truncate_runes,
  underscores, write_rune,
}

trim_left-shorter : (s : String) → text_length (trim_left s) ≤ text_length s
unfolding text_length trim_left
trim_left-shorter String.[] = omega arith
trim_left-shorter (String.◌∷◌ c s) =
    let rest = trim_left-shorter s in
    elim (Bool-cases (is_space (code c))) [
      | inl t ↦ rw t (omega (arith, rest))
      | inr f ↦ rw f (omega arith)
    ]

cons_trimmed-shorter :
    (c : Char) (s : String) → text_length (cons_trimmed c s) ≤ suc (text_length s)
unfolding text_length cons_trimmed
cons_trimmed-shorter c String.[] = elim (Bool-cases (is_space (code c))) [
  | inl t ↦ rw t (omega arith)
  | inr f ↦ rw f (omega arith)
]
cons_trimmed-shorter c (String.◌∷◌ d s) = omega arith

trim_right-shorter : (s : String) → text_length (trim_right s) ≤ text_length s
unfolding text_length trim_right
trim_right-shorter String.[] = omega arith
trim_right-shorter (String.◌∷◌ c s) =
    let rest = trim_right-shorter s in
    let step = cons_trimmed-shorter c (trim_right s) in omega arith

write_rune-length : (b : String) (c : Char) → text_length (write_rune b c) ≡ suc (text_length b)
unfolding text_length write_rune
write_rune-length String.[] c = refl
write_rune-length (String.◌∷◌ d b) c = ap (λ n. suc n) (write_rune-length b c)

fill-short :
    (limit : ℕ) (b s : String) → text_length b ≤ limit → text_length (fill limit b s) ≤ limit
unfolding fill
fill-short limit b String.[] h = h
fill-short limit b (String.◌∷◌ c s) h = elim (Bool-cases (leb limit (text_length b))) [
  | inl t ↦ rw t h
  | inr f ↦
      let longer = write_rune-length b c in
      rw f (fill-short limit (write_rune b c) s (ground arith))
]

-- TruncateRunes answers a text of at most as many runes as its limit.
truncate_runes-bound : (s : String) (limit : ℕ) → text_length (truncate_runes s limit) ≤ limit
unfolding truncate_runes trim_space
truncate_runes-bound s limit = elim (Bool-cases (leb (text_length s) limit)) [
  | inl t ↦ rw t (ground arith)
  | inr f ↦
      let filled = fill limit "" s in
      let short = fill-short limit "" s (omega arith) in
      let left = trim_left-shorter filled in
      let right = trim_right-shorter (trim_left filled) in rw f (omega arith)
]

underscores-length : (s : String) → text_length (underscores s) ≡ text_length s
unfolding text_length underscores
underscores-length String.[] = refl
underscores-length (String.◌∷◌ c s) = ap (λ n. suc n) (underscores-length s)

filename-bound : (value : String) → text_length (filename value) ≤ 80
unfolding filename text_length
filename-bound value =
    let sanitized = collapse_spaces (cut_right (cut_left (replace_all value))) in
    elim (Bool-cases (str_eq sanitized "")) [
      | inl t ↦ rw t (omega arith)
      | inr f ↦ rw f (truncate_runes-bound sanitized 80)
    ]

-- For every text, Segment answers at most 80 runes.
pub segment-bound : (value : String) → text_length (segment value) ≤ 80
unfolding segment text_length
segment-bound value =
    let sanitized = underscores (filename value) in
    let short = filename-bound value in
    let same = underscores-length (filename value) in
    elim (Bool-cases (str_eq sanitized "." || str_eq sanitized ".." || str_eq sanitized "")) [
      | inl t ↦ rw t (omega arith)
      | inr f ↦ rw f (omega arith)
    ]
