-- ===== src/Storage/Spaces.antt =====
-- storage/pathutil/sanitize.go, Filename: the loop that replaces pairs of spaces.
use narou_viewer.Prelude.{
  Bool-cases, String, arith, false, inl, inr, refl, suc, text_length, true, zero, ℕ, ◌&&◌, ◌<◌, ◌≡◌,
  ◌≤◌,
}
use narou_viewer.Storage.Sanitize.{
  collapse_loop, collapse_spaces, halve, has_double, has_double_after, is_blank_char,
}

halve-no_longer : (s : String) → text_length (halve s) ≤ text_length s
unfolding text_length halve
halve-no_longer String.[] = omega arith
halve-no_longer (String.◌∷◌ c String.[]) = omega arith
halve-no_longer (String.◌∷◌ c (String.◌∷◌ d s)) =
    let both = halve-no_longer s in
    let next = halve-no_longer (String.◌∷◌ d s) in
    elim (Bool-cases (is_blank_char c && is_blank_char d)) [
      | inl t ↦ rw t (omega arith)
      | inr f ↦ rw f (omega arith)
    ]

halve-shorter : (s : String) → has_double s ≡ true → text_length (halve s) < text_length s
unfolding text_length halve has_double has_double_after
halve-shorter String.[] h = ground arith
halve-shorter (String.◌∷◌ c String.[]) h = ground arith
halve-shorter (String.◌∷◌ c (String.◌∷◌ d s)) h =
    let both = halve-no_longer s in
    elim (Bool-cases (is_blank_char c && is_blank_char d)) [
      | inl t ↦ rw t (omega arith)
      | inr f ↦ let next = halve-shorter (String.◌∷◌ d s) (ground arith) in rw f (omega arith)
    ]

collapse_loop-single :
    (fuel : ℕ) (s : String) → text_length s ≤ fuel → has_double (collapse_loop fuel s) ≡ false
unfolding collapse_loop has_double text_length
collapse_loop-single zero String.[] h = refl
collapse_loop-single zero (String.◌∷◌ c s) h = ground arith
collapse_loop-single (suc fuel) s h = elim (Bool-cases (has_double s)) [
  | inl t ↦ let less = halve-shorter s t in rw t (collapse_loop-single fuel (halve s) (omega arith))
  | inr f ↦ rw f f
]

-- The loop of Filename ends: after at most as many passes as the text has runes, no two spaces
-- stand next to each other.
pub collapse_spaces-single : (s : String) → has_double (collapse_spaces s) ≡ false
unfolding collapse_spaces
collapse_spaces-single s = collapse_loop-single (text_length s) s (omega arith)
