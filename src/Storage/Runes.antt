-- ===== src/Storage/Runes.antt =====
-- The loops of storage/pathutil/sanitize.go, and a predicate on every rune of a text.
use Prim.Native.Char.{Char, code}
use narou_viewer.Prelude.{
  Bool, Bool-cases, String, cons_trimmed, inl, inr, is_space, leb, suc, text_length, trim_left,
  trim_right, trim_space, true, zero, ℕ, ◌&&◌, ◌≡◌,
}
use narou_viewer.Storage.Sanitize.{
  collapse_loop, collapse_spaces, cons_cut, cut_left, cut_right, fill, halve, has_double,
  is_blank_char, is_cut, truncate_runes, write_rune,
}

unfoldable pub AllRunes : (Char → Bool) → String → Type 0
AllRunes p String.[] = Unit
AllRunes p (String.◌∷◌ c s) = (p c ≡ true) × AllRunes p s

pub AllRunes-mono :
    (p q : Char → Bool)
    → ((c : Char) → p c ≡ true → q c ≡ true)
    → (s : String) → AllRunes p s
    → AllRunes q s
unfolding AllRunes
AllRunes-mono p q f String.[] a = tt
AllRunes-mono p q f (String.◌∷◌ c s) a = (f c (a.0), AllRunes-mono p q f s (a.1))

module _ (p : Char → Bool) where
  trim_left-AllRunes : (s : String) → AllRunes p s → AllRunes p (trim_left s)
  unfolding AllRunes trim_left
  trim_left-AllRunes String.[] a = tt
  trim_left-AllRunes (String.◌∷◌ c s) a = elim (Bool-cases (is_space (code c))) [
    | inl t ↦ rw t (trim_left-AllRunes s (a.1))
    | inr f ↦ rw f a
  ]

  cons_trimmed-AllRunes :
      (c : Char) (s : String) → p c ≡ true → AllRunes p s → AllRunes p (cons_trimmed c s)
  unfolding AllRunes cons_trimmed
  cons_trimmed-AllRunes c String.[] h a = elim (Bool-cases (is_space (code c))) [
    | inl t ↦ rw t tt
    | inr f ↦ rw f (h, tt)
  ]
  cons_trimmed-AllRunes c (String.◌∷◌ d s) h a = (h, a)

  trim_right-AllRunes : (s : String) → AllRunes p s → AllRunes p (trim_right s)
  unfolding AllRunes trim_right
  trim_right-AllRunes String.[] a = tt
  trim_right-AllRunes (String.◌∷◌ c s) a =
      cons_trimmed-AllRunes c (trim_right s) (a.0) (trim_right-AllRunes s (a.1))

  cut_left-AllRunes : (s : String) → AllRunes p s → AllRunes p (cut_left s)
  unfolding AllRunes cut_left
  cut_left-AllRunes String.[] a = tt
  cut_left-AllRunes (String.◌∷◌ c s) a = elim (Bool-cases (is_cut c)) [
    | inl t ↦ rw t (cut_left-AllRunes s (a.1))
    | inr f ↦ rw f a
  ]

  cons_cut-AllRunes :
      (c : Char) (s : String) → p c ≡ true → AllRunes p s → AllRunes p (cons_cut c s)
  unfolding AllRunes cons_cut
  cons_cut-AllRunes c String.[] h a = elim (Bool-cases (is_cut c)) [
    | inl t ↦ rw t tt
    | inr f ↦ rw f (h, tt)
  ]
  cons_cut-AllRunes c (String.◌∷◌ d s) h a = (h, a)

  cut_right-AllRunes : (s : String) → AllRunes p s → AllRunes p (cut_right s)
  unfolding AllRunes cut_right
  cut_right-AllRunes String.[] a = tt
  cut_right-AllRunes (String.◌∷◌ c s) a =
      cons_cut-AllRunes c (cut_right s) (a.0) (cut_right-AllRunes s (a.1))

  pub cut-AllRunes : (s : String) → AllRunes p s → AllRunes p (cut_right (cut_left s))
  cut-AllRunes s a = cut_right-AllRunes (cut_left s) (cut_left-AllRunes s a)

  write_rune-AllRunes :
      (b : String) (c : Char) → AllRunes p b → p c ≡ true → AllRunes p (write_rune b c)
  unfolding AllRunes write_rune
  write_rune-AllRunes String.[] c a h = (h, tt)
  write_rune-AllRunes (String.◌∷◌ d b) c a h = (a.0, write_rune-AllRunes b c (a.1) h)

  fill-AllRunes :
      (limit : ℕ) (b s : String) → AllRunes p b → AllRunes p s → AllRunes p (fill limit b s)
  unfolding AllRunes fill
  fill-AllRunes limit b String.[] h a = h
  fill-AllRunes limit b (String.◌∷◌ c s) h a = elim (Bool-cases (leb limit (text_length b))) [
    | inl t ↦ rw t h
    | inr f ↦ rw f (fill-AllRunes limit (write_rune b c) s (write_rune-AllRunes b c h (a.0)) (a.1))
  ]

  pub truncate_runes-AllRunes :
      (s : String) (limit : ℕ) → AllRunes p s → AllRunes p (truncate_runes s limit)
  unfolding truncate_runes trim_space AllRunes
  truncate_runes-AllRunes s limit a = elim (Bool-cases (leb (text_length s) limit)) [
    | inl t ↦ rw t a
    | inr f ↦ rw f (
        trim_right-AllRunes (trim_left (fill limit "" s))
          (trim_left-AllRunes (fill limit "" s) (fill-AllRunes limit "" s tt a)))
  ]

  module _ (blank : p " " ≡ true) where
    halve-AllRunes : (s : String) → AllRunes p s → AllRunes p (halve s)
    unfolding AllRunes halve
    halve-AllRunes String.[] a = tt
    halve-AllRunes (String.◌∷◌ c String.[]) a = a
    halve-AllRunes (String.◌∷◌ c (String.◌∷◌ d s)) a =
        elim (Bool-cases (is_blank_char c && is_blank_char d)) [
          | inl t ↦ rw t (blank, halve-AllRunes s (a.1.1))
          | inr f ↦ rw f (a.0, halve-AllRunes (String.◌∷◌ d s) (a.1))
        ]

    collapse_loop-AllRunes :
        (fuel : ℕ) (s : String) → AllRunes p s → AllRunes p (collapse_loop fuel s)
    unfolding collapse_loop
    collapse_loop-AllRunes zero s a = a
    collapse_loop-AllRunes (suc fuel) s a = elim (Bool-cases (has_double s)) [
      | inl t ↦ rw t (collapse_loop-AllRunes fuel (halve s) (halve-AllRunes s a))
      | inr f ↦ rw f a
    ]

    pub collapse_spaces-AllRunes : (s : String) → AllRunes p s → AllRunes p (collapse_spaces s)
    unfolding collapse_spaces
    collapse_spaces-AllRunes s a = collapse_loop-AllRunes (text_length s) s a
