-- ===== src/Publications/Checksum.antt =====
-- What the checksum and the normal form of publications/isbn.go mean.
use Prim.Native.Char.{Char, code}
-- A text of digits.
use narou_viewer.Prelude.{
  Bool-cases, String, ap, arith, cons_trimmed, false, inl, inr, is_space, not, refl, suc, sym,
  text_length, trim_left, trim_right, trim_space, true, zero, ℕ, ◌%◌, ◌&&◌, ◌*◌, ◌+◌, ◌-◌, ◌<◌,
  ◌==◌, ◌||◌, ◌↔◌, ◌∙◌, ◌≡◌, ◌≢◌, ◌⊎◌,
}
use narou_viewer.Publications.Isbn.{
  accepted_isbn, digit_value, digits_of, has_prefix, is_digit_char, normalize_isbn13,
  valid_isbn13_checksum, value_at, weight, weighted_sum,
}

unfoldable pub AllDigits : String → Type 0
AllDigits String.[] = Unit
AllDigits (String.◌∷◌ c s) = (is_digit_char c ≡ true) × AllDigits s

digits_of-AllDigits : (s : String) → AllDigits (digits_of s)
unfolding AllDigits digits_of
digits_of-AllDigits String.[] = tt
digits_of-AllDigits (String.◌∷◌ c s) = elim (Bool-cases (is_digit_char c)) [
  | inl t ↦ rw t (t, digits_of-AllDigits s)
  | inr f ↦ rw f (digits_of-AllDigits s)
]

digits_of-digits : (s : String) → AllDigits s → digits_of s ≡ s
unfolding AllDigits digits_of
digits_of-digits String.[] a = refl
digits_of-digits (String.◌∷◌ c s) a = rw (a.0) (ap (λ x. String.◌∷◌ c x) (digits_of-digits s a.1))

digit-no_space : (c : Char) → is_digit_char c ≡ true → is_space (code c) ≡ false
unfolding is_digit_char is_space
digit-no_space c h = ground arith

trim_left-digits : (s : String) → AllDigits s → trim_left s ≡ s
unfolding AllDigits trim_left
trim_left-digits String.[] a = refl
trim_left-digits (String.◌∷◌ c s) a = rw (digit-no_space c (a.0)) refl

cons_trimmed-digit :
    (c : Char) (s : String) → is_digit_char c ≡ true → cons_trimmed c s ≡ String.◌∷◌ c s
unfolding cons_trimmed
cons_trimmed-digit c String.[] h = rw (digit-no_space c h) refl
cons_trimmed-digit c (String.◌∷◌ d s) h = refl

trim_right-digits : (s : String) → AllDigits s → trim_right s ≡ s
unfolding AllDigits trim_right
trim_right-digits String.[] a = refl
trim_right-digits (String.◌∷◌ c s) a = rw (trim_right-digits s (a.1)) (cons_trimmed-digit c s (a.0))

trim_space-digits : (s : String) → AllDigits s → trim_space s ≡ s
unfolding trim_space
trim_space-digits s a = rw (trim_left-digits s a) (trim_right-digits s a)

-- The weighted sum of all thirteen digits, the check digit among them.
unfoldable pub control_sum : ℕ → String → ℕ
control_sum i String.[] = 0
control_sum i (String.◌∷◌ c s) = digit_value c * weight i + control_sum (suc i) s

digit_value-bound : (c : Char) → is_digit_char c ≡ true → digit_value c < 10
unfolding is_digit_char
digit_value-bound c h = ground arith

value_at-bound : (i : ℕ) (s : String) → AllDigits s → value_at i s < 10
unfolding AllDigits value_at
value_at-bound i String.[] a = omega arith
value_at-bound zero (String.◌∷◌ c s) a = digit_value-bound c (a.0)
value_at-bound (suc i) (String.◌∷◌ c s) a = value_at-bound i s (a.1)

-- A text of `n` more digits than the sum takes, before the last.
control_sum-split :
    (n i : ℕ) (s : String)
    → text_length s ≡ suc n
    → i + n ≡ 12
    → control_sum i s ≡ weighted_sum i s + value_at n s
unfolding control_sum weighted_sum value_at text_length
control_sum-split n i String.[] l e = absurd (omega arith)
control_sum-split zero i (String.◌∷◌ c String.[]) l e = ground arith
control_sum-split zero i (String.◌∷◌ c (String.◌∷◌ d s)) l e = absurd (omega arith)
control_sum-split (suc n) i (String.◌∷◌ c s) l e =
    ground (arith, control_sum-split n (suc i) s (omega arith) (omega arith))

check_digit : (a d : ℕ) → d < 10 → (((10 - a % 10) % 10 == d) ≡ true) ↔ ((a + d) % 10 ≡ 0)
check_digit a d h = ground arith

-- The checksum test accepts thirteen digits exactly when their sum with the weights 1 and 3 in turns
-- is a multiple of ten.
pub checksum-control_sum :
    (isbn : String)
    → AllDigits isbn
    → text_length isbn ≡ 13
    → (valid_isbn13_checksum isbn ≡ true) ↔ (control_sum 0 isbn % 10 ≡ 0)
unfolding valid_isbn13_checksum
checksum-control_sum isbn a l =
    rw (l, control_sum-split 12 0 isbn l refl)
      (check_digit (weighted_sum 0 isbn) (value_at 12 isbn) (value_at-bound 12 isbn a))

-- Two texts of digits that differ in one place.
pub data OneDigit : String → String → Type 0 where
  differs_here :
      {c d : Char} {s : String}
      → digit_value c ≢ digit_value d
      → OneDigit (String.◌∷◌ c s) (String.◌∷◌ d s)
  differs_later :
      {c : Char} {s t : String} → OneDigit s t → OneDigit (String.◌∷◌ c s) (String.◌∷◌ c t)

OneDigit-control_sum :
    (i : ℕ) (s t : String)
    → AllDigits s
    → AllDigits t
    → OneDigit s t
    → control_sum i s % 10 ≢ control_sum i t % 10
unfolding control_sum AllDigits
OneDigit-control_sum i String.[] t a b h e = elim h [ ]
OneDigit-control_sum i (String.◌∷◌ c s) String.[] a b h e = elim h [ ]
OneDigit-control_sum i (String.◌∷◌ c s) (String.◌∷◌ d _) a b (differs_here n) e =
    ground (arith, digit_value-bound c (a.0), digit_value-bound d (b.0))
OneDigit-control_sum i (String.◌∷◌ c s) (String.◌∷◌ _ t) a b (differs_later h) e =
    OneDigit-control_sum (suc i) s t (a.1) (b.1) h (omega arith)

accepted-cases : (s : String) → (accepted_isbn s ≡ "") ⊎ (accepted_isbn s ≡ s)
unfolding accepted_isbn
accepted-cases s = elim (Bool-cases (text_length s == 13)) [
  | inr f ↦ inl (rw f refl)
  | inl t ↦ elim (Bool-cases (not (has_prefix "978" s) && not (has_prefix "979" s))) [
    | inl u ↦ inl (rw (t, u) refl)
    | inr g ↦ elim (Bool-cases (valid_isbn13_checksum s)) [
      | inr v ↦ inl (rw (t, g, v) refl)
      | inl w ↦ inr (rw (t, g, w) refl)
    ]
  ]
]

accepted-digits :
    (s : String) → AllDigits s → accepted_isbn (digits_of (trim_space s)) ≡ accepted_isbn s
accepted-digits s a = ap accepted_isbn (ap digits_of (trim_space-digits s a) ∙ digits_of-digits s a)

accepted-empty : accepted_isbn (digits_of (trim_space "")) ≡ ""
unfolding accepted_isbn digits_of trim_space trim_left trim_right text_length
accepted-empty = refl

normalize_isbn13-twice :
    (value : String) → normalize_isbn13 (normalize_isbn13 value) ≡ normalize_isbn13 value
unfolding normalize_isbn13
normalize_isbn13-twice value =
    let isbn = digits_of (trim_space value) in
    elim (accepted-cases isbn) [
      | inl none_left ↦
          ap (λ x. accepted_isbn (digits_of (trim_space x))) none_left
          ∙ (accepted-empty ∙ sym none_left)
      | inr same ↦
          ap (λ x. accepted_isbn (digits_of (trim_space x))) same
          ∙ accepted-digits isbn (digits_of-AllDigits (trim_space value))
    ]

-- An ISBN-13: thirteen digits of one of the two prefixes, whose weighted sum is a multiple of ten.
unfoldable pub IsIsbn : String → Type 0
IsIsbn s =
    AllDigits s
    × (text_length s ≡ 13)
    × ((has_prefix "978" s || has_prefix "979" s) ≡ true)
    × (control_sum 0 s % 10 ≡ 0)

-- The digits are an ISBN-13 and the answer, or they are none and the answer is empty.
abbrev pub Normalizes : String → String → Type 0
Normalizes isbn answer = (IsIsbn isbn × (answer ≡ isbn)) ⊎ ((¬ IsIsbn isbn) × (answer ≡ ""))

accepted-Normalizes : (s : String) → AllDigits s → Normalizes s (accepted_isbn s)
unfolding accepted_isbn IsIsbn
accepted-Normalizes s a = elim (Bool-cases (text_length s == 13)) [
  | inr f ↦ inr ((λ h. absurd (let l = h.1 in ground arith)), rw f refl)
  | inl t ↦ elim (Bool-cases (not (has_prefix "978" s) && not (has_prefix "979" s))) [
    | inl u ↦ inr ((λ h. absurd (let p = h.2 in ground arith)), rw (t, u) refl)
    | inr g ↦
        let same = checksum-control_sum s a (ground arith) in
        elim (Bool-cases (valid_isbn13_checksum s)) [
          | inr v ↦ inr ((λ h. absurd (let w = same.1 h.3 in ground arith)), rw (t, g, v) refl)
          | inl w ↦ inl ((a, ground arith, ground arith, same.0 w), rw (t, g, w) refl)
        ]
  ]
]

-- NormalizeISBN13 against a description of ISBN-13: it answers the digits of the text if they are
-- thirteen, begin with 978 or 979 and have a sum with the weights 1 and 3 in turns that is a multiple
-- of ten, and otherwise the empty text; and what it answers is its own normal form.
pub normalize_isbn13-Normalizes :
    (value : String)
    → Normalizes (digits_of (trim_space value)) (normalize_isbn13 value)
      × (normalize_isbn13 (normalize_isbn13 value) ≡ normalize_isbn13 value)
normalize_isbn13-Normalizes value = (
  (unfold normalize_isbn13 in
      accepted-Normalizes (digits_of (trim_space value)) (digits_of-AllDigits (trim_space value))),
  normalize_isbn13-twice value,
)

-- The checksum detects a wrong digit: of two texts of thirteen digits that differ in one place, the
-- test accepts one at most.
pub checksum-OneDigit :
    (s t : String)
    → AllDigits s
    → AllDigits t
    → text_length s ≡ 13
    → text_length t ≡ 13
    → OneDigit s t
    → valid_isbn13_checksum s ≡ true
    → valid_isbn13_checksum t ≡ false
checksum-OneDigit s t a b l m h v = elim (Bool-cases (valid_isbn13_checksum t)) [
  | inr f ↦ f
  | inl w ↦ absurd (
      OneDigit-control_sum 0 s t a b h
        ((checksum-control_sum s a l).0 v ∙ sym ((checksum-control_sum t b m).0 w)))
]
