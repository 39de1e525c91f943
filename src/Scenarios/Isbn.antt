-- ===== src/Scenarios/Isbn.antt =====
-- The checksum of two texts that differ in the first digit.
use narou_viewer.Prelude.{String, false, refl, text_length, trim_space, true, ◌%◌, ◌↔◌, ◌≡◌}
use narou_viewer.Publications.Checksum.{
  AllDigits, OneDigit, checksum-OneDigit, checksum-control_sum, control_sum, differs_here,
  Normalizes, normalize_isbn13-Normalizes,
}
use narou_viewer.Publications.Isbn.{
  digits_of, is_digit_char, normalize_isbn13, valid_isbn13_checksum, value_at, weighted_sum,
}

abbrev isbn_text : String
isbn_text = "9780306406157"

abbrev wrong_text : String
wrong_text = "1780306406157"

isbn_digits : AllDigits isbn_text
unfolding AllDigits is_digit_char
isbn_digits = (
  refl,
  (
    refl,
    (refl, (refl, (refl, (refl, (refl, (refl, (refl, (refl, (refl, (refl, (refl, tt))))))))))),
  ),
)

wrong_digits : AllDigits wrong_text
unfolding AllDigits is_digit_char
wrong_digits = (
  refl,
  (
    refl,
    (refl, (refl, (refl, (refl, (refl, (refl, (refl, (refl, (refl, (refl, (refl, tt))))))))))),
  ),
)

isbn_length : (text_length isbn_text ≡ 13) × (text_length wrong_text ≡ 13)
unfolding text_length
isbn_length = (refl, refl)

isbn_valid : valid_isbn13_checksum isbn_text ≡ true
unfolding valid_isbn13_checksum text_length weighted_sum value_at
isbn_valid = refl

first_digit : OneDigit isbn_text wrong_text
first_digit = differs_here (λ e. cc)

checksum-control_sum_example :
    (valid_isbn13_checksum isbn_text ≡ true) ↔ (control_sum 0 isbn_text % 10 ≡ 0)
checksum-control_sum_example = checksum-control_sum isbn_text isbn_digits isbn_length.0

checksum-OneDigit_example : valid_isbn13_checksum wrong_text ≡ false
checksum-OneDigit_example =
    checksum-OneDigit isbn_text wrong_text isbn_digits wrong_digits isbn_length.0 isbn_length.1
      first_digit isbn_valid

normalize_isbn13-Normalizes_example :
    Normalizes (digits_of (trim_space " 978-0306406157")) (normalize_isbn13 " 978-0306406157")
    × (normalize_isbn13 (normalize_isbn13 " 978-0306406157") ≡ normalize_isbn13 " 978-0306406157")
normalize_isbn13-Normalizes_example = normalize_isbn13-Normalizes " 978-0306406157"
