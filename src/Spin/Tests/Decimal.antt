-- ===== src/Spin/Tests/Decimal.antt =====
-- Concrete functions for `boost::lexical_cast` in the tests.
use arachnida.Spin.Address.Texts.{digits_value, IsDigit, IsDecimal}
use arachnida.Base.{
  ℕ, zero, suc, ◌+◌, ◌/◌, ◌%◌, ◌<◌, ◌≤◌, [], ◌∷◌, Bytes, Option, some, All, ltb, if◌then◌else◌,
  Bool-cases, inl, inr, ◌≡◌, ap, ◌∙◌, arith,
}

-- Decimal digits; no text fails.
abbrev pub read_decimal : Bytes → Option ℕ
read_decimal s = some (digits_value 0 s)

-- The last three decimal digits of a number.
abbrev pub three_digits : ℕ → Bytes
three_digits n = (b'0' + n / 100 % 10) ∷ (b'0' + n / 10 % 10) ∷ (b'0' + n % 10) ∷ []

-- The digits of a number, in front of those that are there; it takes fuel.
unfoldable pub print_from : ℕ → ℕ → Bytes → Bytes
print_from zero n later = later
print_from (suc fuel) n later =
    let more = print_from fuel (n / 10) ((b'0' + n % 10) ∷ later) in
    if ltb n 10 then (b'0' + n) ∷ later else more

abbrev pub print_decimal : ℕ → Bytes
print_decimal n = print_from (suc n) n []

print_from-digits :
    (fuel n : ℕ) (later : Bytes) → All IsDigit later → All IsDigit (print_from fuel n later)
unfolding print_from
print_from-digits zero n later h = h
print_from-digits (suc fuel) n later h =
    let digit : IsDigit (b'0' + n % 10) = (omega arith, omega arith) in
    let more = print_from-digits fuel (n / 10) ((b'0' + n % 10) ∷ later) (digit, h) in
    elim (Bool-cases (ltb n 10)) [
      | inl u ↦ rw u ((omega arith, ground arith), h)
      | inr u ↦ rw u more
    ]

print_from-value :
    (fuel n : ℕ) (later : Bytes)
    → n < fuel
    → digits_value 0 (print_from fuel n later) ≡ digits_value n later
unfolding print_from
print_from-value zero n later lt = absurd (omega arith)
print_from-value (suc fuel) n later lt = elim (Bool-cases (ltb n 10)) [
  | inl u ↦ rw u (ap (λ m. digits_value m later) (omega arith))
  | inr u ↦
      let ten : 10 ≤ n = ground arith in
      rw u (
        print_from-value fuel (n / 10) ((b'0' + n % 10) ∷ later) (omega arith)
        ∙ ap (λ m. digits_value m later) (omega arith))
]

pub print_decimal-IsDecimal : IsDecimal print_decimal
print_decimal-IsDecimal = record {
  digits = λ n. print_from-digits (suc n) n [] tt;
  value = λ n. print_from-value (suc n) n [] (omega arith);
}
