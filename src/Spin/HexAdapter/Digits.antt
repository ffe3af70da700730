-- ===== src/Spin/HexAdapter/Digits.antt =====
-- The number that dehex makes of hexadecimal digits.
use arachnida.Base.{
  ℕ, ◌+◌, ◌-◌, ◌*◌, ◌%◌, ◌<◌, Bool, true, false, not, [], ◌∷◌, Option, none, some, Bytes, within,
  ◌==◌, ◌&&◌, ◌||◌, if◌then◌else◌, All, ◌≡◌, refl, ap, ◌∙◌, arith, ok,
}
use arachnida.Base.Check.{holds_below, holds_below_lem}
use arachnida.Spin.HexAdapter.{size_mod, digit, dehex_from, dehex}

abbrev pub is_hex : ℕ → Bool
is_hex c = within b'0' b'9' c || within b'a' b'f' c || within b'A' b'F' c

abbrev pub hex_value : ℕ → ℕ
hex_value c =
    if within b'0' b'9' c
    then c - b'0'
    else if within b'a' b'f' c
    then 10 + (c - b'a')
    else 10 + (c - b'A')

-- A hexadecimal digit other than the upper-case A.
abbrev pub IsDigit : ℕ → Type 0
IsDigit c = (is_hex c && not (c == b'A')) ≡ true

abbrev pub number : ℕ → Bytes → ℕ
number n [] = n
number n (c ∷ s) = number (n * 16 + hex_value c) s

is_value : Option ℕ → ℕ → Bool
is_value none n = false
is_value (some v) n = v == n

is_value_sound : (o : Option ℕ) (n : ℕ) → is_value o n ≡ true → o ≡ some n
unfolding is_value
is_value_sound none n h = cc
is_value_sound (some v) n h = ground arith

digit_ok : ℕ → Bool
unfolding is_value
digit_ok c = if is_hex c && not (c == b'A') then is_value (digit c) (hex_value c) else true

digit_table : holds_below digit_ok 256 ≡ true
unfolding holds_below digit_ok digit
digit_table = refl

IsDigit-byte : (c : ℕ) → IsDigit c → c < 256
IsDigit-byte c h = ground arith

digit_lem : (c : ℕ) → IsDigit c → digit c ≡ some (hex_value c)
digit_lem c h =
    let checked = holds_below_lem digit_ok 256 c (IsDigit-byte c h) digit_table in
    is_value_sound (digit c) (hex_value c) (unfold digit_ok in ground (arith, checked))

dehex_from_lem :
    (s : Bytes) (n : ℕ) → All IsDigit s → dehex_from (n % size_mod) s ≡ ok (number n s % size_mod)
unfolding dehex_from
dehex_from_lem [] n h = refl
dehex_from_lem (c ∷ s) n (hc, hs) =
    let v = hex_value c in
    let wraps : (n % size_mod * 16 % size_mod + v) % size_mod ≡ (n * 16 + v) % size_mod =
      omega arith in
    rw (digit_lem c hc, dehex_from)
      (ap (λ k. dehex_from k s) wraps ∙ dehex_from_lem s (n * 16 + v) hs)

-- A string of hexadecimal digits in either case, with no upper-case A among them, is read as the number
-- that it denotes, modulo 2^64.
pub dehex_lem : (s : Bytes) → All IsDigit s → dehex s ≡ ok (number 0 s % size_mod)
unfolding dehex
dehex_lem s h = dehex_from_lem s 0 h

-- An upper-case A counts as sixteen: where one stands before other digits, the number is one larger at
-- its place than the one that is denoted.
pub dehex_upper_a : (s : Bytes) → All IsDigit s → dehex (b'A' ∷ s) ≡ ok (number 16 s % size_mod)
unfolding dehex dehex_from digit
dehex_upper_a s h = dehex_from_lem s 16 h
