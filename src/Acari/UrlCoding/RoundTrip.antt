-- ===== src/Acari/UrlCoding/RoundTrip.antt =====
-- urldecode after urlencode, and the alphabet of encoded text.
use arachnida.Base.{
  ℕ, ◌+◌, ◌*◌, ◌/◌, ◌%◌, ◌<◌, Bool, true, [], ◌∷◌, ◌++◌, Bytes, ◌==◌, ◌&&◌, ◌≡◌, ◌≢◌, refl, ap,
  arith, All, All-append, IsByte, Bool-cases, ◌||◌, ◌∙◌, inl, inr,
}
use arachnida.Base.Check.{holds_below, holds_below_lem}
use arachnida.Acari.UrlCoding.{
  is_plain, hex_digit, encode_byte, urlencode, isxdigit, hex_value, urldecode,
}

digits_ok : ℕ → Bool
digits_ok c =
    isxdigit (hex_digit (c / 16))
    && isxdigit (hex_digit (c % 16))
    && hex_value (hex_digit (c / 16)) * 16 + hex_value (hex_digit (c % 16)) == c

digits_table : holds_below digits_ok 256 ≡ true
unfolding holds_below digits_ok isxdigit hex_digit hex_value
digits_table = refl

abbrev escape_of : ℕ → Bytes → Bytes
escape_of c rest = b'%' ∷ hex_digit (c / 16) ∷ hex_digit (c % 16) ∷ rest

urldecode_escape :
    (c : ℕ) (rest : Bytes) → c < 256 → urldecode (escape_of c rest) ≡ c ∷ urldecode rest
unfolding urldecode digits_ok
urldecode_escape c rest h = ground (arith, holds_below_lem digits_ok 256 c h digits_table)

urldecode_copy : (c : ℕ) (rest : Bytes) → c ≢ b'%' → urldecode (c ∷ rest) ≡ c ∷ urldecode rest
unfolding urldecode
urldecode_copy c [] h = refl
urldecode_copy c (d ∷ []) h = refl
urldecode_copy c (d ∷ e ∷ s) h = ground arith

is_plain-ne : (keep : Bool) (c : ℕ) → is_plain keep c ≡ true → c ≢ b'%'
unfolding is_plain
is_plain-ne keep c h = ground arith

urldecode-encode_byte :
    (keep : Bool) (c : ℕ) (rest : Bytes)
    → c < 256
    → urldecode (encode_byte keep c ++ rest) ≡ c ∷ urldecode rest
unfolding encode_byte
urldecode-encode_byte keep c rest h = elim (Bool-cases (is_plain keep c)) [
  | inl plain ↦ rw plain (urldecode_copy c rest (is_plain-ne keep c plain))
  | inr other ↦ rw other (urldecode_escape c rest h)
]

-- Decoding an encoded byte string gives it back, whether slashes are kept or not.
pub urldecode-urlencode :
    (s : Bytes) (keep_slash : Bool) → All IsByte s → urldecode (urlencode s keep_slash) ≡ s
unfolding urlencode
urldecode-urlencode [] keep h = unfold urldecode in refl
urldecode-urlencode (c ∷ s) keep (hc, hs) =
    urldecode-encode_byte keep c (urlencode s keep) hc ∙ ap (◌∷◌ c) (urldecode-urlencode s keep hs)

-- A character of encoded text: one that is copied as it is, `%`, or a hexadecimal digit.
abbrev pub IsEncoded : Bool → ℕ → Type 0
IsEncoded keep c = (is_plain keep c || c == b'%') ≡ true

hex_digit-IsEncoded : (keep : Bool) (v : ℕ) → v < 16 → IsEncoded keep (hex_digit v)
unfolding is_plain hex_digit
hex_digit-IsEncoded keep v h = ground arith

encode_byte-IsEncoded : (keep : Bool) (c : ℕ) → c < 256 → All (IsEncoded keep) (encode_byte keep c)
unfolding encode_byte
encode_byte-IsEncoded keep c h = elim (Bool-cases (is_plain keep c)) [
  | inl plain ↦ rw plain (ground arith)
  | inr other ↦
      rw other
        (ground (arith, hex_digit-IsEncoded keep (c / 16), hex_digit-IsEncoded keep (c % 16)))
]

-- Encoded text holds only plain characters and percent signs.
pub urlencode-IsEncoded :
    (s : Bytes) (keep_slash : Bool)
    → All IsByte s
    → All (IsEncoded keep_slash) (urlencode s keep_slash)
unfolding urlencode
urlencode-IsEncoded [] keep h = tt
urlencode-IsEncoded (c ∷ s) keep (hc, hs) =
    All-append _ (encode_byte keep c) (urlencode s keep) (encode_byte-IsEncoded keep c hc)
      (urlencode-IsEncoded s keep hs)
