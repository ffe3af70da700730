-- ===== src/Acari/UrlCoding.antt =====
-- lib/Acari/urlencode.cpp. `sprintf("%%%02x")` writes two lower-case hexadecimal digits, and
-- `strtol(…, 16)` on two characters that pass `isxdigit` is their value.
pub mod RoundTrip
use arachnida.Base.{
  ℕ, ◌+◌, ◌-◌, ◌*◌, ◌/◌, ◌%◌, Bool, true, false, [], ◌∷◌, ◌++◌, Bytes, ltb, within, ◌==◌, ◌&&◌,
  ◌||◌, if◌then◌else◌,
}

-- The characters that are copied as they are.
pub is_plain : Bool → ℕ → Bool
is_plain keep_slash c =
    within b'0' b'9' c
    || within b'A' b'Z' c
    || within b'a' b'z' c
    || c == b'$'
    || c == b'-'
    || c == b'_'
    || c == b'.'
    || c == b'+'
    || c == b'!'
    || c == b'*'
    || c == b'\''
    || c == b'('
    || c == b')'
    || c == b','
    || (keep_slash && c == b'/')

pub hex_digit : ℕ → ℕ
hex_digit v = if ltb v 10 then b'0' + v else b'a' + (v - 10)

-- What one round of the loop appends.
pub encode_byte : Bool → ℕ → Bytes
unfolding is_plain hex_digit
encode_byte keep_slash c =
    if is_plain keep_slash c then c ∷ [] else b'%' ∷ hex_digit (c / 16) ∷ hex_digit (c % 16) ∷ []

unfoldable pub urlencode : Bytes → Bool → Bytes
unfolding encode_byte
urlencode [] keep_slash = []
urlencode (c ∷ s) keep_slash = encode_byte keep_slash c ++ urlencode s keep_slash

pub isxdigit : ℕ → Bool
isxdigit c = within b'0' b'9' c || within b'A' b'F' c || within b'a' b'f' c

pub hex_value : ℕ → ℕ
hex_value c =
    if within b'0' b'9' c
    then c - b'0'
    else if within b'A' b'F' c
    then c - b'A' + 10
    else c - b'a' + 10

unfoldable pub urldecode : Bytes → Bytes
unfolding isxdigit hex_value
urldecode [] = []
urldecode (c ∷ []) = c ∷ []
urldecode (c ∷ d ∷ []) = c ∷ urldecode (d ∷ [])
urldecode (c ∷ d ∷ e ∷ s) =
    let escape = (hex_value d * 16 + hex_value e) ∷ urldecode s in
    let copy = c ∷ urldecode (d ∷ e ∷ s) in
    if c == b'%' && isxdigit d && isxdigit e then escape else copy
