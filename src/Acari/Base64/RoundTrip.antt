-- ===== src/Acari/Base64/RoundTrip.antt =====
-- base64decode after base64encode.
use arachnida.Base.{
  ℕ, zero, suc, ◌+◌, ◌-◌, ◌*◌, ◌/◌, ◌%◌, ◌^◌, ◌<◌, ◌≤◌, Bool, true, false, [], ◌∷◌, ◌++◌, Option,
  none, some, Bytes, length, replicate, ◌==◌, if◌then◌else◌, ◌≡◌, ◌≢◌, refl, ap, ◌∙◌, arith, All,
  IsByte,
}
use arachnida.Base.Check.{holds_below, holds_below_lem}
use arachnida.Acari.Base64.{
  sextet, decode_char, value_of, base64_length, encode, base64encode, strip_padding, decode,
  or_empty, base64decode,
}
use arachnida.Acari.Base64.Groups.{triple, encode_groups, decode_groups}
use arachnida.Acari.Base64.Encoding.{encode-encode_groups}
use arachnida.Acari.Base64.Decoding.{decode-decode_groups}

is_some_eq : Option ℕ → ℕ → Bool
is_some_eq none v = false
is_some_eq (some w) v = w == v

abbrev inverts : ℕ → Bool
inverts v = is_some_eq (decode_char (sextet v)) v

table : holds_below inverts 64 ≡ true
unfolding holds_below is_some_eq decode_char sextet
table = refl

is_some_eq_sound : (o : Option ℕ) (v : ℕ) → is_some_eq o v ≡ true → o ≡ some v
unfolding is_some_eq
is_some_eq_sound none v h = ground arith
is_some_eq_sound (some w) v h = ground arith

decode_char-sextet : (v : ℕ) → v < 64 → decode_char (sextet v) ≡ some v
decode_char-sextet v h = is_some_eq_sound _ v (holds_below_lem inverts 64 v h table)

not_pad : ℕ → Bool
not_pad v = if sextet v == b'=' then false else true

pad_table : holds_below not_pad 64 ≡ true
unfolding holds_below not_pad sextet
pad_table = refl

abbrev IsUnpadded : Bytes → Type 0
IsUnpadded = All (λ c. c ≢ b'=')

sextet-ne : (v : ℕ) → v < 64 → sextet v ≢ b'='
unfolding not_pad
sextet-ne v h = ground (arith, holds_below_lem not_pad 64 v h pad_table)

sextet_mod-ne : (n : ℕ) → sextet (n % 64) ≢ b'='
sextet_mod-ne n = sextet-ne (n % 64) (omega arith)

-- The characters in front of the padding.
characters : Bytes → Bytes
characters (a ∷ b ∷ c ∷ rest) =
    let curr = triple a b c in
    sextet (curr / 2 ^ 18 % 64)
    ∷ sextet (curr / 2 ^ 12 % 64)
    ∷ sextet (curr / 2 ^ 6 % 64)
    ∷ sextet (curr % 64)
    ∷ characters rest
characters (a ∷ b ∷ []) =
    let curr = a * 2 ^ 16 + b * 2 ^ 8 in
    sextet (curr / 2 ^ 18 % 64) ∷ sextet (curr / 2 ^ 12 % 64) ∷ sextet (curr / 2 ^ 6 % 64) ∷ []
characters (a ∷ []) =
    let curr = a * 2 ^ 16 in sextet (curr / 2 ^ 18 % 64) ∷ sextet (curr / 2 ^ 12 % 64) ∷ []
characters [] = []

padding_count : Bytes → ℕ
padding_count (a ∷ b ∷ c ∷ rest) = padding_count rest
padding_count (a ∷ b ∷ []) = 1
padding_count (a ∷ []) = 2
padding_count [] = 0

encode_groups-characters :
    (s : Bytes) → encode_groups s ≡ characters s ++ replicate (padding_count s) b'='
unfolding encode_groups characters padding_count
encode_groups-characters [] = refl
encode_groups-characters (a ∷ []) = refl
encode_groups-characters (a ∷ b ∷ []) = refl
encode_groups-characters (a ∷ b ∷ c ∷ rest) = rw (encode_groups-characters rest) refl

one_over : (n : ℕ) → (suc (suc (suc (suc n))) % 4 == 1) ≡ (n % 4 == 1)
one_over n = ap (λ m. m == 1) (omega arith)

characters-count : (s : Bytes) → (length (characters s) % 4 == 1) ≡ false
unfolding characters
characters-count [] = refl
characters-count (a ∷ []) = refl
characters-count (a ∷ b ∷ []) = refl
characters-count (a ∷ b ∷ c ∷ rest) = one_over (length (characters rest)) ∙ characters-count rest

length-characters : (s : Bytes) → length (characters s) ≤ length s / 3 * 4 + 4
unfolding characters
length-characters [] = omega arith
length-characters (a ∷ []) = omega arith
length-characters (a ∷ b ∷ []) = omega arith
length-characters (a ∷ b ∷ c ∷ rest) = omega (arith, length-characters rest)

characters-IsUnpadded : (s : Bytes) → IsUnpadded (characters s)
unfolding characters
characters-IsUnpadded [] = tt
characters-IsUnpadded (a ∷ []) =
    let n = a * 2 ^ 16 in (sextet_mod-ne (n / 2 ^ 18), (sextet_mod-ne (n / 2 ^ 12), tt))
characters-IsUnpadded (a ∷ b ∷ []) =
    let n = a * 2 ^ 16 + b * 2 ^ 8 in
    (sextet_mod-ne (n / 2 ^ 18), (sextet_mod-ne (n / 2 ^ 12), (sextet_mod-ne (n / 2 ^ 6), tt)))
characters-IsUnpadded (a ∷ b ∷ c ∷ rest) =
    let n = a * 2 ^ 16 + b * 2 ^ 8 + c in
    (
      sextet_mod-ne (n / 2 ^ 18),
      (
        sextet_mod-ne (n / 2 ^ 12),
        (sextet_mod-ne (n / 2 ^ 6), (sextet_mod-ne n, characters-IsUnpadded rest)),
      ),
    )

strip_padding-replicate : (k : ℕ) → strip_padding (replicate k b'=') ≡ []
unfolding strip_padding
strip_padding-replicate zero = refl
strip_padding-replicate (suc k) = rw (strip_padding-replicate k)

strip_padding-append :
    (w : Bytes) (k : ℕ) → IsUnpadded w → strip_padding (w ++ replicate k b'=') ≡ w
unfolding strip_padding
strip_padding-append [] k h = strip_padding-replicate k
strip_padding-append (c ∷ w) k (hc, hw) = ground (arith, strip_padding-append w k hw)

decode_groups-characters : (s : Bytes) → All IsByte s → decode_groups (characters s) ≡ some s
unfolding decode_groups characters value_of
decode_groups-characters [] h = refl
decode_groups-characters (a ∷ []) (ha, _) =
    let n = a * 2 ^ 16 in
    ground (arith, decode_char-sextet (n / 2 ^ 18 % 64), decode_char-sextet (n / 2 ^ 12 % 64))
decode_groups-characters (a ∷ b ∷ []) (ha, (hb, _)) =
    let n = a * 2 ^ 16 + b * 2 ^ 8 in
    ground (
      arith,
      decode_char-sextet (n / 2 ^ 18 % 64),
      decode_char-sextet (n / 2 ^ 12 % 64),
      decode_char-sextet (n / 2 ^ 6 % 64),
    )
decode_groups-characters (a ∷ b ∷ c ∷ rest) (ha, (hb, (hc, hr))) =
    let n = a * 2 ^ 16 + b * 2 ^ 8 + c in
    ground (
      arith,
      decode_char-sextet (n / 2 ^ 18 % 64),
      decode_char-sextet (n / 2 ^ 12 % 64),
      decode_char-sextet (n / 2 ^ 6 % 64),
      decode_char-sextet (n % 64),
      decode_groups-characters rest hr,
    )

base64_length-bound : (n : ℕ) → n < 3 * 2 ^ 30 - 6 → base64_length n + 4 < 2 ^ 32
unfolding base64_length
base64_length-bound n h = ground arith

encode-characters :
    (s : Bytes)
    → length s < 3 * 2 ^ 30 - 6
    → encode s ≡ some (characters s ++ replicate (padding_count s) b'=')
encode-characters s h =
    encode-encode_groups s (omega arith) (base64_length-bound (length s) h)
    ∙ ap some (encode_groups-characters s)

decode-characters :
    (s : Bytes) (k : ℕ)
    → All IsByte s
    → length s < 3 * 2 ^ 30 - 6
    → decode (characters s ++ replicate k b'=') ≡ some s
decode-characters s k h bound =
    let e = strip_padding-append (characters s) k (characters-IsUnpadded s) in
    decode-decode_groups (characters s ++ replicate k b'=')
      (ap (λ t. length t % 4 == 1) e ∙ characters-count s)
      (rw e (omega (arith, length-characters s)))
      (ap decode_groups e ∙ decode_groups-characters s h)

-- Every string of fewer than 3 * 2 ^ 30 - 6 bytes is decoded from its own encoding: the loop of
-- `base64encode` ends on it, the loop of `base64decode` ends on the text that it gives, and that
-- gives the string back.
pub base64decode-base64encode :
    (s : Bytes)
    → All IsByte s
    → length s < 3 * 2 ^ 30 - 6
    → (t : Bytes) × (encode s ≡ some t)
      × (base64encode s ≡ t)
      × (decode t ≡ some s)
      × (base64decode (base64encode s) ≡ s)
unfolding base64decode base64encode or_empty
base64decode-base64encode s h bound =
    let t = characters s ++ replicate (padding_count s) b'=' in
    let e = encode-characters s bound in
    let d = decode-characters s (padding_count s) h bound in
    let te = ap or_empty e in (t, e, te, d, ap (λ u. or_empty (decode u)) te ∙ ap or_empty d)
