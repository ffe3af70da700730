-- ===== src/Acari/Base64.antt =====
-- lib/Acari/base64encode.cpp. A 24-bit group is a number, `x << k` is `x * 2 ^ k`, the `|` of
-- disjoint bit fields is `+`, and `(x & mask) >> k` is `x / 2 ^ k` reduced by the width of the mask.
pub mod Groups
pub mod Encoding
pub mod Decoding
pub mod RoundTrip
use arachnida.Base.{
  ℕ, zero, suc, leb, ◌+◌, ◌-◌, ◌*◌, ◌/◌, ◌%◌, ◌^◌, Bool, true, false, List, [], ◌∷◌, ◌++◌, Option,
  none, some, Bytes, codes, length, get_or, replicate, ◌==◌, ◌&&◌, if◌then◌else◌,
}

abbrev pub base64_characters : Bytes
base64_characters = codes "ABCDEFGHIJKLMNOPQRSTUVWXYZabcdefghijklmnopqrstuvwxyz0123456789+/"

-- `(char)-1`
abbrev pub minus_one : ℕ
minus_one = 255

abbrev pub blank_row : List ℕ
blank_row = replicate 16 minus_one

-- Rows of sixteen, as in the source.
abbrev pub decode_characters : List ℕ
decode_characters =
    blank_row
    ++ (blank_row
        ++ (255 ∷ 255 ∷ 255 ∷ 255 ∷ 255 ∷ 255 ∷ 255 ∷ 255 ∷ 255 ∷ 255 ∷ 255 ∷ 62 ∷ 255 ∷ 255 ∷ 255
            ∷ 63 ∷ 52 ∷ 53 ∷ 54 ∷ 55 ∷ 56 ∷ 57 ∷ 58 ∷ 59 ∷ 60 ∷ 61 ∷ 255 ∷ 255 ∷ 255 ∷ 255 ∷ 255
            ∷ 255 ∷ 255 ∷ 0 ∷ 1 ∷ 2 ∷ 3 ∷ 4 ∷ 5 ∷ 6 ∷ 7 ∷ 8 ∷ 9 ∷ 10 ∷ 11 ∷ 12 ∷ 13 ∷ 14 ∷ 15 ∷ 16
            ∷ 17 ∷ 18 ∷ 19 ∷ 20 ∷ 21 ∷ 22 ∷ 23 ∷ 24 ∷ 25 ∷ 255 ∷ 255 ∷ 255 ∷ 255 ∷ 255 ∷ 255 ∷ 26
            ∷ 27 ∷ 28 ∷ 29 ∷ 30 ∷ 31 ∷ 32 ∷ 33 ∷ 34 ∷ 35 ∷ 36 ∷ 37 ∷ 38 ∷ 39 ∷ 40 ∷ 41 ∷ 42 ∷ 43
            ∷ 44 ∷ 45 ∷ 46 ∷ 47 ∷ 48 ∷ 49 ∷ 50 ∷ 51 ∷ 255 ∷ 255 ∷ 255 ∷ 255 ∷ 255 ∷ []))
    ++ replicate 128 minus_one

unfoldable pub sextet : ℕ → ℕ
sextet v = get_or base64_characters v 0

-- The entry of the table, `none` where it is negative.
unfoldable pub decode_char : ℕ → Option ℕ
decode_char c =
    let v = get_or decode_characters c minus_one in if v == minus_one then none else some v

-- `base64_length`
unfoldable pub base64_length : ℕ → ℕ
base64_length n = n / 3 * 4 + (if n % 3 == 0 then 0 else 4)

-- `unsigned int`
abbrev pub word : ℕ → ℕ
word n = n % 2 ^ 32

-- `p[i + offset]` with an index of type `unsigned int`
abbrev pub at : Bytes → ℕ → ℕ → ℕ
at s i offset = get_or s (word (i + offset)) 0

abbrev pub set : Bytes → ℕ → ℕ → Bytes
set [] i v = []
set (x ∷ s) zero v = v ∷ s
set (x ∷ s) (suc i) v = x ∷ set s i v

-- The write `offset` behind the index of the destination, which each write increments.
abbrev pub put : Bytes → ℕ → ℕ → ℕ → Bytes
put s i offset v = set s (word (i + offset)) v

-- The body of the loop.
unfoldable pub encode_group : Bytes → ℕ → ℕ → Bytes → Bytes
unfolding sextet
encode_group char_data pos dest_pos buffer =
    let curr = at char_data pos 0 * 2 ^ 16 + at char_data pos 1 * 2 ^ 8 + at char_data pos 2 in
    let b1 = put buffer dest_pos 0 (sextet (curr / 2 ^ 18 % 64)) in
    let b2 = put b1 dest_pos 1 (sextet (curr / 2 ^ 12 % 64)) in
    let b3 = put b2 dest_pos 2 (sextet (curr / 2 ^ 6 % 64)) in
    put b3 dest_pos 3 (sextet (curr % 64))

unfoldable pub encode_two : Bytes → ℕ → ℕ → Bytes → Bytes
unfolding sextet
encode_two char_data pos dest_pos buffer =
    let curr = at char_data pos 0 * 2 ^ 16 + at char_data pos 1 * 2 ^ 8 in
    let b1 = put buffer dest_pos 0 (sextet (curr / 2 ^ 18 % 64)) in
    let b2 = put b1 dest_pos 1 (sextet (curr / 2 ^ 12 % 64)) in
    put b2 dest_pos 2 (sextet (curr / 2 ^ 6 % 64))

unfoldable pub encode_one : Bytes → ℕ → ℕ → Bytes → Bytes
unfolding sextet
encode_one char_data pos dest_pos buffer =
    let curr = at char_data pos 0 * 2 ^ 16 in
    put (put buffer dest_pos 0 (sextet (curr / 2 ^ 18 % 64))) dest_pos 1
      (sextet (curr / 2 ^ 12 % 64))

-- The remaining characters, behind the loop.
unfoldable pub encode_rest : Bytes → ℕ → ℕ → Bytes → Bytes
unfolding encode_two encode_one
encode_rest char_data pos dest_pos buffer =
    if pos == length char_data
    then buffer
    else if length char_data - pos == 2
    then encode_two char_data pos dest_pos buffer
    else encode_one char_data pos dest_pos buffer

-- `none`: the loop has taken all its rounds. Where `pos + 3` wraps around it never ends.
unfoldable pub encode_loop : ℕ → Bytes → ℕ → ℕ → Bytes → Option Bytes
unfolding encode_group encode_rest
encode_loop zero char_data pos dest_pos buffer = none
encode_loop (suc fuel) char_data pos dest_pos buffer =
    let next =
      encode_loop fuel char_data (word (pos + 3)) (word (dest_pos + 4))
        (encode_group char_data pos dest_pos buffer) in
    if leb (word (pos + 3)) (length char_data)
    then next
    else some (encode_rest char_data pos dest_pos buffer)

-- The buffer holds `base64_length` padding characters, which are overwritten from the front.
unfoldable pub encode : Bytes → Option Bytes
unfolding encode_loop base64_length
encode data_ =
    encode_loop (suc (length data_)) data_ 0 0 (replicate (base64_length (length data_)) b'=')

-- The value of the model where a loop does not end is the empty string.
pub or_empty : Option Bytes → Bytes
or_empty none = []
or_empty (some s) = s

unfoldable pub base64encode : Bytes → Bytes
unfolding encode or_empty
base64encode data_ = or_empty (encode data_)

pub is_empty : Bytes → Bool
is_empty [] = true
is_empty _ = false

-- `while (length > 0 && base64_unsigned[length-1] == '=') length--;`
unfoldable pub strip_padding : Bytes → Bytes
unfolding is_empty
strip_padding [] = []
strip_padding (c ∷ s) =
    let rest = strip_padding s in if is_empty rest && c == b'=' then [] else c ∷ rest

infixl 5 ◌>>=◌
abbrev pub ◌>>=◌ : {A B : Type 0} → Option A → (A → Option B) → Option B
none >>= f = none
some a >>= f = f a

-- `value`, which is negative if an entry of the table is: `none`.
unfoldable pub value_of : Option ℕ → Option ℕ → Option ℕ → Option ℕ → Option ℕ
value_of e0 e1 e2 e3 = do
  p ← e0
  q ← e1
  r ← e2
  s ← e3
  some (p * 2 ^ 18 + q * 2 ^ 12 + r * 2 ^ 6 + s)

abbrev pub put_three : Bytes → ℕ → ℕ → Bytes
put_three out i value =
    put (put (put out i 0 (value / 2 ^ 16 % 256)) i 1 (value / 2 ^ 8 % 256)) i 2 (value % 256)

abbrev pub put_two : Bytes → ℕ → ℕ → Bytes
put_two out i value = put (put out i 0 (value / 2 ^ 16 % 256)) i 1 (value / 2 ^ 8 % 256)

abbrev pub put_one : Bytes → ℕ → ℕ → Bytes
put_one out i value = put out i 0 (value / 2 ^ 16 % 256)

abbrev pub written : Option ℕ → (ℕ → Bytes) → Bytes
written none write = []
written (some value) write = write value

-- The remaining characters, behind the loop: two make a byte, three make two.
unfoldable pub decode_rest : Bytes → ℕ → ℕ → Bytes → Bytes
unfolding value_of decode_char
decode_rest s index destination_index out =
    let e0 = decode_char (at s index 0) in
    let e1 = decode_char (at s index 1) in
    let e2 = decode_char (at s index 2) in
    if length s % 4 == 2
    then written (value_of e0 e1 (some 0) (some 0)) (put_one out destination_index)
    else if length s % 4 == 3
    then written (value_of e0 e1 e2 (some 0)) (put_two out destination_index)
    else out

-- `none`: the loop has taken all its rounds.
unfoldable pub decode_loop : ℕ → Bytes → ℕ → ℕ → Bytes → Option Bytes
unfolding decode_rest value_of decode_char
decode_loop zero s index destination_index out = none
decode_loop (suc fuel) s index destination_index out = elim (leb (word (index + 4)) (length s)) [
  | true ↦
      elim (value_of (decode_char (at s index 0)) (decode_char (at s index 1))
        (decode_char (at s index 2)) (decode_char (at s index 3))) [
          | none ↦ some []
          | some value ↦
              decode_loop fuel s (word (index + 4)) (word (destination_index + 3))
                (put_three out destination_index value)
        ]
  | false ↦ some (decode_rest s index destination_index out)
]

unfoldable pub decode_length : ℕ → ℕ
decode_length n = n / 4 * 3 + (if n % 4 == 2 then 1 else if n % 4 == 3 then 2 else 0)

-- A negative entry of the table gives the empty string, as does one character over.
unfoldable pub decode : Bytes → Option Bytes
unfolding strip_padding decode_loop decode_length
decode data_ =
    let s = strip_padding data_ in
    let n = length s in
    if n % 4 == 1 then some [] else decode_loop (suc n) s 0 0 (replicate (decode_length n) b'-')

unfoldable pub base64decode : Bytes → Bytes
unfolding decode or_empty
base64decode s = or_empty (decode s)
