-- ===== src/Acari/Base64/Groups.antt =====
-- A description of base64 by groups of characters, with no index and no buffer.
use arachnida.Base.{
  ℕ, suc, ◌+◌, ◌*◌, ◌/◌, ◌%◌, ◌^◌, ◌<◌, [], ◌∷◌, ◌++◌, Option, some, Bytes, length, get_or, ◌≡◌, ap,
  ◌∙◌, arith,
}
use native.Mathlib.Nat.{mod-eq_of_lt}
use arachnida.Acari.Base64.{sextet, decode_char, value_of, ◌>>=◌, at, set, put}

abbrev pub triple : ℕ → ℕ → ℕ → ℕ
triple a b c = a * 2 ^ 16 + b * 2 ^ 8 + c

unfoldable pub encode_groups : Bytes → Bytes
encode_groups (a ∷ b ∷ c ∷ rest) =
    let curr = triple a b c in
    sextet (curr / 2 ^ 18 % 64)
    ∷ sextet (curr / 2 ^ 12 % 64)
    ∷ sextet (curr / 2 ^ 6 % 64)
    ∷ sextet (curr % 64)
    ∷ encode_groups rest
encode_groups (a ∷ b ∷ []) =
    let curr = a * 2 ^ 16 + b * 2 ^ 8 in
    sextet (curr / 2 ^ 18 % 64)
    ∷ sextet (curr / 2 ^ 12 % 64)
    ∷ sextet (curr / 2 ^ 6 % 64)
    ∷ b'='
    ∷ []
encode_groups (a ∷ []) =
    let curr = a * 2 ^ 16 in
    sextet (curr / 2 ^ 18 % 64) ∷ sextet (curr / 2 ^ 12 % 64) ∷ b'=' ∷ b'=' ∷ []
encode_groups [] = []

get_or-append : (pre r : Bytes) (i : ℕ) → get_or (pre ++ r) (length pre + i) 0 ≡ get_or r i 0
get_or-append [] r i = ap (λ n. get_or r n 0) (omega arith)
get_or-append (x ∷ pre) r i =
    let e : suc (length pre) + i ≡ suc (length pre + i) = omega arith in
    ap (λ n. get_or (x ∷ (pre ++ r)) n 0) e ∙ get_or-append pre r i

set-append : (w r : Bytes) (i v : ℕ) → set (w ++ r) (length w + i) v ≡ w ++ set r i v
set-append [] r i v = ap (λ n. set r n v) (omega arith)
set-append (x ∷ w) r i v =
    let e : suc (length w) + i ≡ suc (length w + i) = omega arith in
    ap (λ n. set (x ∷ (w ++ r)) n v) e ∙ ap (λ t. x ∷ t) (set-append w r i v)

pub at-append :
    (pre r : Bytes) (i : ℕ) → length pre + i < 2 ^ 32 → at (pre ++ r) (length pre) i ≡ get_or r i 0
at-append pre r i h = ap (λ n. get_or (pre ++ r) n 0) (mod-eq_of_lt h) ∙ get_or-append pre r i

pub put-append :
    (w r : Bytes) (i v : ℕ) → length w + i < 2 ^ 32 → put (w ++ r) (length w) i v ≡ w ++ set r i v
put-append w r i v h = ap (λ n. set (w ++ r) n v) (mod-eq_of_lt h) ∙ set-append w r i v

-- What a group without a negative entry decodes to.
unfoldable pub decode_groups : Bytes → Option Bytes
decode_groups [] = some []
decode_groups (w ∷ []) = some []
decode_groups (w ∷ x ∷ []) = do
  value ← value_of (decode_char w) (decode_char x) (some 0) (some 0)
  some (value / 2 ^ 16 % 256 ∷ [])
decode_groups (w ∷ x ∷ y ∷ []) = do
  value ← value_of (decode_char w) (decode_char x) (decode_char y) (some 0)
  some (value / 2 ^ 16 % 256 ∷ value / 2 ^ 8 % 256 ∷ [])
decode_groups (w ∷ x ∷ y ∷ z ∷ rest) = do
  value ← value_of (decode_char w) (decode_char x) (decode_char y) (decode_char z)
  tail ← decode_groups rest
  some (value / 2 ^ 16 % 256 ∷ value / 2 ^ 8 % 256 ∷ value % 256 ∷ tail)
