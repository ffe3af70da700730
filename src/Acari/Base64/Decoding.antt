-- ===== src/Acari/Base64/Decoding.antt =====
-- The loop of base64decode beside the description by groups, where no character is negative in the table.
use arachnida.Base.{
  ℕ, zero, suc, ◌+◌, ◌/◌, ◌%◌, ◌^◌, ◌<◌, ◌≤◌, leb, true, false, [], ◌∷◌, ◌++◌, append_assoc,
  append-nil, Option, none, some, Bytes, length, length-append, replicate, ◌==◌, ◌≡◌, refl, ap, sym,
  ◌∙◌, arith,
}
use native.Mathlib.Nat.{mod-eq_of_lt}
use arachnida.Acari.Base64.{
  decode_char, value_of, ◌>>=◌, at, put, put_one, put_two, put_three, decode_rest, decode_loop,
  decode_length, decode, strip_padding,
}
use arachnida.Acari.Base64.Groups.{decode_groups, at-append, put-append}

abbrev room : Bytes → Bytes
room s = replicate (decode_length (length s)) b'-'

put_one-append :
    (w : Bytes) (x : ℕ) (r : Bytes) (v : ℕ)
    → length w < 2 ^ 32
    → put_one (w ++ x ∷ r) (length w) v ≡ w ++ v / 2 ^ 16 % 256 ∷ r
put_one-append w x r v h = put-append w (x ∷ r) 0 (v / 2 ^ 16 % 256) (omega arith)

put_two-append :
    (w : Bytes) (x y : ℕ) (r : Bytes) (v : ℕ)
    → length w + 1 < 2 ^ 32
    → put_two (w ++ x ∷ y ∷ r) (length w) v ≡ w ++ v / 2 ^ 16 % 256 ∷ v / 2 ^ 8 % 256 ∷ r
put_two-append w x y r v h =
    let v0 = v / 2 ^ 16 % 256 in
    ap (λ t. put t (length w) 1 (v / 2 ^ 8 % 256)) (put_one-append w x (y ∷ r) v (omega arith))
    ∙ put-append w (v0 ∷ y ∷ r) 1 (v / 2 ^ 8 % 256) (omega arith)

put_three-append :
    (w : Bytes) (x y z : ℕ) (r : Bytes) (v : ℕ)
    → length w + 2 < 2 ^ 32
    → put_three (w ++ x ∷ y ∷ z ∷ r) (length w) v
      ≡ w ++ v / 2 ^ 16 % 256 ∷ v / 2 ^ 8 % 256 ∷ v % 256 ∷ r
put_three-append w x y z r v h =
    let v0 = v / 2 ^ 16 % 256 in
    let v1 = v / 2 ^ 8 % 256 in
    ap (λ t. put t (length w) 2 (v % 256)) (put_two-append w x y (z ∷ r) v (omega arith))
    ∙ put-append w (v0 ∷ v1 ∷ z ∷ r) 2 (v % 256) (omega arith)

room-group : (a b c d : ℕ) (s : Bytes) → room (a ∷ b ∷ c ∷ d ∷ s) ≡ b'-' ∷ b'-' ∷ b'-' ∷ room s
unfolding decode_length
room-group a b c d s =
    let e : decode_length (suc (suc (suc (suc (length s)))))
        ≡ suc (suc (suc (decode_length (length s)))) =
      ground arith in
    ap (λ n. replicate n b'-') e

le→leb : (a b : ℕ) → a ≤ b → leb a b ≡ true
le→leb a b h = ground arith

loop_goes :
    (fuel : ℕ) (s : Bytes) (i j : ℕ) (out : Bytes) (value : ℕ)
    → i + 4 < 2 ^ 32
    → j + 3 < 2 ^ 32
    → i + 4 ≤ length s
    → value_of
        (decode_char (at s i 0))
        (decode_char (at s i 1))
        (decode_char (at s i 2))
        (decode_char (at s i 3))
      ≡ some value
    → decode_loop (suc fuel) s i j out ≡ decode_loop fuel s (i + 4) (j + 3) (put_three out j value)
unfolding decode_loop
loop_goes fuel s i j out value h hj le v =
    let e : leb (i + 4) (length s) ≡ true = le→leb (i + 4) (length s) le in
    rw (decode_loop, mod-eq_of_lt h, e, v, mod-eq_of_lt hj)
      (ap (λ n. decode_loop fuel s n (j + 3) (put_three out j value)) (mod-eq_of_lt h))

loop_ends :
    (fuel : ℕ) (s : Bytes) (i j : ℕ) (out : Bytes)
    → i + 4 < 2 ^ 32
    → length s < i + 4
    → decode_loop (suc fuel) s i j out ≡ some (decode_rest s i j out)
unfolding decode_loop
loop_ends fuel s i j out h gt =
    let e : leb (i + 4) (length s) ≡ false = ground arith in
    rw (decode_loop, mod-eq_of_lt h, e) refl

bind-eq :
    {A B : Type 0} (o : Option A) (f : A → Option B) {b : B}
    → (o >>= f) ≡ some b
    → (a : A) × (o ≡ some a) × (f a ≡ some b)
bind-eq none f e = cc
bind-eq (some a) f e = (a, refl, e)

rest_none : (s : Bytes) (i j : ℕ) (out : Bytes) → length s % 4 ≡ 0 → decode_rest s i j out ≡ out
unfolding decode_rest
rest_none s i j out e = rw (decode_rest, e) refl

rest_two :
    (s : Bytes) (i j : ℕ) (out : Bytes) (v : ℕ)
    → length s % 4 ≡ 2
    → value_of (decode_char (at s i 0)) (decode_char (at s i 1)) (some 0) (some 0) ≡ some v
    → decode_rest s i j out ≡ put_one out j v
unfolding decode_rest
rest_two s i j out v e h = rw (decode_rest, e, h) refl

rest_three :
    (s : Bytes) (i j : ℕ) (out : Bytes) (v : ℕ)
    → length s % 4 ≡ 3
    → value_of (decode_char (at s i 0)) (decode_char (at s i 1)) (decode_char (at s i 2)) (some 0)
      ≡ some v
    → decode_rest s i j out ≡ put_two out j v
unfolding decode_rest
rest_three s i j out v e h = rw (decode_rest, e, h) refl

-- The loop with what follows it, at any group, where no index wraps around.
decode_loop-decode_groups :
    (fuel : ℕ) (pre w s : Bytes) {t : Bytes}
    → length s < fuel
    → length pre % 4 ≡ 0
    → (length s % 4 == 1) ≡ false
    → length pre + length s + 4 < 2 ^ 32
    → length w + length s + 3 < 2 ^ 32
    → decode_groups s ≡ some t
    → decode_loop fuel (pre ++ s) (length pre) (length w) (w ++ room s) ≡ some (w ++ t)
unfolding decode_groups decode_length
decode_loop-decode_groups zero pre w s lt m4 n1 h hw e = absurd (omega arith)
decode_loop-decode_groups (suc fuel) pre w [] {t} lt m4 n1 h hw e =
    let e2 : [] ≡ t = cc in
    rw (append-nil pre) (
      loop_ends fuel pre (length pre) (length w) (w ++ []) (omega arith) (omega arith)
      ∙ ap some (rest_none pre (length pre) (length w) (w ++ []) m4 ∙ ap (λ t. w ++ t) e2))
decode_loop-decode_groups (suc fuel) pre w (a ∷ []) lt m4 n1 h hw e = cc
decode_loop-decode_groups (suc fuel) pre w (a ∷ b ∷ []) {t} lt m4 n1 h hw e =
    let s = a ∷ b ∷ [] in
    let n = length-append pre s in
    let (v, ev, et) = bind-eq (value_of (decode_char a) (decode_char b) (some 0) (some 0)) _ e in
    loop_ends fuel (pre ++ s) (length pre) (length w) (w ++ room s) (omega arith) (omega (arith, n))
    ∙ ap some (
        rest_two (pre ++ s) (length pre) (length w) (w ++ room s) v (omega (arith, n))
          (rw (at-append pre s 0 (omega arith), at-append pre s 1 (omega arith)) ev)
        ∙ put_one-append w b'-' [] v (omega arith)
        ∙ ap (λ t. w ++ t) (cc))
decode_loop-decode_groups (suc fuel) pre w (a ∷ b ∷ c ∷ []) {t} lt m4 n1 h hw e =
    let s = a ∷ b ∷ c ∷ [] in
    let n = length-append pre s in
    let (v, ev, et) =
      bind-eq (value_of (decode_char a) (decode_char b) (decode_char c) (some 0)) _ e in
    loop_ends fuel (pre ++ s) (length pre) (length w) (w ++ room s) (omega arith) (omega (arith, n))
    ∙ ap some (
        rest_three (pre ++ s) (length pre) (length w) (w ++ room s) v (omega (arith, n)) (
          rw
            (
              at-append pre s 0 (omega arith),
              at-append pre s 1 (omega arith),
              at-append pre s 2 (omega arith),
            )
            ev)
        ∙ put_two-append w b'-' b'-' [] v (omega arith)
        ∙ ap (λ t. w ++ t) (cc))
decode_loop-decode_groups (suc fuel) pre w (a ∷ b ∷ c ∷ d ∷ s) {t} lt m4 n1 h hw e =
    let quad = a ∷ b ∷ c ∷ d ∷ [] in
    let text = a ∷ b ∷ c ∷ d ∷ s in
    let whole = pre ++ text in
    let (v, ev, et) =
      bind-eq (value_of (decode_char a) (decode_char b) (decode_char c) (decode_char d)) _ e in
    let (tail, es, et2) = bind-eq (decode_groups s) _ et in
    let read = v / 2 ^ 16 % 256 ∷ v / 2 ^ 8 % 256 ∷ v % 256 ∷ [] in
    let pre' = pre ++ quad in
    let w' = w ++ read in
    let e1 : whole ≡ pre' ++ s = sym (append_assoc pre quad s) in
    let e2 : length pre + 4 ≡ length pre' = omega (arith, length-append pre quad) in
    let e3 : length w + 3 ≡ length w' = omega (arith, length-append w read) in
    let e4 : w ++ (read ++ room s) ≡ w' ++ room s = sym (append_assoc w read (room s)) in
    let same : length s % 4 ≡ length text % 4 = omega arith in
    let done : read ++ tail ≡ t = cc in
    ap (λ r. decode_loop (suc fuel) whole (length pre) (length w) (w ++ r)) (room-group a b c d s)
    ∙ loop_goes fuel whole (length pre) (length w) _ v (omega arith) (omega arith)
        (omega (arith, length-append pre text))
        (rw
          (
            at-append pre text 0 (omega arith),
            at-append pre text 1 (omega arith),
            at-append pre text 2 (omega arith),
            at-append pre text 3 (omega arith),
          )
          ev)
    ∙ ap (decode_loop fuel whole (length pre + 4) (length w + 3))
        (put_three-append w b'-' b'-' b'-' (room s) v (omega arith))
    ∙ (λ i. decode_loop fuel (e1 i) (e2 i) (e3 i) (e4 i))
    ∙ decode_loop-decode_groups fuel pre' w' s (omega arith) (omega arith)
        (ap (λ n. n == 1) same ∙ n1) (omega arith) (omega arith) es
    ∙ ap some (append_assoc w read tail ∙ ap (λ r. w ++ r) done)

-- Where no index wraps around, a text that decodes by groups is decoded to the same.
pub decode-decode_groups :
    (s : Bytes) {t : Bytes}
    → (length (strip_padding s) % 4 == 1) ≡ false
    → length (strip_padding s) + 4 < 2 ^ 32
    → decode_groups (strip_padding s) ≡ some t
    → decode s ≡ some t
unfolding decode
decode-decode_groups s n1 h e =
    let text = strip_padding s in
    rw n1 (
      decode_loop-decode_groups (suc (length text)) [] [] text (omega arith) refl n1 (omega arith)
        (omega arith) e)
