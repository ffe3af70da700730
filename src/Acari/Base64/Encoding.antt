-- ===== src/Acari/Base64/Encoding.antt =====
-- The loop of base64encode beside the description by groups.
use arachnida.Base.{
  ℕ, zero, suc, ◌+◌, ◌*◌, ◌/◌, ◌%◌, ◌^◌, ◌<◌, ◌≤◌, leb, true, false, [], ◌∷◌, ◌++◌, append_assoc,
  append-nil, some, Bytes, length, length-append, replicate, ◌≡◌, refl, ap, sym, ◌∙◌, arith,
}
use native.Mathlib.Nat.{mod-eq_of_lt}
use arachnida.Acari.Base64.{
  sextet, base64_length, encode_group, encode_one, encode_two, encode_rest, encode_loop, encode,
}
use arachnida.Acari.Base64.Groups.{triple, encode_groups, at-append, put-append}

abbrev pub padding : Bytes → Bytes
padding s = replicate (base64_length (length s)) b'='

padding-group :
    (a b c : ℕ) (s : Bytes) → padding (a ∷ b ∷ c ∷ s) ≡ b'=' ∷ b'=' ∷ b'=' ∷ b'=' ∷ padding s
unfolding base64_length
padding-group a b c s =
    let e : base64_length (suc (suc (suc (length s))))
        ≡ suc (suc (suc (suc (base64_length (length s))))) =
      ground arith in
    ap (λ n. replicate n b'=') e

encode_group-append :
    (pre w : Bytes) (a b c x0 x1 x2 x3 : ℕ) (s r : Bytes)
    → length pre + 3 < 2 ^ 32
    → length w + 4 < 2 ^ 32
    → encode_group (pre ++ a ∷ b ∷ c ∷ s) (length pre) (length w) (w ++ x0 ∷ x1 ∷ x2 ∷ x3 ∷ r)
      ≡ w
        ++ sextet (triple a b c / 2 ^ 18 % 64)
          ∷ sextet (triple a b c / 2 ^ 12 % 64)
          ∷ sextet (triple a b c / 2 ^ 6 % 64)
          ∷ sextet (triple a b c % 64)
          ∷ r
unfolding encode_group
encode_group-append pre w a b c x0 x1 x2 x3 s r h hw =
    let text = a ∷ b ∷ c ∷ s in
    let y0 = sextet (triple a b c / 2 ^ 18 % 64) in
    let y1 = sextet (triple a b c / 2 ^ 12 % 64) in
    let y2 = sextet (triple a b c / 2 ^ 6 % 64) in
    let y3 = sextet (triple a b c % 64) in
    rw (
      at-append pre text 0 (omega arith),
      at-append pre text 1 (omega arith),
      at-append pre text 2 (omega arith),
      put-append w (x0 ∷ x1 ∷ x2 ∷ x3 ∷ r) 0 y0 (omega arith),
      put-append w (y0 ∷ x1 ∷ x2 ∷ x3 ∷ r) 1 y1 (omega arith),
      put-append w (y0 ∷ y1 ∷ x2 ∷ x3 ∷ r) 2 y2 (omega arith),
      put-append w (y0 ∷ y1 ∷ y2 ∷ x3 ∷ r) 3 y3 (omega arith),
    )

loop_goes :
    (fuel : ℕ) (s : Bytes) (pos dest_pos : ℕ) (buffer : Bytes)
    → pos + 3 < 2 ^ 32
    → dest_pos + 4 < 2 ^ 32
    → pos + 3 ≤ length s
    → encode_loop (suc fuel) s pos dest_pos buffer
      ≡ encode_loop fuel s (pos + 3) (dest_pos + 4) (encode_group s pos dest_pos buffer)
unfolding encode_loop
loop_goes fuel s pos dest_pos buffer h hd le =
    let e : leb (pos + 3) (length s) ≡ true = ground arith in
    rw (mod-eq_of_lt h, mod-eq_of_lt hd, e) refl

loop_ends :
    (fuel : ℕ) (s : Bytes) (pos dest_pos : ℕ) (buffer : Bytes)
    → pos + 3 < 2 ^ 32
    → length s < pos + 3
    → encode_loop (suc fuel) s pos dest_pos buffer ≡ some (encode_rest s pos dest_pos buffer)
unfolding encode_loop
loop_ends fuel s pos dest_pos buffer h gt =
    let e : leb (pos + 3) (length s) ≡ false = ground arith in rw (mod-eq_of_lt h, e) refl

encode_two-append :
    (pre w : Bytes) (a b x0 x1 x2 : ℕ) (r : Bytes)
    → length pre + 3 < 2 ^ 32
    → length w + 4 < 2 ^ 32
    → encode_two (pre ++ a ∷ b ∷ []) (length pre) (length w) (w ++ x0 ∷ x1 ∷ x2 ∷ r)
      ≡ w
        ++ sextet ((a * 2 ^ 16 + b * 2 ^ 8) / 2 ^ 18 % 64)
          ∷ sextet ((a * 2 ^ 16 + b * 2 ^ 8) / 2 ^ 12 % 64)
          ∷ sextet ((a * 2 ^ 16 + b * 2 ^ 8) / 2 ^ 6 % 64)
          ∷ r
unfolding encode_two
encode_two-append pre w a b x0 x1 x2 r h hw =
    let curr = a * 2 ^ 16 + b * 2 ^ 8 in
    let y0 = sextet (curr / 2 ^ 18 % 64) in
    let y1 = sextet (curr / 2 ^ 12 % 64) in
    rw (
      at-append pre (a ∷ b ∷ []) 0 (omega arith),
      at-append pre (a ∷ b ∷ []) 1 (omega arith),
      put-append w (x0 ∷ x1 ∷ x2 ∷ r) 0 y0 (omega arith),
      put-append w (y0 ∷ x1 ∷ x2 ∷ r) 1 y1 (omega arith),
      put-append w (y0 ∷ y1 ∷ x2 ∷ r) 2 (sextet (curr / 2 ^ 6 % 64)) (omega arith),
    )

encode_one-append :
    (pre w : Bytes) (a x0 x1 : ℕ) (r : Bytes)
    → length pre + 3 < 2 ^ 32
    → length w + 4 < 2 ^ 32
    → encode_one (pre ++ a ∷ []) (length pre) (length w) (w ++ x0 ∷ x1 ∷ r)
      ≡ w ++ sextet (a * 2 ^ 16 / 2 ^ 18 % 64) ∷ sextet (a * 2 ^ 16 / 2 ^ 12 % 64) ∷ r
unfolding encode_one
encode_one-append pre w a x0 x1 r h hw =
    let y0 = sextet (a * 2 ^ 16 / 2 ^ 18 % 64) in
    rw (
      at-append pre (a ∷ []) 0 (omega arith),
      put-append w (x0 ∷ x1 ∷ r) 0 y0 (omega arith),
      put-append w (y0 ∷ x1 ∷ r) 1 (sextet (a * 2 ^ 16 / 2 ^ 12 % 64)) (omega arith),
    )

rest_none : (s w buffer : Bytes) → encode_rest s (length s) (length w) buffer ≡ buffer
unfolding encode_rest
rest_none s w buffer = ground arith

rest_one :
    (s buffer : Bytes) (pos dest_pos : ℕ)
    → length s ≡ pos + 1
    → encode_rest s pos dest_pos buffer ≡ encode_one s pos dest_pos buffer
unfolding encode_rest
rest_one s buffer pos dest_pos e = ground arith

rest_two :
    (s buffer : Bytes) (pos dest_pos : ℕ)
    → length s ≡ pos + 2
    → encode_rest s pos dest_pos buffer ≡ encode_two s pos dest_pos buffer
unfolding encode_rest
rest_two s buffer pos dest_pos e = ground arith

-- The loop with what follows it, at any group, where no index wraps around.
pub encode_loop-encode_groups :
    (fuel : ℕ) (pre w s : Bytes)
    → length s < fuel
    → length pre + length s + 3 < 2 ^ 32
    → length w + base64_length (length s) + 4 < 2 ^ 32
    → encode_loop fuel (pre ++ s) (length pre) (length w) (w ++ padding s)
      ≡ some (w ++ encode_groups s)
unfolding encode_groups base64_length
encode_loop-encode_groups zero pre w s lt h hw = absurd (omega arith)
encode_loop-encode_groups (suc fuel) pre w [] lt h hw = rw (append-nil pre) (
    loop_ends fuel pre (length pre) (length w) (w ++ []) (omega arith) (omega arith)
    ∙ ap some (rest_none pre w (w ++ [])))
encode_loop-encode_groups (suc fuel) pre w (a ∷ []) lt h hw =
    let s = pre ++ a ∷ [] in
    let n : length s ≡ length pre + 1 = omega (arith, length-append pre (a ∷ [])) in
    loop_ends fuel s (length pre) (length w) (w ++ padding (a ∷ [])) (omega arith) (omega arith)
    ∙ ap some (
        rest_one s (w ++ padding (a ∷ [])) (length pre) (length w) n
        ∙ encode_one-append pre w a b'=' b'=' (b'=' ∷ b'=' ∷ []) (omega arith) (omega arith))
encode_loop-encode_groups (suc fuel) pre w (a ∷ b ∷ []) lt h hw =
    let s = pre ++ a ∷ b ∷ [] in
    let n : length s ≡ length pre + 2 = omega (arith, length-append pre (a ∷ b ∷ [])) in
    loop_ends fuel s (length pre) (length w) (w ++ padding (a ∷ b ∷ [])) (omega arith) (omega arith)
    ∙ ap some (
        rest_two s (w ++ padding (a ∷ b ∷ [])) (length pre) (length w) n
        ∙ encode_two-append pre w a b b'=' b'=' b'=' (b'=' ∷ []) (omega arith) (omega arith))
encode_loop-encode_groups (suc fuel) pre w (a ∷ b ∷ c ∷ s) lt h hw =
    let n = triple a b c in
    let y0 = sextet (n / 2 ^ 18 % 64) in
    let y1 = sextet (n / 2 ^ 12 % 64) in
    let y2 = sextet (n / 2 ^ 6 % 64) in
    let y3 = sextet (n % 64) in
    let whole = pre ++ a ∷ b ∷ c ∷ s in
    let pre' = pre ++ a ∷ b ∷ c ∷ [] in
    let w' = w ++ y0 ∷ y1 ∷ y2 ∷ y3 ∷ [] in
    let e1 : whole ≡ pre' ++ s = sym (append_assoc pre (a ∷ b ∷ c ∷ []) s) in
    let e2 : length pre + 3 ≡ length pre' = omega (arith, length-append pre (a ∷ b ∷ c ∷ [])) in
    let e3 : length w + 4 ≡ length w' = omega (arith, length-append w (y0 ∷ y1 ∷ y2 ∷ y3 ∷ [])) in
    let e4 : w ++ y0 ∷ y1 ∷ y2 ∷ y3 ∷ padding s ≡ w' ++ padding s =
      sym (append_assoc w (y0 ∷ y1 ∷ y2 ∷ y3 ∷ []) (padding s)) in
    ap (λ t. encode_loop (suc fuel) whole (length pre) (length w) (w ++ t)) (padding-group a b c s)
    ∙ loop_goes fuel whole (length pre) (length w) _ (omega arith) (omega arith)
        (omega (arith, length-append pre (a ∷ b ∷ c ∷ s)))
    ∙ ap (encode_loop fuel whole (length pre + 3) (length w + 4)) (
        encode_group-append pre w a b c b'=' b'=' b'=' b'=' s (padding s) (omega arith)
          (omega arith))
    ∙ (λ i. encode_loop fuel (e1 i) (e2 i) (e3 i) (e4 i))
    ∙ encode_loop-encode_groups fuel pre' w' s (omega arith) (omega arith) (ground arith)
    ∙ ap some (append_assoc w (y0 ∷ y1 ∷ y2 ∷ y3 ∷ []) (encode_groups s))

-- On a string of at most 2 ^ 32 - 4 bytes whose `base64_length` is at most 2 ^ 32 - 5, the loop of
-- `base64encode`, with its indices of 32 bits into the string and the buffer, ends. The buffer then holds
-- what `encode_groups` says: four characters for each three bytes, and behind them, where one or two bytes
-- are left, their two or three characters, filled up with `=` to four.
pub encode-encode_groups :
    (s : Bytes)
    → length s + 3 < 2 ^ 32
    → base64_length (length s) + 4 < 2 ^ 32
    → encode s ≡ some (encode_groups s)
unfolding encode
encode-encode_groups s h hw =
    encode_loop-encode_groups (suc (length s)) [] [] s (omega arith) (omega arith) (omega arith)
