-- ===== src/Spin/Address/Texts.antt =====
-- What the strings of addresses and ports tell apart.
use arachnida.Base.{
  ℕ, ◌-◌, ◌*◌, ◌+◌, ◌≤◌, true, false, [], ◌∷◌, ◌++◌, append_assoc, Bytes, codes, All, All-append,
  ◌==◌, ◌≡◌, ◌≢◌, refl, sym, ap, ◌∙◌, arith, Bool-cases, inl, inr, if◌then◌else◌,
}
use mathlib.Core.Path.{subst}
use arachnida.Spin.Address.{
  Address, is_any, dotted, connect_target, connect_ssl_target, construct_local_address,
}

abbrev pub digits_value : ℕ → Bytes → ℕ
digits_value n [] = n
digits_value n (c ∷ s) = digits_value (n * 10 + (c - b'0')) s

abbrev pub IsDigit : ℕ → Type 0
IsDigit c = (b'0' ≤ c) × (c ≤ b'9')

-- What boost documents of the format of a number: it is written in decimal digits.
pub record IsDecimal (to_text : ℕ → Bytes) : Type 0 where
  pub digits : (n : ℕ) → All IsDigit (to_text n)
  pub value : (n : ℕ) → digits_value 0 (to_text n) ≡ n

abbrev of_bytes : ℕ → ℕ → ℕ → ℕ → Address
of_bytes b0 b1 b2 b3 = record { u8_0 = b0; u8_1 = b1; u8_2 = b2; u8_3 = b3 }

address_ext :
    (a b : Address) → a.u8_0 ≡ b.u8_0 → a.u8_1 ≡ b.u8_1 → a.u8_2 ≡ b.u8_2 → a.u8_3 ≡ b.u8_3 → a ≡ b
address_ext a b e0 e1 e2 e3 =
    ap (λ x. of_bytes x a.u8_1 a.u8_2 a.u8_3) e0
    ∙ ap (λ x. of_bytes b.u8_0 x a.u8_2 a.u8_3) e1
    ∙ ap (λ x. of_bytes b.u8_0 b.u8_1 x a.u8_3) e2
    ∙ ap (λ x. of_bytes b.u8_0 b.u8_1 b.u8_2 x) e3

zeros : (a : Address) → is_any a ≡ true → (a.u8_0 ≡ 0) × (a.u8_1 ≡ 0) × (a.u8_2 ≡ 0) × (a.u8_3 ≡ 0)
unfolding is_any
zeros a h = ground arith

is_any-zero : (a b : Address) → is_any a ≡ true → is_any b ≡ true → a ≡ b
is_any-zero a b ha hb =
    let (a0, a1, a2, a3) = zeros a ha in
    let (b0, b1, b2, b3) = zeros b hb in
    address_ext a b (a0 ∙ sym b0) (a1 ∙ sym b1) (a2 ∙ sym b2) (a3 ∙ sym b3)

abbrev Lacks : ℕ → Bytes → Type 0
Lacks c = All (λ x. x ≢ c)

-- Two texts up to the first of a character that they lack.
split_at :
    (c : ℕ) (xs ys s t : Bytes)
    → Lacks c xs
    → Lacks c ys
    → xs ++ (c ∷ s) ≡ ys ++ (c ∷ t)
    → (xs ≡ ys) × (s ≡ t)
split_at c [] [] s t hx hy e = (refl, cc)
split_at c [] (y ∷ ys) s t hx (hy, hs) e = let same : y ≡ c = cc in absurd (hy same)
split_at c (x ∷ xs) [] s t (hx, hs) hy e = let same : x ≡ c = cc in absurd (hx same)
split_at c (x ∷ xs) (y ∷ ys) s t (hx, hxs) (hy, hys) e =
    let tails : xs ++ (c ∷ s) ≡ ys ++ (c ∷ t) = cc in
    let heads : x ≡ y = cc in
    let (same, rest) = split_at c xs ys s t hxs hys tails in (rw (heads, same) refl, rest)

digits-Lacks : (c : ℕ) (s : Bytes) → ¬ IsDigit c → All IsDigit s → Lacks c s
digits-Lacks c [] n h = tt
digits-Lacks c (x ∷ s) n (hx, h) = (λ e. n (subst IsDigit e hx), digits-Lacks c s n h)

Lacks-append : (c : ℕ) (xs ys : Bytes) → Lacks c xs → Lacks c ys → Lacks c (xs ++ ys)
Lacks-append c xs ys = All-append (λ x. x ≢ c) xs ys

module _ (to_text : ℕ → Bytes) (decimal : IsDecimal to_text) where
  to_text-injective : (m n : ℕ) → to_text m ≡ to_text n → m ≡ n
  to_text-injective m n e = sym (decimal.value m) ∙ ap (digits_value 0) e ∙ decimal.value n

  to_text-Lacks : (c n : ℕ) → ¬ IsDigit c → Lacks c (to_text n)
  to_text-Lacks c n h = digits-Lacks c (to_text n) h (decimal.digits n)

  dotted-Lacks : (c : ℕ) (a : Address) → ¬ IsDigit c → c ≢ b'.' → Lacks c (dotted to_text a)
  dotted-Lacks c a n ne =
      let dot : b'.' ≢ c = λ e. ne (sym e) in
      Lacks-append c (to_text a.u8_0) _ (to_text-Lacks c a.u8_0 n) (
        dot,
        Lacks-append c (to_text a.u8_1) _ (to_text-Lacks c a.u8_1 n) (
          dot,
          Lacks-append c (to_text a.u8_2) _ (to_text-Lacks c a.u8_2 n)
              (dot, to_text-Lacks c a.u8_3 n),
        ),
      )

  dotted-injective : (a b : Address) → dotted to_text a ≡ dotted to_text b → a ≡ b
  dotted-injective a b e =
      let no_dot : ¬ IsDigit b'.' = λ h. omega arith in
      let (e0, r0) =
        split_at b'.' (to_text a.u8_0) (to_text b.u8_0) _ _ (to_text-Lacks b'.' a.u8_0 no_dot)
          (to_text-Lacks b'.' b.u8_0 no_dot) e in
      let (e1, r1) =
        split_at b'.' (to_text a.u8_1) (to_text b.u8_1) _ _ (to_text-Lacks b'.' a.u8_1 no_dot)
          (to_text-Lacks b'.' b.u8_1 no_dot) r0 in
      let (e2, e3) =
        split_at b'.' (to_text a.u8_2) (to_text b.u8_2) _ _ (to_text-Lacks b'.' a.u8_2 no_dot)
          (to_text-Lacks b'.' b.u8_2 no_dot) r1 in
      let same0 = to_text-injective a.u8_0 b.u8_0 e0 in
      let same1 = to_text-injective a.u8_1 b.u8_1 e1 in
      let same2 = to_text-injective a.u8_2 b.u8_2 e2 in
      let same3 = to_text-injective a.u8_3 b.u8_3 e3 in address_ext a b same0 same1 same2 same3

  no_star : (text : Bytes) → Lacks b'*' text → ¬ (codes "*" ≡ text)
  no_star text h e = (subst (Lacks b'*') (sym e) h).0 refl

  star : ¬ IsDigit b'*'
  star h = omega arith

  colon : ¬ IsDigit b':'
  colon h = omega arith

  abbrev host_text : Address → Bytes
  host_text a = if is_any a then codes "*" else dotted to_text a

  abbrev port_text : ℕ → Bytes
  port_text p = if p == 0 then codes "*" else to_text p

  host_text-Lacks : (a : Address) → Lacks b':' (host_text a)
  host_text-Lacks a = elim (Bool-cases (is_any a)) [
    | inl u ↦ rw u ((λ e. omega arith), tt)
    | inr u ↦ rw u (dotted-Lacks b':' a colon (λ e. omega arith))
  ]

  host_text-injective : (a b : Address) → host_text a ≡ host_text b → a ≡ b
  host_text-injective a b e = elim (Bool-cases (is_any a)) [
    | inl u ↦ elim (Bool-cases (is_any b)) [
      | inl v ↦ is_any-zero a b u v
      | inr v ↦ absurd (
          no_star (dotted to_text b) (dotted-Lacks b'*' b star (λ e. omega arith))
            (sym (host_any a u) ∙ e ∙ host_dotted b v))
    ]
    | inr u ↦ elim (Bool-cases (is_any b)) [
      | inl v ↦ absurd (
          no_star (dotted to_text a) (dotted-Lacks b'*' a star (λ e. omega arith))
            (sym (host_any b v) ∙ sym e ∙ host_dotted a u))
      | inr v ↦ dotted-injective a b (sym (host_dotted a u) ∙ e ∙ host_dotted b v)
    ]
  ]
    where
      host_any : (a : Address) → is_any a ≡ true → host_text a ≡ codes "*"
      host_any a u = rw u

      host_dotted : (a : Address) → is_any a ≡ false → host_text a ≡ dotted to_text a
      host_dotted a u = rw u

  port_any : (p : ℕ) → (p == 0) ≡ true → port_text p ≡ codes "*"
  port_any p u = rw u

  port_digits : (p : ℕ) → (p == 0) ≡ false → port_text p ≡ to_text p
  port_digits p u = rw u

  port_text-injective : (p q : ℕ) → port_text p ≡ port_text q → p ≡ q
  port_text-injective p q e = elim (Bool-cases (p == 0)) [
    | inl u ↦ elim (Bool-cases (q == 0)) [
      | inl v ↦ ground arith
      | inr v ↦ absurd (
          no_star (to_text q) (to_text-Lacks b'*' q star)
            (sym (port_any p u) ∙ e ∙ port_digits q v))
    ]
    | inr u ↦ elim (Bool-cases (q == 0)) [
      | inl v ↦ absurd (
          no_star (to_text p) (to_text-Lacks b'*' p star)
            (sym (port_any q v) ∙ sym e ∙ port_digits p u))
      | inr v ↦ to_text-injective p q (sym (port_digits p u) ∙ e ∙ port_digits q v)
    ]
  ]

  -- A byte written as a character, and in digits.
  one_differs : (n : ℕ) → n ∷ [] ≢ to_text n
  one_differs n e =
      let digit : IsDigit n = (subst (All IsDigit) (sym e) (decimal.digits n)).0 in
      let value : 0 * 10 + (n - b'0') ≡ n = ap (digits_value 0) e ∙ decimal.value n in omega arith

  dot_differs : (text s t : Bytes) → All IsDigit text → text ≢ [] → b'.' ∷ s ≢ text ++ t
  dot_differs [] s t h ne e = ne refl
  dot_differs (x ∷ text) s t (hx, h) ne e = let same : b'.' ≡ x = cc in omega arith

  first_differs : (n : ℕ) (s t : Bytes) → n ∷ b'.' ∷ s ≢ to_text n ++ (b'.' ∷ t)
  first_differs n s t e = elim (Bool-cases (n == b'.')) [
    | inl u ↦
        let dot : n ≡ b'.' = ground arith in
        dot_differs (to_text n) (b'.' ∷ s) (b'.' ∷ t) (decimal.digits n)
          (λ empty.
            let value : 0 ≡ n = ap (digits_value 0) (sym empty) ∙ decimal.value n in omega arith)
          (ap (λ x. x ∷ b'.' ∷ s) (sym dot) ∙ e)
    | inr u ↦
        one_differs n
          (split_at b'.' (n ∷ []) (to_text n) s t ((λ same. ground arith), tt)
            (to_text-Lacks b'.' n (λ h. omega arith)) e).0
  ]

  -- A listener's address and port can be told from the string that they are turned into, which is the
  -- one that OpenSSL gets: no two different pairs have the same, with stars for any address and any
  -- port. Numbers are written in decimal digits.
  pub construct_local_address-injective :
      (a b : Address) (p q : ℕ)
      → construct_local_address to_text a p ≡ construct_local_address to_text b q
      → (a ≡ b) × (p ≡ q)
  unfolding construct_local_address
  construct_local_address-injective a b p q e =
      let (hosts, ports) =
        split_at b':' (host_text a) (host_text b) (port_text p) (port_text q) (host_text-Lacks a)
          (host_text-Lacks b) e in
      (host_text-injective a b hosts, port_text-injective p q ports)

  -- With a security context, `Connector::connect` of an address never gives OpenSSL the target that it
  -- gives without one: the four bytes are written as characters. Numbers are written in decimal digits.
  pub connect_ssl_target-differs :
      (a : Address) (p : ℕ) → connect_ssl_target to_text a p ≢ connect_target to_text a p
  unfolding connect_ssl_target connect_target
  connect_ssl_target-differs a p e =
      first_differs a.u8_0 _ _ (e ∙ append_assoc (to_text a.u8_0) _ (b':' ∷ to_text p))
