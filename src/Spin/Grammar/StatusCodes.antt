-- ===== src/Spin/Grammar/StatusCodes.antt =====
-- The rule `Status_Code_`: the codes of the specification, or any other three digits.
use arachnida.Base.{
  ℕ, zero, suc, Bool, true, false, ◌&&◌, ◌∷◌, [], Bytes, length, take, drop, within, str_eq, ◌==◌,
  str_eq_iff, ◌≡◌, refl, arith, ◌⊎◌, inl, inr, Bool-cases, if◌then◌else◌,
}
use mathlib.Core.Path.{subst}
use arachnida.Spin.Grammar.{Parser, str_p, ◌<|>◌, times}
use arachnida.Spin.Grammar.Basic.{digit}
use arachnida.Spin.Grammar.Messages.{extension_code, status_code}
use arachnida.Spin.Grammar.Spirit.{Outcome, miss, hit, IsSpirit}
use arachnida.Spin.Grammar.Sound.{run_str_sound}

-- As many decimal digits at the start of the text.
unfoldable pub starts_with_digits : ℕ → Bytes → Bool
starts_with_digits zero s = true
starts_with_digits (suc n) [] = false
starts_with_digits (suc n) (c ∷ s) = within b'0' b'9' c && starts_with_digits n s

-- A choice of texts of three digits each.
codes_only : Parser → Bool
codes_only (str_p t) = length t == 3 && starts_with_digits 3 t
codes_only (p <|> q) = codes_only p && codes_only q
codes_only _ = false

starts_with_digits-take :
    (n : ℕ) (s : Bytes) → starts_with_digits n (take n s) ≡ true → starts_with_digits n s ≡ true
unfolding starts_with_digits
starts_with_digits-take zero s h = refl
starts_with_digits-take (suc n) [] h = h
starts_with_digits-take (suc n) (c ∷ s) h = ground (arith, starts_with_digits-take n s)

first_choice : Parser → Parser
first_choice (p <|> q) = p
first_choice p = p

-- The codes that the rule lists.
abbrev listed : Parser
unfolding first_choice status_code
listed = first_choice status_code

module _ {Parses : Parser → ℕ → Bytes → Outcome → Type 0} (spirit : IsSpirit Parses) where
  -- A match of three digits, or none.
  abbrev MayTake : Parser → ℕ → Bytes → Type 0
  MayTake p k s =
      ((starts_with_digits 3 s ≡ true) × Parses p k s (hit k (drop 3 s))) ⊎ Parses p k s (miss k)

  times-digits :
      (n k : ℕ) (s : Bytes)
      → Parses (times n digit) k s (if starts_with_digits n s then hit k (drop n s) else miss k)
  unfolding starts_with_digits digit
  times-digits zero k s = spirit.times_zero digit k s
  times-digits (suc n) k [] =
      spirit.times_suc n digit k [] (miss k)
        (spirit.seq_miss digit (times n digit) k k [] (spirit.range_end b'0' b'9' k))
  times-digits (suc n) k (c ∷ s) = elim (Bool-cases (within b'0' b'9' c)) [
    | inl e ↦ rw e (
        spirit.times_suc n digit k (c ∷ s) _ (
          spirit.seq digit (times n digit) k k (c ∷ s) s _ (spirit.in_range b'0' b'9' c k s e)
            (times-digits n k s)))
    | inr e ↦ rw e (
        spirit.times_suc n digit k (c ∷ s) (miss k)
          (spirit.seq_miss digit (times n digit) k k (c ∷ s) (spirit.off_range b'0' b'9' c k s e)))
  ]

  str_p-MayTake :
      (t : Bytes) (k : ℕ) (s : Bytes) → codes_only (str_p t) ≡ true → MayTake (str_p t) k s
  unfolding codes_only
  str_p-MayTake t k s h = elim (Bool-cases (str_eq (take (length t) s) t)) [
    | inl e ↦
        let n : length t ≡ 3 = ground arith in
        let q : take 3 s ≡ t =
          subst (λ n. take n s ≡ t) n ((str_eq_iff (take (length t) s) t).0 e) in
        inl (
          starts_with_digits-take 3 s (rw q (ground arith)),
          run_str_sound spirit t k s (rw (e, n) refl),
        )
    | inr e ↦ inr (spirit.str_other t k s e)
  ]

  codes_only-MayTake : (p : Parser) (k : ℕ) (s : Bytes) → codes_only p ≡ true → MayTake p k s
  unfolding codes_only
  codes_only-MayTake (str_p t) k s h = str_p-MayTake t k s (unfold codes_only in h)
  codes_only-MayTake (p <|> q) k s h = elim (codes_only-MayTake p k s (ground arith)) [
    | inl (d, m) ↦ inl (d, spirit.first p q k k s (drop 3 s) m)
    | inr m ↦ elim (codes_only-MayTake q k s (ground arith)) [
      | inl (d, m2) ↦ inl (d, spirit.second p q k k s (hit k (drop 3 s)) m m2)
      | inr m2 ↦ inr (spirit.second p q k k s (miss k) m m2)
    ]
  ]
  codes_only-MayTake _ k s h = cc

  -- The rule takes exactly the texts that start with three decimal digits, and of these the three digits:
  -- all codes that it lists are such texts. Spirit's combinators do what is documented of them.
  pub status_code-digits :
      (k : ℕ) (s : Bytes)
      → Parses status_code k s (if starts_with_digits 3 s then hit k (drop 3 s) else miss k)
  unfolding first_choice status_code
  status_code-digits k s =
      elim (codes_only-MayTake listed k s (unfold codes_only starts_with_digits in refl)) [
        | inl (d, m) ↦ rw d (spirit.first listed extension_code k k s (drop 3 s) m)
        | inr m ↦
            spirit.second listed extension_code k k s _ m
              (unfold extension_code in times-digits 3 k s)
      ]
