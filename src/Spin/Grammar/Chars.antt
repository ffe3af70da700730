-- ===== src/Spin/Grammar/Chars.antt =====
-- Parsers that look at one character: what they take, as a test on the character, and repetitions of
-- them.
use arachnida.Base.{
  ℕ, Bool, true, false, ◌∷◌, [], ◌++◌, Option, none, some, Bytes, within, ◌==◌, All, str_eq, ◌≡◌,
  refl, arith,
}
use mathlib.Core.Path.{subst}
use arachnida.Spin.Grammar.{
  Parser, ch_p, str_p, range_p, ◌>>◌, ◌<|>◌, ◌<->◌, kleene, positive, never,
}
use arachnida.Spin.Grammar.Spirit.{Outcome, miss, hit, IsSpirit}
use arachnida.Spin.Grammar.Sound.{run_ch_sound}

abbrev pub or_else : Option Bool → Option Bool → Option Bool
or_else none b = none
or_else (some true) b = some true
or_else (some false) b = b

abbrev pub before : Option Bool → Option Bool
before none = none
before (some true) = none
before (some false) = some false

abbrev pub but : Option Bool → Option Bool → Option Bool
but (some false) b = some false
but (some true) (some true) = some false
but (some true) (some false) = some true
but _ _ = none

-- `some true`: the parser takes the character and no more; `some false`: it misses; `none`: it may
-- look further.
unfoldable pub takes : Parser → ℕ → Option Bool
takes (ch_p c) d = some (d == c)
takes (range_p lo hi) d = some (within lo hi d)
takes (p <|> q) d = or_else (takes p d) (takes q d)
takes (p <-> q) d = but (takes p d) (takes q d)
takes (p >> q) d = before (takes p d)
takes (positive p) d = before (takes p d)
takes (str_p (c ∷ t)) d = before (some (d == c))
takes never d = some false
takes _ d = none

abbrev IsTaken : (ℕ → Bytes → Outcome → Type 0) → Option Bool → ℕ → Bytes → ℕ → Type 0
IsTaken P none c s k = Unit
IsTaken P (some true) c s k = P k (c ∷ s) (hit k s)
IsTaken P (some false) c s k = P k (c ∷ s) (miss k)

module _ {Parses : Parser → ℕ → Bytes → Outcome → Type 0} (spirit : IsSpirit Parses) where
  or_else-IsTaken :
      (p q : Parser) (a b : Option Bool) (c k : ℕ) (s : Bytes)
      → IsTaken (Parses p) a c s k
      → IsTaken (Parses q) b c s k
      → IsTaken (Parses (p <|> q)) (or_else a b) c s k
  or_else-IsTaken p q none b c k s h g = tt
  or_else-IsTaken p q (some true) b c k s h g = spirit.first p q k k (c ∷ s) s h
  or_else-IsTaken p q (some false) none c k s h g = tt
  or_else-IsTaken p q (some false) (some true) c k s h g =
      spirit.second p q k k (c ∷ s) (hit k s) h g
  or_else-IsTaken p q (some false) (some false) c k s h g =
      spirit.second p q k k (c ∷ s) (miss k) h g

  but-IsTaken :
      (p q : Parser) (a b : Option Bool) (c k : ℕ) (s : Bytes)
      → IsTaken (Parses p) a c s k
      → IsTaken (Parses q) b c s k
      → IsTaken (Parses (p <-> q)) (but a b) c s k
  but-IsTaken p q none b c k s h g = tt
  but-IsTaken p q (some false) b c k s h g = spirit.minus_none p q k k (c ∷ s) h
  but-IsTaken p q (some true) none c k s h g = tt
  but-IsTaken p q (some true) (some false) c k s h g = spirit.minus p q k k k (c ∷ s) s h g
  but-IsTaken p q (some true) (some true) c k s h g =
      spirit.minus_taken p q k k k (c ∷ s) s s h g (ground arith)

  before-IsTaken :
      (p q : Parser) (a : Option Bool) (c k : ℕ) (s : Bytes)
      → IsTaken (Parses p) a c s k
      → IsTaken (Parses (p >> q)) (before a) c s k
  before-IsTaken p q none c k s h = tt
  before-IsTaken p q (some true) c k s h = tt
  before-IsTaken p q (some false) c k s h = spirit.seq_miss p q k k (c ∷ s) h

  positive-IsTaken :
      (p : Parser) (a : Option Bool) (c k : ℕ) (s : Bytes)
      → IsTaken (Parses p) a c s k
      → IsTaken (Parses (positive p)) (before a) c s k
  positive-IsTaken p none c k s h = tt
  positive-IsTaken p (some true) c k s h = tt
  positive-IsTaken p (some false) c k s h =
      spirit.repeated p k (c ∷ s) (miss k) (spirit.seq_miss p (kleene p) k k (c ∷ s) h)

  text-IsTaken :
      (d : ℕ) (t : Bytes) (c k : ℕ) (s : Bytes)
      → IsTaken (Parses (str_p (d ∷ t))) (before (some (c == d))) c s k
  text-IsTaken d t c k s = by_test (c == d) refl
    where
      by_test : (b : Bool) → c == d ≡ b → IsTaken (Parses (str_p (d ∷ t))) (before (some b)) c s k
      by_test true e = tt
      by_test false e = spirit.str_other (d ∷ t) k (c ∷ s) (unfold str_eq in rw e)

  leaf-IsTaken :
      (p : Parser) (b : Bool) (c k : ℕ) (s : Bytes)
      → (b ≡ true → Parses p k (c ∷ s) (hit k s))
      → (b ≡ false → Parses p k (c ∷ s) (miss k))
      → IsTaken (Parses p) (some b) c s k
  leaf-IsTaken p true c k s h g = h refl
  leaf-IsTaken p false c k s h g = g refl

  takes-IsTaken : (p : Parser) (c k : ℕ) (s : Bytes) → IsTaken (Parses p) (takes p c) c s k
  unfolding takes
  takes-IsTaken (ch_p d) c k s =
      leaf-IsTaken (ch_p d) (c == d) c k s (λ e. run_ch_sound spirit d k (c ∷ s) (rw e))
        (λ e. run_ch_sound spirit d k (c ∷ s) (rw e))
  takes-IsTaken (range_p lo hi) c k s =
      leaf-IsTaken (range_p lo hi) (within lo hi c) c k s (spirit.in_range lo hi c k s)
        (spirit.off_range lo hi c k s)
  takes-IsTaken (p <|> q) c k s =
      or_else-IsTaken p q (takes p c) (takes q c) c k s (takes-IsTaken p c k s)
        (takes-IsTaken q c k s)
  takes-IsTaken (p <-> q) c k s =
      but-IsTaken p q (takes p c) (takes q c) c k s (takes-IsTaken p c k s) (takes-IsTaken q c k s)
  takes-IsTaken (p >> q) c k s = before-IsTaken p q (takes p c) c k s (takes-IsTaken p c k s)
  takes-IsTaken (positive p) c k s = positive-IsTaken p (takes p c) c k s (takes-IsTaken p c k s)
  takes-IsTaken (str_p (d ∷ t)) c k s = text-IsTaken d t c k s
  takes-IsTaken never c k s = spirit.of_never k (c ∷ s)
  takes-IsTaken _ c k s = tt

  pub takes-hit :
      (p : Parser) (c k : ℕ) (s : Bytes) → takes p c ≡ some true → Parses p k (c ∷ s) (hit k s)
  takes-hit p c k s e = subst (λ b. IsTaken (Parses p) b c s k) e (takes-IsTaken p c k s)

  pub takes-miss :
      (p : Parser) (c k : ℕ) (s : Bytes) → takes p c ≡ some false → Parses p k (c ∷ s) (miss k)
  takes-miss p c k s e = subst (λ b. IsTaken (Parses p) b c s k) e (takes-IsTaken p c k s)

  -- A repetition takes what its parser takes, up to where the parser misses.
  pub kleene-takes :
      (p : Parser) (cs : Bytes) (k : ℕ) (s : Bytes)
      → All (λ c. takes p c ≡ some true) cs
      → Parses p k s (miss k)
      → Parses (kleene p) k (cs ++ s) (hit k s)
  kleene-takes p [] k s h m = spirit.kleene_end p k k s m
  kleene-takes p (c ∷ cs) k s (h, hs) m =
      spirit.kleene_more p k k (c ∷ (cs ++ s)) (cs ++ s) (hit k s) (takes-hit p c k (cs ++ s) h)
        (kleene-takes p cs k s hs m)

  pub positive-takes :
      (p : Parser) (c : ℕ) (cs : Bytes) (k : ℕ) (s : Bytes)
      → All (λ c. takes p c ≡ some true) (c ∷ cs)
      → Parses p k s (miss k)
      → Parses (positive p) k (c ∷ cs ++ s) (hit k s)
  positive-takes p c cs k s (h, hs) m = spirit.repeated p k (c ∷ (cs ++ s)) (hit k s) (
      spirit.seq p (kleene p) k k (c ∷ (cs ++ s)) (cs ++ s) (hit k s) (takes-hit p c k (cs ++ s) h)
        (kleene-takes p cs k s hs m))
