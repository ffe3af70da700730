-- ===== src/Spin/Grammar/Sound.antt =====
-- The interpreter answers only what the laws of Spirit's combinators allow.
use arachnida.Base.{
  ℕ, zero, suc, Bool, true, false, ◌∷◌, [], ◌++◌, Option, none, some, Bytes, length, take, drop,
  str_eq, str_eq_iff, within, ltb, ◌==◌, ◌≡◌, refl, sym, ap, ◌∙◌, arith, ◌⊎◌, inl, inr,
}
use mathlib.Core.Path.{subst}
use arachnida.Spin.Grammar.{
  Parser, ch_p, str_p, range_p, ◌>>◌, ◌<|>◌, ◌<->◌, ◌<%>◌, optional, kleene, positive, times,
  between, sized, assigns, lexeme_d, comment_reference, never,
}
use arachnida.Spin.Grammar.Basic.{comment}
use arachnida.Spin.Grammar.Spirit.{Outcome, miss, hit, IsSpirit}
use arachnida.Spin.Grammar.Interpreter.{
  one_of, on_hit, on_miss, on_round, but_not, run_str, run_ch, run_range, run,
}

abbrev IsMiss : Option Outcome → (ℕ → Type 0) → Type 0
IsMiss m P = (k1 : ℕ) × (m ≡ some (miss k1)) × P k1

abbrev IsHit : Option Outcome → (ℕ → Bytes → Type 0) → Type 0
IsHit m P = (k1 : ℕ) × (r : Bytes) × (m ≡ some (hit k1 r)) × P k1 r

on_hit-eq :
    (m : Option Outcome) (g : ℕ → Bytes → Option Outcome) {o : Outcome}
    → on_hit m g ≡ some o
    → IsMiss m (λ k1. o ≡ miss k1) ⊎ IsHit m (λ k1 r. g k1 r ≡ some o)
on_hit-eq none g e = cc
on_hit-eq (some (miss k1)) g e = inl (k1, refl, cc)
on_hit-eq (some (hit k1 r)) g e = inr (k1, r, refl, e)

on_miss-eq :
    (m : Option Outcome) (g : ℕ → Option Outcome) {o : Outcome}
    → on_miss m g ≡ some o
    → IsMiss m (λ k1. g k1 ≡ some o) ⊎ IsHit m (λ k1 r. o ≡ hit k1 r)
on_miss-eq none g e = cc
on_miss-eq (some (miss k1)) g e = inl (k1, refl, e)
on_miss-eq (some (hit k1 r)) g e = inr (k1, r, refl, cc)

on_round-eq :
    (s : Bytes) (m : Option Outcome) (g : ℕ → Bytes → Option Outcome) {o : Outcome}
    → on_round s m g ≡ some o
    → IsMiss m (λ k1. o ≡ hit k1 s) ⊎ IsHit m (λ k1 r. g k1 r ≡ some o)
on_round-eq s none g e = cc
on_round-eq s (some (miss k1)) g e = inl (k1, refl, cc)
on_round-eq s (some (hit k1 r)) g e = inr (k1, r, refl, e)

one_of_sound :
    (P : Outcome → Type 0) (b : Bool) (k : ℕ) (s : Bytes) {o : Outcome}
    → (b ≡ true → P (hit k s))
    → (b ≡ false → P (miss k))
    → some (one_of b k s) ≡ some o
    → P o
one_of_sound P true k s h m e = subst P (cc) (h refl)
one_of_sound P false k s h m e = subst P (cc) (m refl)

take-append-drop : (n : ℕ) (s : Bytes) → take n s ++ drop n s ≡ s
take-append-drop zero s = refl
take-append-drop (suc n) [] = refl
take-append-drop (suc n) (c ∷ s) = ap (λ r. c ∷ r) (take-append-drop n s)

module _ {Parses : Parser → ℕ → Bytes → Outcome → Type 0} (spirit : IsSpirit Parses) where
  pub run_ch_sound :
      (c k : ℕ) (s : Bytes) {o : Outcome} → some (run_ch c k s) ≡ some o → Parses (ch_p c) k s o
  run_ch_sound c k [] e = subst (Parses (ch_p c) k []) (cc) (spirit.ch_end c k)
  run_ch_sound c k (d ∷ s) e =
      one_of_sound (Parses (ch_p c) k (d ∷ s)) (d == c) k s
        (λ t. subst (λ x. Parses (ch_p c) k (x ∷ s) (hit k s)) (ground arith) (spirit.ch c k s))
        (λ t. spirit.ch_other c d k s (λ q. ground arith)) e

  pub run_range_sound :
      (lo hi k : ℕ) (s : Bytes) {o : Outcome}
      → some (run_range lo hi k s) ≡ some o
      → Parses (range_p lo hi) k s o
  run_range_sound lo hi k [] e = subst (Parses (range_p lo hi) k []) (cc) (spirit.range_end lo hi k)
  run_range_sound lo hi k (d ∷ s) e =
      one_of_sound (Parses (range_p lo hi) k (d ∷ s)) (within lo hi d) k s
        (spirit.in_range lo hi d k s) (spirit.off_range lo hi d k s) e

  pub run_str_sound :
      (t : Bytes) (k : ℕ) (s : Bytes) {o : Outcome}
      → some (run_str t k s) ≡ some o
      → Parses (str_p t) k s o
  run_str_sound t k s =
      one_of_sound (Parses (str_p t) k s) (str_eq (take (length t) s) t) k (drop (length t) s)
        (λ e.
          let p : t ++ drop (length t) s ≡ s =
            ap (λ x. x ++ drop (length t) s) (sym ((str_eq_iff (take (length t) s) t).0 e))
            ∙ take-append-drop (length t) s in
          subst (λ x. Parses (str_p t) k x (hit k (drop (length t) s))) p
            (spirit.str t k (drop (length t) s)))
        (spirit.str_other t k s)

  but_not_sound :
      (p q : Parser) (k k1 : ℕ) (s r : Bytes) (m : Option Outcome) {o : Outcome}
      → Parses p k s (hit k1 r)
      → ((x : Outcome) → m ≡ some x → Parses q k1 s x)
      → but_not r m ≡ some o
      → Parses (p <-> q) k s o
  but_not_sound p q k k1 s r none h g e = cc
  but_not_sound p q k k1 s r (some (miss k2)) h g e =
      subst (Parses (p <-> q) k s) (cc) (spirit.minus p q k k1 k2 s r h (g (miss k2) refl))
  but_not_sound p q k k1 s r (some (hit k2 r2)) h g e =
      one_of_sound (Parses (p <-> q) k s) (ltb (length r) (length r2)) k2 r
        (spirit.minus_shorter p q k k1 k2 s r r2 h (g (hit k2 r2) refl))
        (spirit.minus_taken p q k k1 k2 s r r2 h (g (hit k2 r2) refl)) e

  -- What the interpreter answers, Spirit answers.
  pub run_sound :
      (f : ℕ) (p : Parser) (k : ℕ) (s : Bytes) {o : Outcome} → run f p k s ≡ some o → Parses p k s o
  unfolding run
  run_sound zero p k s e = cc
  run_sound (suc f) (ch_p c) k s e = run_ch_sound c k s e
  run_sound (suc f) (str_p t) k s e = run_str_sound t k s e
  run_sound (suc f) (range_p lo hi) k s e = run_range_sound lo hi k s e
  run_sound (suc f) (p >> q) k s {o} e = elim (on_hit-eq (run f p k s) (run f q) e) [
    | inl (k1, a, b) ↦
        subst (Parses (p >> q) k s) (sym b) (spirit.seq_miss p q k k1 s (run_sound f p k s a))
    | inr (k1, r, a, b) ↦ spirit.seq p q k k1 s r o (run_sound f p k s a) (run_sound f q k1 r b)
  ]
  run_sound (suc f) (p <|> q) k s {o} e = elim (on_miss-eq (run f p k s) (λ k1. run f q k1 s) e) [
    | inl (k1, a, b) ↦ spirit.second p q k k1 s o (run_sound f p k s a) (run_sound f q k1 s b)
    | inr (k1, r, a, b) ↦
        subst (Parses (p <|> q) k s) (sym b) (spirit.first p q k k1 s r (run_sound f p k s a))
  ]
  run_sound (suc f) (p <-> q) k s {o} e =
      elim (on_hit-eq (run f p k s) (λ k1 r. but_not r (run f q k1 s)) e) [
        | inl (k1, a, b) ↦
            subst (Parses (p <-> q) k s) (sym b)
              (spirit.minus_none p q k k1 s (run_sound f p k s a))
        | inr (k1, r, a, b) ↦
            but_not_sound p q k k1 s r (run f q k1 s) (run_sound f p k s a)
              (λ x. run_sound f q k1 s {o = x}) b
      ]
  run_sound (suc f) (p <%> q) k s {o} e =
      spirit.listed p q k s o (run_sound f (p >> kleene (q >> p)) k s e)
  run_sound (suc f) (optional p) k s {o} e =
      elim (on_miss-eq (run f p k s) (λ k1. some (hit k1 s)) e) [
        | inl (k1, a, b) ↦
            subst (Parses (optional p) k s) (cc) (spirit.absent p k k1 s (run_sound f p k s a))
        | inr (k1, r, a, b) ↦
            subst (Parses (optional p) k s) (sym b)
              (spirit.present p k k1 s r (run_sound f p k s a))
      ]
  run_sound (suc f) (kleene p) k s {o} e = elim (on_round-eq s (run f p k s) (run f (kleene p)) e) [
    | inl (k1, a, b) ↦
        subst (Parses (kleene p) k s) (sym b) (spirit.kleene_end p k k1 s (run_sound f p k s a))
    | inr (k1, r, a, b) ↦
        spirit.kleene_more p k k1 s r o (run_sound f p k s a) (run_sound f (kleene p) k1 r b)
  ]
  run_sound (suc f) (positive p) k s {o} e =
      spirit.repeated p k s o (run_sound f (p >> kleene p) k s e)
  run_sound (suc f) (times zero p) k s e =
      subst (Parses (times 0 p) k s) (cc) (spirit.times_zero p k s)
  run_sound (suc f) (times (suc n) p) k s {o} e =
      spirit.times_suc n p k s o (run_sound f (p >> times n p) k s e)
  run_sound (suc f) (between zero zero p) k s e =
      subst (Parses (between 0 0 p) k s) (cc) (spirit.between_zero p k s)
  run_sound (suc f) (between zero (suc hi) p) k s {o} e =
      spirit.between_more hi p k s o (run_sound f (optional (p >> between zero hi p)) k s e)
  run_sound (suc f) (between (suc lo) zero p) k s e = cc
  run_sound (suc f) (between (suc lo) (suc hi) p) k s {o} e =
      spirit.between_suc lo hi p k s o (run_sound f (p >> between lo hi p) k s e)
  run_sound (suc f) (sized p) k s {o} e = spirit.of_size p k s o (run_sound f (times k p) k s e)
  run_sound (suc f) (assigns p) k s {o} e = elim (on_hit-eq (run f p k s) (λ k1 r. none) e) [
    | inl (k1, a, b) ↦
        subst (Parses (assigns p) k s) (sym b) (spirit.unassigned p k k1 s (run_sound f p k s a))
    | inr (k1, r, a, b) ↦ cc
  ]
  run_sound (suc f) (lexeme_d p) k s {o} e = spirit.lexeme p k s o (run_sound f p k s e)
  run_sound (suc f) comment_reference k s {o} e =
      spirit.of_comment k s o (run_sound f comment k s e)
  run_sound (suc f) never k s e = subst (Parses never k s) (cc) (spirit.of_never k s)
