-- ===== src/Spin/Grammar/Spirit.antt =====
-- What Boost.Spirit documents of its combinators, as laws of a relation that its parsers are taken from:
-- of rules without a skip parser, over a scanner of unsigned characters. A match leaves the bytes behind
-- it; the number is `chunk_size_`, which the action of a rule sets, also where the rule around it misses
-- later. The combinator `|` takes the first alternative that matches, and nothing is tried again.
use arachnida.Base.{
  ℕ, suc, true, false, ◌∷◌, [], ◌++◌, Bytes, length, take, str_eq, within, ltb, ◌≡◌, ◌≢◌, ok,
}
use arachnida.Spin.Grammar.{
  Parser, ch_p, str_p, range_p, ◌>>◌, ◌<|>◌, ◌<->◌, ◌<%>◌, optional, kleene, positive, times,
  between, sized, assigns, lexeme_d, comment_reference, never,
}
use arachnida.Spin.Grammar.Basic.{comment}
use arachnida.Spin.HexAdapter.{dehex}

pub data Outcome : Type 0 where
  miss : ℕ → Outcome
  hit : ℕ → Bytes → Outcome

pub record IsSpirit (Parses : Parser → ℕ → Bytes → Outcome → Type 0) : Type 0 where
  pub ch : (c k : ℕ) (s : Bytes) → Parses (ch_p c) k (c ∷ s) (hit k s)
  pub ch_other : (c d k : ℕ) (s : Bytes) → d ≢ c → Parses (ch_p c) k (d ∷ s) (miss k)
  pub ch_end : (c k : ℕ) → Parses (ch_p c) k [] (miss k)
  pub in_range :
      (lo hi c k : ℕ) (s : Bytes)
      → within lo hi c ≡ true
      → Parses (range_p lo hi) k (c ∷ s) (hit k s)
  pub off_range :
      (lo hi c k : ℕ) (s : Bytes)
      → within lo hi c ≡ false
      → Parses (range_p lo hi) k (c ∷ s) (miss k)
  pub range_end : (lo hi k : ℕ) → Parses (range_p lo hi) k [] (miss k)
  pub str : (t : Bytes) (k : ℕ) (s : Bytes) → Parses (str_p t) k (t ++ s) (hit k s)
  pub str_other :
      (t : Bytes) (k : ℕ) (s : Bytes)
      → str_eq (take (length t) s) t ≡ false
      → Parses (str_p t) k s (miss k)
  pub seq :
      (p q : Parser) (k k1 : ℕ) (s r : Bytes) (o : Outcome)
      → Parses p k s (hit k1 r)
      → Parses q k1 r o
      → Parses (p >> q) k s o
  pub seq_miss :
      (p q : Parser) (k k1 : ℕ) (s : Bytes) → Parses p k s (miss k1) → Parses (p >> q) k s (miss k1)
  pub first :
      (p q : Parser) (k k1 : ℕ) (s r : Bytes)
      → Parses p k s (hit k1 r)
      → Parses (p <|> q) k s (hit k1 r)
  pub second :
      (p q : Parser) (k k1 : ℕ) (s : Bytes) (o : Outcome)
      → Parses p k s (miss k1)
      → Parses q k1 s o
      → Parses (p <|> q) k s o
  -- The difference: what the first matches, unless the second matches as much.
  pub minus_none :
      (p q : Parser) (k k1 : ℕ) (s : Bytes)
      → Parses p k s (miss k1)
      → Parses (p <-> q) k s (miss k1)
  pub minus :
      (p q : Parser) (k k1 k2 : ℕ) (s r : Bytes)
      → Parses p k s (hit k1 r)
      → Parses q k1 s (miss k2)
      → Parses (p <-> q) k s (hit k2 r)
  pub minus_shorter :
      (p q : Parser) (k k1 k2 : ℕ) (s r r2 : Bytes)
      → Parses p k s (hit k1 r)
      → Parses q k1 s (hit k2 r2)
      → ltb (length r) (length r2) ≡ true
      → Parses (p <-> q) k s (hit k2 r)
  pub minus_taken :
      (p q : Parser) (k k1 k2 : ℕ) (s r r2 : Bytes)
      → Parses p k s (hit k1 r)
      → Parses q k1 s (hit k2 r2)
      → ltb (length r) (length r2) ≡ false
      → Parses (p <-> q) k s (miss k2)
  pub kleene_end :
      (p : Parser) (k k1 : ℕ) (s : Bytes)
      → Parses p k s (miss k1)
      → Parses (kleene p) k s (hit k1 s)
  pub kleene_more :
      (p : Parser) (k k1 : ℕ) (s r : Bytes) (o : Outcome)
      → Parses p k s (hit k1 r)
      → Parses (kleene p) k1 r o
      → Parses (kleene p) k s o
  pub repeated :
      (p : Parser) (k : ℕ) (s : Bytes) (o : Outcome)
      → Parses (p >> kleene p) k s o
      → Parses (positive p) k s o
  pub present :
      (p : Parser) (k k1 : ℕ) (s r : Bytes)
      → Parses p k s (hit k1 r)
      → Parses (optional p) k s (hit k1 r)
  pub absent :
      (p : Parser) (k k1 : ℕ) (s : Bytes)
      → Parses p k s (miss k1)
      → Parses (optional p) k s (hit k1 s)
  pub listed :
      (p q : Parser) (k : ℕ) (s : Bytes) (o : Outcome)
      → Parses (p >> kleene (q >> p)) k s o
      → Parses (p <%> q) k s o
  pub times_zero : (p : Parser) (k : ℕ) (s : Bytes) → Parses (times 0 p) k s (hit k s)
  pub times_suc :
      (n : ℕ) (p : Parser) (k : ℕ) (s : Bytes) (o : Outcome)
      → Parses (p >> times n p) k s o
      → Parses (times (suc n) p) k s o
  pub between_zero : (p : Parser) (k : ℕ) (s : Bytes) → Parses (between 0 0 p) k s (hit k s)
  pub between_more :
      (hi : ℕ) (p : Parser) (k : ℕ) (s : Bytes) (o : Outcome)
      → Parses (optional (p >> between 0 hi p)) k s o
      → Parses (between 0 (suc hi) p) k s o
  pub between_suc :
      (lo hi : ℕ) (p : Parser) (k : ℕ) (s : Bytes) (o : Outcome)
      → Parses (p >> between lo hi p) k s o
      → Parses (between (suc lo) (suc hi) p) k s o
  pub of_size :
      (p : Parser) (k : ℕ) (s : Bytes) (o : Outcome)
      → Parses (times k p) k s o
      → Parses (sized p) k s o
  pub unassigned :
      (p : Parser) (k k1 : ℕ) (s : Bytes)
      → Parses p k s (miss k1)
      → Parses (assigns p) k s (miss k1)
  pub lexeme :
      (p : Parser) (k : ℕ) (s : Bytes) (o : Outcome) → Parses p k s o → Parses (lexeme_d p) k s o
  pub of_comment :
      (k : ℕ) (s : Bytes) (o : Outcome) → Parses comment k s o → Parses comment_reference k s o
  pub of_never : (k : ℕ) (s : Bytes) → Parses never k s (miss k)

-- What the action `assign_a(HexAdapter(chunk_size_))` is meant to do: behind a match of a text that `dehex`
-- reads as a number, `chunk_size_` is this number. The code hands `assign_a` a temporary adapter that is
-- gone when the rule is used, so that this is no law of Spirit's; a theorem that needs it says so.
pub record Assigns (Parses : Parser → ℕ → Bytes → Outcome → Type 0) : Type 0 where
  pub assigned :
      (p : Parser) (k k1 n : ℕ) (t r : Bytes)
      → Parses p k (t ++ r) (hit k1 r)
      → dehex t ≡ ok n
      → Parses (assigns p) k (t ++ r) (hit n r)
