-- ===== src/Spin/Grammar/Hosts.antt =====
-- The rules for the name of a host.
use arachnida.Base.{ℕ, Bool, true, ◌||◌, ◌∷◌, Bytes, within, ◌≡◌, ◌≢◌, arith}
use arachnida.Spin.Grammar.{Parser, ch_p, ◌>>◌, ◌<|>◌, kleene, optional}
use arachnida.Spin.Grammar.Basic.{alpha, digit}
use arachnida.Spin.Grammar.Uri.{domainlabel, toplabel, hostname, ipv4address, host}
use arachnida.Spin.Grammar.Spirit.{Outcome, miss, hit, IsSpirit}
use arachnida.Spin.Grammar.Chars.{takes, takes-hit}

abbrev pub is_letter : ℕ → Bool
is_letter c = within b'A' b'Z' c || within b'a' b'z' c

module _ {Parses : Parser → ℕ → Bytes → Outcome → Type 0} (spirit : IsSpirit Parses) where
  letter : (a k : ℕ) (s : Bytes) → is_letter a ≡ true → Parses alpha k (a ∷ s) (hit k s)
  unfolding takes alpha
  letter a k s h = takes-hit spirit alpha a k s (ground arith)

  no_dot : (b k : ℕ) (s : Bytes) → b ≢ b'.' → Parses (ch_p b'.') k (b ∷ s) (miss k)
  no_dot b k s h = spirit.ch_other b'.' b k s h

  domainlabel-letter :
      (a k : ℕ) (s : Bytes) → is_letter a ≡ true → Parses domainlabel k (a ∷ s) (hit k s)
  unfolding domainlabel
  domainlabel-letter a k s h =
      let more = kleene (alpha <|> digit <|> ch_p b'-') in
      spirit.first (alpha <|> digit) ((alpha <|> digit) >> more >> (alpha <|> digit)) k k (a ∷ s) s
        (spirit.first alpha digit k k (a ∷ s) s (letter a k s h))

  toplabel-letter : (a k : ℕ) (s : Bytes) → is_letter a ≡ true → Parses toplabel k (a ∷ s) (hit k s)
  unfolding toplabel
  toplabel-letter a k s h =
      let more = kleene (alpha <|> digit <|> ch_p b'-') in
      spirit.first alpha (alpha >> more >> (alpha <|> digit)) k k (a ∷ s) s (letter a k s h)

  hostname-letter :
      (a b k : ℕ) (s : Bytes)
      → is_letter a ≡ true
      → b ≢ b'.'
      → Parses hostname k (a ∷ b ∷ s) (hit k (b ∷ s))
  unfolding hostname
  hostname-letter a b k s h n =
      let labels = kleene (domainlabel >> ch_p b'.') in
      let text = a ∷ b ∷ s in
      spirit.seq (labels >> toplabel) (optional (ch_p b'.')) k k text (b ∷ s) (hit k (b ∷ s))
        (spirit.seq labels toplabel k k text text (hit k (b ∷ s))
          (spirit.kleene_end (domainlabel >> ch_p b'.') k k text (
            spirit.seq domainlabel (ch_p b'.') k k text (b ∷ s) (miss k)
              (domainlabel-letter a k (b ∷ s) h) (no_dot b k s n)))
          (toplabel-letter a k (b ∷ s) h))
        (spirit.absent (ch_p b'.') k k (b ∷ s) (no_dot b k s n))

  -- The rule for a host takes no label of several characters: where the text starts with a letter and
  -- the next character is no dot, it takes that letter alone, and leaves all behind it. Spirit's
  -- combinators do what is documented of them.
  pub host-one_letter :
      (a b k : ℕ) (s : Bytes)
      → is_letter a ≡ true
      → b ≢ b'.'
      → Parses host k (a ∷ b ∷ s) (hit k (b ∷ s))
  unfolding host
  host-one_letter a b k s h n =
      spirit.first hostname ipv4address k k (a ∷ b ∷ s) (b ∷ s) (hostname-letter a b k s h n)
