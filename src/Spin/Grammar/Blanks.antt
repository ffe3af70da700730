-- ===== src/Spin/Grammar/Blanks.antt =====
-- The rule for white space at the end of a line.
use arachnida.Base.{ℕ, ◌∷◌, [], Bytes, refl, arith}
use arachnida.Acari.ParsingHelpers.{is_ignorable_white_space}
use arachnida.Spin.DataHandler.Fields.{Starts}
use arachnida.Spin.Grammar.{Parser, ◌<|>◌, positive, optional}
use arachnida.Spin.Grammar.Basic.{crlf, lws, sp, ht}
use arachnida.Spin.Grammar.Spirit.{Outcome, miss, hit, IsSpirit}
use arachnida.Spin.Grammar.Interpreter.{run}
use arachnida.Spin.Grammar.Sound.{run_sound}
use arachnida.Spin.Grammar.Chars.{takes, takes-miss}

module _ {Parses : Parser → ℕ → Bytes → Outcome → Type 0} (spirit : IsSpirit Parses) where
  pub no_blank : (k : ℕ) (b : Bytes) → Starts b → Parses (positive (sp <|> ht)) k b (miss k)
  unfolding takes sp ht is_ignorable_white_space
  no_blank k [] h = run_sound spirit 8 (positive (sp <|> ht)) k [] (unfold run in refl)
  no_blank k (c ∷ b) h = takes-miss spirit (positive (sp <|> ht)) c k b (ground arith)

  pub crlf-hit : (k : ℕ) (r : Bytes) → Parses crlf k (13 ∷ 10 ∷ r) (hit k r)
  crlf-hit k r = run_sound spirit 4 crlf k (13 ∷ 10 ∷ r) (unfold run crlf in refl)

  -- At the end of a line the rule misses, unless a space or a tabulator starts the next line.
  pub no_lws :
      (k : ℕ) (b : Bytes)
      → Parses (positive (sp <|> ht)) k b (miss k)
      → Parses lws k (13 ∷ 10 ∷ b) (miss k)
  unfolding lws
  no_lws k b h =
      spirit.seq (optional crlf) (positive (sp <|> ht)) k k (13 ∷ 10 ∷ b) b (miss k)
        (spirit.present crlf k k (13 ∷ 10 ∷ b) b (crlf-hit k b)) h
