-- ===== src/Spin/Grammar.antt =====
-- lib/Spin/Private/Grammar.h: the rules of HTTP and of URIs, as terms of Boost.Spirit's combinators. The
-- names of the combinators are Spirit's: `!p` is `optional p`, `*p` `kleene p`, `+p` `positive p`, and
-- the binary `>>`, `|`, `-` and `%` are `>>`, `<|>`, `<->` and `<%>`. What they match is Spirit's.
pub mod Basic
pub mod Uri
pub mod Values
pub mod Fields
pub mod Headers
pub mod Entities
pub mod Messages
pub mod Spirit
pub mod Interpreter
pub mod Sound
pub mod Chars
pub mod Requests
pub mod Chunks
pub mod StatusCodes
pub mod Blanks
pub mod StatusLines
pub mod Hosts
use arachnida.Base.{ℕ, Bytes}

infixl 60 ◌<%>◌
infixl 55 ◌<->◌
infixl 50 ◌>>◌
infixl 45 ◌<|>◌
-- `sized p` is `repeat_p(boost::ref(chunk_size_))[p]`, `assigns p` is `p[assign_a(HexAdapter(chunk_size_))]`,
-- `comment_reference` the use of the rule `comment_` in itself, and `never` a rule that is declared and
-- that no statement assigns.
pub data Parser : Type 0 where
  ch_p : ℕ → Parser
  str_p : Bytes → Parser
  range_p : ℕ → ℕ → Parser
  ◌>>◌ : Parser → Parser → Parser
  ◌<|>◌ : Parser → Parser → Parser
  ◌<->◌ : Parser → Parser → Parser
  ◌<%>◌ : Parser → Parser → Parser
  optional : Parser → Parser
  kleene : Parser → Parser
  positive : Parser → Parser
  times : ℕ → Parser → Parser
  between : ℕ → ℕ → Parser → Parser
  sized : Parser → Parser
  assigns : Parser → Parser
  lexeme_d : Parser → Parser
  comment_reference : Parser
  never : Parser
