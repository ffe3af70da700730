-- ===== src/Spin/Tests/Grammars.antt =====
-- The laws of Spirit's combinators can hold: the relation that they generate. The properties of the
-- grammar's rules at concrete texts.
use arachnida.Base.{
  ℕ, suc, true, false, ◌∷◌, [], ◌++◌, none, Bytes, length, take, str_eq, within, ltb, ◌≡◌, ◌≢◌,
  refl, arith, ok,
}
use arachnida.Spin.Grammar.{
  Parser, ch_p, str_p, range_p, ◌>>◌, ◌<|>◌, ◌<->◌, ◌<%>◌, optional, kleene, positive, times,
  between, sized, assigns, lexeme_d, comment_reference, never,
}
use arachnida.Spin.Grammar.Basic.{comment}
use arachnida.Spin.HexAdapter.{dehex}
use arachnida.Spin.Grammar.Spirit.{Outcome, miss, hit, IsSpirit, Assigns}
use arachnida.Base.{codes}
use arachnida.Base.Check.{all_hold}
use arachnida.Spin.DataHandler.{on_data_ready, finished}
use arachnida.Spin.DataHandler.Wire.{request_text}
use arachnida.Spin.Grammar.Uri.{host}
use arachnida.Spin.Grammar.Entities.{chunked_body}
use arachnida.Spin.Grammar.Messages.{request, status_code}
use arachnida.Spin.Grammar.Requests.{occurs}
use arachnida.Spin.Grammar.Requests.Whole.{request_text-agrees}
use arachnida.Spin.Grammar.Chunks.{Chunk, IsChunk, chunked_body-misses}
use arachnida.Spin.Grammar.StatusCodes.{starts_with_digits, status_code-digits}
use arachnida.Spin.Grammar.Hosts.{host-one_letter}
use arachnida.Spin.Tests.{got, got-IsWire}
use arachnida.Spin.Tests.Decimal.{read_decimal}

pub data Derives : Parser → ℕ → Bytes → Outcome → Type 0 where
  ch : (c k : ℕ) (s : Bytes) → Derives (ch_p c) k (c ∷ s) (hit k s)
  ch_other : (c d k : ℕ) (s : Bytes) → d ≢ c → Derives (ch_p c) k (d ∷ s) (miss k)
  ch_end : (c k : ℕ) → Derives (ch_p c) k [] (miss k)
  in_range :
      (lo hi c k : ℕ) (s : Bytes)
      → within lo hi c ≡ true
      → Derives (range_p lo hi) k (c ∷ s) (hit k s)
  off_range :
      (lo hi c k : ℕ) (s : Bytes)
      → within lo hi c ≡ false
      → Derives (range_p lo hi) k (c ∷ s) (miss k)
  range_end : (lo hi k : ℕ) → Derives (range_p lo hi) k [] (miss k)
  str : (t : Bytes) (k : ℕ) (s : Bytes) → Derives (str_p t) k (t ++ s) (hit k s)
  str_other :
      (t : Bytes) (k : ℕ) (s : Bytes)
      → str_eq (take (length t) s) t ≡ false
      → Derives (str_p t) k s (miss k)
  seq :
      (p q : Parser) (k k1 : ℕ) (s r : Bytes) (o : Outcome)
      → Derives p k s (hit k1 r)
      → Derives q k1 r o
      → Derives (p >> q) k s o
  seq_miss :
      (p q : Parser) (k k1 : ℕ) (s : Bytes)
      → Derives p k s (miss k1)
      → Derives (p >> q) k s (miss k1)
  first :
      (p q : Parser) (k k1 : ℕ) (s r : Bytes)
      → Derives p k s (hit k1 r)
      → Derives (p <|> q) k s (hit k1 r)
  second :
      (p q : Parser) (k k1 : ℕ) (s : Bytes) (o : Outcome)
      → Derives p k s (miss k1)
      → Derives q k1 s o
      → Derives (p <|> q) k s o
  -- The difference: what the first matches, unless the second matches as much.
  minus_none :
      (p q : Parser) (k k1 : ℕ) (s : Bytes)
      → Derives p k s (miss k1)
      → Derives (p <-> q) k s (miss k1)
  minus :
      (p q : Parser) (k k1 k2 : ℕ) (s r : Bytes)
      → Derives p k s (hit k1 r)
      → Derives q k1 s (miss k2)
      → Derives (p <-> q) k s (hit k2 r)
  minus_shorter :
      (p q : Parser) (k k1 k2 : ℕ) (s r r2 : Bytes)
      → Derives p k s (hit k1 r)
      → Derives q k1 s (hit k2 r2)
      → ltb (length r) (length r2) ≡ true
      → Derives (p <-> q) k s (hit k2 r)
  minus_taken :
      (p q : Parser) (k k1 k2 : ℕ) (s r r2 : Bytes)
      → Derives p k s (hit k1 r)
      → Derives q k1 s (hit k2 r2)
      → ltb (length r) (length r2) ≡ false
      → Derives (p <-> q) k s (miss k2)
  kleene_end :
      (p : Parser) (k k1 : ℕ) (s : Bytes)
      → Derives p k s (miss k1)
      → Derives (kleene p) k s (hit k1 s)
  kleene_more :
      (p : Parser) (k k1 : ℕ) (s r : Bytes) (o : Outcome)
      → Derives p k s (hit k1 r)
      → Derives (kleene p) k1 r o
      → Derives (kleene p) k s o
  repeated :
      (p : Parser) (k : ℕ) (s : Bytes) (o : Outcome)
      → Derives (p >> kleene p) k s o
      → Derives (positive p) k s o
  present :
      (p : Parser) (k k1 : ℕ) (s r : Bytes)
      → Derives p k s (hit k1 r)
      → Derives (optional p) k s (hit k1 r)
  absent :
      (p : Parser) (k k1 : ℕ) (s : Bytes)
      → Derives p k s (miss k1)
      → Derives (optional p) k s (hit k1 s)
  listed :
      (p q : Parser) (k : ℕ) (s : Bytes) (o : Outcome)
      → Derives (p >> kleene (q >> p)) k s o
      → Derives (p <%> q) k s o
  times_zero : (p : Parser) (k : ℕ) (s : Bytes) → Derives (times 0 p) k s (hit k s)
  times_suc :
      (n : ℕ) (p : Parser) (k : ℕ) (s : Bytes) (o : Outcome)
      → Derives (p >> times n p) k s o
      → Derives (times (suc n) p) k s o
  between_zero : (p : Parser) (k : ℕ) (s : Bytes) → Derives (between 0 0 p) k s (hit k s)
  between_more :
      (hi : ℕ) (p : Parser) (k : ℕ) (s : Bytes) (o : Outcome)
      → Derives (optional (p >> between 0 hi p)) k s o
      → Derives (between 0 (suc hi) p) k s o
  between_suc :
      (lo hi : ℕ) (p : Parser) (k : ℕ) (s : Bytes) (o : Outcome)
      → Derives (p >> between lo hi p) k s o
      → Derives (between (suc lo) (suc hi) p) k s o
  of_size :
      (p : Parser) (k : ℕ) (s : Bytes) (o : Outcome)
      → Derives (times k p) k s o
      → Derives (sized p) k s o
  assigned :
      (p : Parser) (k k1 n : ℕ) (t r : Bytes)
      → Derives p k (t ++ r) (hit k1 r)
      → dehex t ≡ ok n
      → Derives (assigns p) k (t ++ r) (hit n r)
  unassigned :
      (p : Parser) (k k1 : ℕ) (s : Bytes)
      → Derives p k s (miss k1)
      → Derives (assigns p) k s (miss k1)
  lexeme :
      (p : Parser) (k : ℕ) (s : Bytes) (o : Outcome) → Derives p k s o → Derives (lexeme_d p) k s o
  of_comment :
      (k : ℕ) (s : Bytes) (o : Outcome) → Derives comment k s o → Derives comment_reference k s o
  of_never : (k : ℕ) (s : Bytes) → Derives never k s (miss k)

pub Derives-IsSpirit : IsSpirit Derives
Derives-IsSpirit = record {
  ch = ch;
  ch_other = ch_other;
  ch_end = ch_end;
  in_range = in_range;
  off_range = off_range;
  range_end = range_end;
  str = str;
  str_other = str_other;
  seq = seq;
  seq_miss = seq_miss;
  first = first;
  second = second;
  minus_none = minus_none;
  minus = minus;
  minus_shorter = minus_shorter;
  minus_taken = minus_taken;
  kleene_end = kleene_end;
  kleene_more = kleene_more;
  repeated = repeated;
  present = present;
  absent = absent;
  listed = listed;
  times_zero = times_zero;
  times_suc = times_suc;
  between_zero = between_zero;
  between_more = between_more;
  between_suc = between_suc;
  of_size = of_size;
  unassigned = unassigned;
  lexeme = lexeme;
  of_comment = of_comment;
  of_never = of_never;
}

Derives-Assigns : Assigns Derives
Derives-Assigns = record { assigned = assigned }

request_text-agrees_example :
    Derives request 0 (request_text got []) (hit 0 [])
    × (on_data_ready read_decimal 7 none (request_text got []) ≡ finished (got ∷ []))
unfolding occurs
request_text-agrees_example =
    request_text-agrees read_decimal 7 Derives-IsSpirit got (codes "b") [] 0 got-IsWire refl refl
      ((refl, tt), tt)

abbrev hello : Chunk
hello = record { size = codes "05"; bytes = codes "hello" }

hello-IsChunk : IsChunk hello
unfolding dehex all_hold
hello-IsChunk = record {
  ne_nil = λ h. cc;
  digits = (refl, (refl, tt));
  counts = refl;
  fits = omega arith;
  octets = omega arith;
}

chunked_body-misses_example : Derives chunked_body 7 (codes "05\r\nhello\r\n0\r\n\r\n") (miss 0)
chunked_body-misses_example =
    chunked_body-misses Derives-IsSpirit Derives-Assigns (hello ∷ []) 7 (hello-IsChunk, tt)

status_code-digits_example : Derives status_code 0 (codes "299 OK") (hit 0 (codes " OK"))
unfolding starts_with_digits
status_code-digits_example = status_code-digits Derives-IsSpirit 0 (codes "299 OK")

host-one_letter_example : Derives host 0 (codes "localhost/index") (hit 0 (codes "ocalhost/index"))
host-one_letter_example =
    host-one_letter Derives-IsSpirit b'l' b'o' 0 (codes "calhost/index") refl (omega arith)
