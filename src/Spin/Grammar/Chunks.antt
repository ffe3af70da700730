-- ===== src/Spin/Grammar/Chunks.antt =====
-- The rule `Chunked_Body_` on bodies in chunks.
use arachnida.Base.{
  ◌%◌, ◌<◌, ◌∙◌, ap, ℕ, true, List, ◌∷◌, [], ◌++◌, some, Bytes, length, All, IsByte, ◌≡◌, ◌≢◌, refl,
  arith, ok,
}
use native.Mathlib.Nat.{mod-eq_of_lt}
use arachnida.Spin.HexAdapter.{size_mod, dehex}
use arachnida.Spin.HexAdapter.Digits.{IsDigit, number, dehex_lem}
use arachnida.Spin.Grammar.{Parser, ◌>>◌, kleene, positive, optional, times, sized}
use arachnida.Spin.Grammar.Basic.{crlf, octet, hex}
use arachnida.Spin.Grammar.Values.{chunk_size_p, chunk_extension, chunk_data, chunk, last_chunk}
use arachnida.Spin.Grammar.Entities.{trailer, chunked_body}
use arachnida.Spin.Grammar.Spirit.{Outcome, miss, hit, IsSpirit, Assigns}
use arachnida.Spin.Grammar.Interpreter.{run}
use arachnida.Spin.Grammar.Sound.{run_sound}
use arachnida.Spin.Grammar.Blanks.{crlf-hit}
use arachnida.Spin.Grammar.Chars.{takes, takes-hit, takes-miss, positive-takes}

-- A chunk as a sender writes it: its size in hexadecimal, and its data. The size has no upper-case A,
-- which `dehex` counts as sixteen, and fits a `std::size_t`.
pub record Chunk : Type 0 where
  pub size : Bytes
  pub bytes : Bytes

pub record IsChunk (c : Chunk) : Type 0 where
  pub ne_nil : c.size ≢ []
  pub digits : All IsDigit c.size
  pub counts : number 0 c.size ≡ length c.bytes
  pub fits : length c.bytes < size_mod
  pub octets : All IsByte c.bytes

abbrev pub chunks_text : List Chunk → Bytes → Bytes
chunks_text [] rest = rest
chunks_text (c ∷ cs) rest = c.size ++ 13 ∷ 10 ∷ (c.bytes ++ 13 ∷ 10 ∷ chunks_text cs rest)

-- The last chunk, no trailer, and the line end behind it.
abbrev pub end_of_body : Bytes
end_of_body = b'0' ∷ 13 ∷ 10 ∷ 13 ∷ 10 ∷ []

dehex-IsChunk : (c : Chunk) → IsChunk c → dehex c.size ≡ ok (length c.bytes)
dehex-IsChunk c h =
    dehex_lem c.size h.digits ∙ ap ok (ap (λ n. n % size_mod) h.counts ∙ mod-eq_of_lt h.fits)

-- The last chunk, seen as one without data.
abbrev empty : Chunk
empty = record { size = b'0' ∷ []; bytes = [] }

empty-IsChunk : IsChunk empty
empty-IsChunk = record {
  ne_nil = λ h. cc;
  digits = (refl, tt);
  counts = refl;
  fits = omega arith;
  octets = tt;
}

hex-takes : (s : Bytes) → All IsDigit s → All (λ c. takes hex c ≡ some true) s
unfolding takes hex
hex-takes [] h = tt
hex-takes (c ∷ s) (h, hs) = (ground arith, hex-takes s hs)

module _ {Parses : Parser → ℕ → Bytes → Outcome → Type 0} (spirit : IsSpirit Parses)
    (action : Assigns Parses) where
  octets-times :
      (s : Bytes) (k : ℕ) (r : Bytes)
      → All IsByte s
      → Parses (times (length s) octet) k (s ++ r) (hit k r)
  unfolding takes octet
  octets-times [] k r h = spirit.times_zero octet k r
  octets-times (c ∷ s) k r (h, hs) = spirit.times_suc (length s) octet k (c ∷ (s ++ r)) (hit k r) (
      spirit.seq octet (times (length s) octet) k k (c ∷ (s ++ r)) (s ++ r) (hit k r)
        (takes-hit spirit octet c k (s ++ r) (ground arith)) (octets-times s k r hs))

  chunk_size_p-digits :
      (t : Bytes) (n k : ℕ) (r : Bytes)
      → t ≢ []
      → All IsDigit t
      → dehex t ≡ ok n
      → Parses chunk_size_p k (t ++ 13 ∷ r) (hit n (13 ∷ r))
  unfolding chunk_size_p
  chunk_size_p-digits [] n k r h hs e = absurd (h refl)
  chunk_size_p-digits (c ∷ t) n k r h hs e =
      action.assigned (positive hex) k k n (c ∷ t) (13 ∷ r)
        (positive-takes spirit hex c t k (13 ∷ r) (hex-takes (c ∷ t) hs)
          (takes-miss spirit hex 13 k r (unfold takes hex in refl)))
        e

  chunk-IsChunk :
      (c : Chunk) (k : ℕ) (r : Bytes)
      → IsChunk c
      → Parses chunk k (c.size ++ 13 ∷ 10 ∷ (c.bytes ++ 13 ∷ 10 ∷ r)) (hit (length c.bytes) r)
  unfolding chunk chunk_data
  chunk-IsChunk c k r h =
      let n = length c.bytes in
      let behind = 13 ∷ 10 ∷ r in
      let body = c.bytes ++ behind in
      let line = 13 ∷ 10 ∷ body in
      let whole = c.size ++ line in
      let extension = optional chunk_extension in
      spirit.seq (chunk_size_p >> extension >> crlf >> sized octet) crlf k n whole behind (hit n r)
        (spirit.seq (chunk_size_p >> extension >> crlf) (sized octet) k n whole body (hit n behind)
          (spirit.seq (chunk_size_p >> extension) crlf k n whole line (hit n body)
            (spirit.seq chunk_size_p extension k n whole line (hit n line)
              (chunk_size_p-digits c.size n k (10 ∷ body) h.ne_nil h.digits (dehex-IsChunk c h))
              (run_sound spirit 12 extension n line (unfold run chunk_extension in refl)))
            (crlf-hit spirit n body))
          (spirit.of_size octet n body (hit n behind) (octets-times c.bytes n behind h.octets)))
        (crlf-hit spirit n r)

  kleene-chunks :
      (cs : List Chunk) (k : ℕ) (rest : Bytes) (o : Outcome)
      → All IsChunk cs
      → ((k1 : ℕ) → Parses (kleene chunk) k1 rest o)
      → Parses (kleene chunk) k (chunks_text cs rest) o
  kleene-chunks [] k rest o h g = g k
  kleene-chunks (c ∷ cs) k rest o (h, hs) g =
      let r = chunks_text cs rest in
      spirit.kleene_more chunk k (length c.bytes) (c.size ++ 13 ∷ 10 ∷ (c.bytes ++ 13 ∷ 10 ∷ r)) r o
        (chunk-IsChunk c k r h) (kleene-chunks cs (length c.bytes) rest o hs g)

  -- The repetition takes the end of the body too, as a chunk without data.
  chunks-take_end : (k : ℕ) → Parses (kleene chunk) k end_of_body (hit 0 [])
  unfolding run chunk
  chunks-take_end k =
      spirit.kleene_more chunk k 0 end_of_body [] (hit 0 [])
        (chunk-IsChunk empty k [] empty-IsChunk)
        (spirit.kleene_end chunk 0 0 [] (run_sound spirit 30 chunk 0 [] refl))

  -- The rule for a body in chunks misses every body without a trailer that the text ends with: whatever
  -- the chunks are, each of a size below 2^64 in hexadecimal digits that is the number of its bytes and
  -- has no upper-case A, it misses the text of these chunks, the last chunk and the line end. That is so
  -- although Spirit's combinators do what is documented of them, and the action on a size sets
  -- `chunk_size_` as it is meant to.
  pub chunked_body-misses :
      (cs : List Chunk) (k : ℕ)
      → All IsChunk cs
      → Parses chunked_body k (chunks_text cs end_of_body) (miss 0)
  unfolding chunked_body
  chunked_body-misses cs k h =
      let s = chunks_text cs end_of_body in
      spirit.seq_miss (kleene chunk >> last_chunk >> trailer) crlf k 0 s (
        spirit.seq_miss (kleene chunk >> last_chunk) trailer k 0 s (
          spirit.seq (kleene chunk) last_chunk k 0 s [] (miss 0)
            (kleene-chunks cs k end_of_body (hit 0 []) h chunks-take_end)
            (run_sound spirit 12 last_chunk 0 [] (unfold run last_chunk in refl))))
