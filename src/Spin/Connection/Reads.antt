-- ===== src/Spin/Connection/Reads.antt =====
-- How many bytes `read` says that it has read.
use arachnida.Base.{
  ℕ, suc, ◌+◌, ◌-◌, ◌<◌, ◌%◌, Bool, true, false, List, [], ◌∷◌, ◌++◌, append_assoc, append-nil, ◌⊎◌,
  Option, some, Bytes, length, length-append, replicate, All, ◌≡◌, ◌≢◌, refl, ap, ◌∙◌, arith,
  Result, ok, ◌==◌, inl, inr,
}
use arachnida.Spin.Connection.{
  size_mod, default_read_block_size, reason_of, IntResult, moved, failure, Answer, ReadResult,
  short_read, read_answer, read_loop, Connection, read,
}

abbrev given : IntResult Bytes → Bytes
given (moved s) = s
given (failure k) = []

abbrev pub bytes_of : Answer Bytes → Bytes
bytes_of a = given a.result

-- The BIO has filled the block that was asked for.
abbrev pub IsBlock : Answer Bytes → Type 0
IsBlock a = (a.result ≡ moved (bytes_of a)) × (length (bytes_of a) ≡ default_read_block_size)

abbrev pub joined : List (Answer Bytes) → Bytes
joined [] = []
joined (a ∷ answers) = bytes_of a ++ joined answers

read_loop-block :
    (a : Answer Bytes) (rest : List (Answer Bytes)) (filled : Bytes) (into : ℕ)
    → IsBlock a
    → read_loop (a ∷ rest) true default_read_block_size filled into
      ≡ read_loop rest true default_read_block_size
          (filled ++ bytes_of a)
          (length (filled ++ bytes_of a))
read_loop-block a rest filled into (e, n) = unfold read_loop in rw (e, n)

-- After `blocks` the next answer is read behind them, and the count is their length.
read_loop-blocks :
    (blocks : List (Answer Bytes)) (a : Answer Bytes) (rest : List (Answer Bytes)) (filled : Bytes)
    → All IsBlock blocks
    → read_loop (blocks ++ a ∷ rest) true default_read_block_size filled (length filled)
      ≡ read_loop
          (a ∷ rest)
          true
          default_read_block_size
          (filled ++ joined blocks)
          (length (filled ++ joined blocks))
read_loop-blocks [] a rest filled h = rw append-nil
read_loop-blocks (b ∷ blocks) a rest filled (hb, h) =
    read_loop-block b (blocks ++ a ∷ rest) filled (length filled) hb
    ∙ read_loop-blocks blocks a rest (filled ++ bytes_of b) h
    ∙ rw append_assoc

read_usable :
    (c : Connection) (answers : List (Answer Bytes))
    → c.usable ≡ true
    → read c 0 answers ≡ read_loop answers true default_read_block_size [] 0
read_usable c answers u = unfold read in ground (arith, u)

short_read_ok :
    (a : Answer Bytes) (nothing : Bool) (buffer : Bytes) (count n : ℕ)
    → (nothing ≡ false) ⊎ (a.should_retry ≡ true)
    → count % size_mod ≡ n
    → short_read a nothing buffer count
      ≡ ok (record {
        buffer = buffer;
        bytes_read = n;
        reason = reason_of a.should_read a.should_write;
      })
short_read_ok a nothing buffer count n h e = unfold short_read in ground arith

read_answer-short :
    (r : IntResult Bytes) (a : Answer Bytes) (s filled : Bytes) (requested into : ℕ)
    (again : Bytes → Option (Result ReadResult))
    → r ≡ moved s
    → length s < requested
    → read_answer r a true requested filled into again
      ≡ some (
          short_read a
            (length s == 0)
            (filled ++ (s ++ replicate (requested - length s) 0))
            (into + length s))
read_answer-short r a s filled requested into again e h = unfold read_answer in ground arith

not_empty : (s : Bytes) → s ≢ [] → (length s == 0) ≡ false
not_empty [] h = absurd (h refl)
not_empty (c ∷ s) h = ground arith

more_to_come :
    (s : Bytes) (retry : Bool)
    → (s ≢ []) ⊎ (retry ≡ true)
    → ((length s == 0) ≡ false) ⊎ (retry ≡ true)
more_to_come s retry (inl ne) = inl (not_empty s ne)
more_to_come s retry (inr r) = inr r

read-start :
    (c : Connection) (blocks : List (Answer Bytes)) (a : Answer Bytes) (rest : List (Answer Bytes))
    → c.usable ≡ true
    → All IsBlock blocks
    → read c 0 (blocks ++ a ∷ rest)
      ≡ read_answer a.result a true default_read_block_size
          (joined blocks)
          (length (joined blocks))
          (λ full. read_loop rest true default_read_block_size full (length full))
read-start c blocks a rest u h =
    read_usable c (blocks ++ a ∷ rest) u
    ∙ read_loop-blocks blocks a rest [] h
    ∙ (unfold read_loop in refl)

-- An empty buffer asks for all that there is. After any number of full blocks and a short one, the
-- buffer starts with exactly these bytes, the number returned is theirs, and the reason says to retry.
-- The short block is not empty, or the BIO asks for a retry.
pub read_counts :
    (c : Connection) (blocks : List (Answer Bytes)) (a : Answer Bytes) (rest : List (Answer Bytes))
    (s : Bytes)
    → c.usable ≡ true
    → All IsBlock blocks
    → a.result ≡ moved s
    → length s < default_read_block_size
    → (s ≢ []) ⊎ (a.should_retry ≡ true)
    → length (joined blocks ++ s) < size_mod
    → (tail : Bytes) × (read c 0 (blocks ++ a ∷ rest)
        ≡ some (
            ok (record {
              buffer = (joined blocks ++ s) ++ tail;
              bytes_read = length (joined blocks ++ s);
              reason = reason_of a.should_read a.should_write;
            })))
read_counts c blocks a rest s u h e short more fits =
    let room = default_read_block_size - length s in
    let filled = joined blocks in
    (
      replicate room 0,
      read-start c blocks a rest u h
          ∙ rw (append_assoc filled s (replicate room 0)) (
              read_answer-short a.result a s filled default_read_block_size (length filled)
                (λ full. read_loop rest true default_read_block_size full (length full)) e short
              ∙ ap some (
                  short_read_ok a (length s == 0) _ (length filled + length s)
                    (length (filled ++ s)) (more_to_come s a.should_retry more)
                    (omega (arith, length-append filled s)))),
    )

-- A read that fails for now is counted as -1 byte (or as what the BIO returns): after full blocks the
-- number returned is too small, and with no block before it, it is near 2^64.
pub read_miscounts :
    (c : Connection) (blocks : List (Answer Bytes)) (a : Answer Bytes) (rest : List (Answer Bytes))
    (k : ℕ)
    → c.usable ≡ true
    → All IsBlock blocks
    → a.result ≡ failure k
    → a.should_retry ≡ true
    → (buffer : Bytes) × (read c 0 (blocks ++ a ∷ rest)
        ≡ some (
            ok (record {
              buffer = buffer;
              bytes_read = (length (joined blocks) + size_mod - suc k) % size_mod;
              reason = reason_of a.should_read a.should_write;
            })))
read_miscounts c blocks a rest k u h e retry =
    let filled = joined blocks in
    (
      filled ++ replicate default_read_block_size 0,
      read-start c blocks a rest u h
          ∙ rw e (
              unfold read_answer in
              ap some
                (short_read_ok a true _ (length filled + size_mod - suc k) _ (inr retry) refl)),
    )
