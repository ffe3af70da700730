-- ===== src/Spin/Pipe/Sends.antt =====
-- What Pipe::write sends.
use arachnida.Base.{
  ℕ, ◌-◌, ◌<◌, List, [], ◌∷◌, ◌++◌, Option, some, Bytes, take, length, ◌≡◌, refl, arith, ok,
}
use arachnida.Spin.Pipe.{write_loop, write}

take_length : (s : Bytes) → take (length s) s ≡ s
take_length [] = refl
take_length (c ∷ s) = rw (take_length s)

-- A buffer that the system takes in one call arrives as it is, whatever the system would answer next.
pub write_whole :
    (buffer : Bytes) (later : List (Option ℕ))
    → write (some (length buffer) ∷ later) buffer ≡ record { sent = buffer; result = some (ok tt) }
unfolding write write_loop
write_whole buffer later = ground (arith, take_length buffer)

-- A buffer that the system takes in two calls does not arrive: the second call sends from the begin of
-- the buffer again.
pub write_partial :
    (buffer : Bytes) (n : ℕ) (later : List (Option ℕ))
    → n < length buffer
    → write (some n ∷ some (length buffer - n) ∷ later) buffer
      ≡ record { sent = take n buffer ++ take (length buffer - n) buffer; result = some (ok tt) }
unfolding write write_loop
write_partial buffer n later h = ground arith
