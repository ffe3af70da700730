-- ===== src/Spin/Pipe.antt =====
-- `Pipe::write` and `Pipe::read` of lib/Spin/Private/Pipe.cpp. What `send` and `recv` answer are
-- arguments: the number of bytes sent, `none` if it is -1.
pub mod Sends
pub mod Ends
use arachnida.Base.{
  ℕ, zero, suc, ◌-◌, Bool, true, false, List, [], ◌∷◌, ◌++◌, Option, none, some, Bytes, take,
  length, ◌==◌, if◌then◌else◌, Result, ok, throw, socket_error,
}

-- The bytes that the other end of the pipe gets, and the result: `none` if the answers end while the
-- loop still sends.
pub record Written : Type 0 where
  pub sent : Bytes
  pub result : Option (Result (Unit {0}))

abbrev pub before : Bytes → Written → Written
before s w = record w { sent = s ++ w.sent }

-- The loop. `buffer` does not move; `count` is a `std::size_t`, and no more than `count` bytes are sent.
unfoldable pub write_loop : List (Option ℕ) → Bytes → ℕ → Written
write_loop [] buffer count = record { sent = []; result = none }
write_loop (none ∷ answers) buffer count = record { sent = []; result = some (throw socket_error) }
write_loop (some bytes_sent ∷ answers) buffer count =
    let again = before (take bytes_sent buffer) (write_loop answers buffer (count - bytes_sent)) in
    let done : Written = record { sent = take bytes_sent buffer; result = some (ok tt) } in
    if count - bytes_sent == 0 then done else again

unfoldable pub write : List (Option ℕ) → Bytes → Written
unfolding write_loop
write answers buffer = write_loop answers buffer (length buffer)

-- `recv` of up to `count` bytes.
unfoldable pub read : Option Bytes → Result Bytes
read none = throw socket_error
read (some received) = ok received
