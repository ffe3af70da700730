-- ===== src/Spin/Connection.antt =====
-- lib/Spin/Connection.h and Connection.cpp. The BIO is OpenSSL's: what it answers to a call is an
-- argument, one answer for each call. An `int` result is the bytes moved, or `failure k` for -(k + 1).
-- `std::size_t` has 64 bits.
pub mod Reads
use arachnida.Base.{
  ℕ, zero, suc, ◌+◌, ◌-◌, ◌*◌, ◌%◌, ◌^◌, Bool, true, false, not, List, [], ◌∷◌, ◌++◌, Option, none,
  some, Bytes, length, replicate, ltb, ◌==◌, ◌&&◌, if◌then◌else◌, Result, ok, throw, ◌>>=◌,
  connection_closed, unusable_connection, method_not_implemented,
}

abbrev pub size_mod : ℕ
size_mod = 2 ^ 64

abbrev pub default_read_block_size : ℕ
default_read_block_size = 4096

-- `should_retry__`, `should_read__` and `should_write__` in one number.
unfoldable pub reason_of : Bool → Bool → ℕ
reason_of should_read should_write =
    1 + (if should_read then 2 else 0) + (if should_write then 4 else 0)

pub data IntResult (A : Type 0) : Type 0 where
  moved : A → IntResult A
  failure : ℕ → IntResult A

-- The answer to one call of the BIO, with what `shouldRetry`, `shouldRead` and `shouldWrite` say then.
pub record Answer (A : Type 0) : Type 0 where
  pub result : IntResult A
  pub should_retry : Bool
  pub should_read : Bool
  pub should_write : Bool

-- What `read` leaves in the buffer, the number that it returns, and the reason.
pub record ReadResult : Type 0 where
  pub buffer : Bytes
  pub bytes_read : ℕ
  pub reason : ℕ

-- A short read: `count` is the sum that the code returns, `nothing` is `bytes_read <= 0`.
unfoldable pub short_read : Answer Bytes → Bool → Bytes → ℕ → Result ReadResult
unfolding reason_of
short_read a nothing buffer count =
    if not a.should_retry && nothing
    then throw connection_closed
    else ok (record {
      buffer = buffer;
      bytes_read = count % size_mod;
      reason = reason_of a.should_read a.should_write;
    })

-- What follows one call of the BIO. `filled` is the buffer up to `start_offset`, `requested` the room
-- behind it, `into` is `bytes_read_into_buffer`, and `again` the way back to `read_entry_point`.
unfoldable pub read_answer :
    IntResult Bytes
    → Answer Bytes
    → Bool
    → ℕ
    → Bytes
    → ℕ
    → (Bytes → Option (Result ReadResult))
    → Option (Result ReadResult)
unfolding short_read
read_answer (failure k) a continue_until_retry requested filled into again =
    some (short_read a true (filled ++ replicate requested 0) (into + size_mod - suc k))
read_answer (moved s) a continue_until_retry requested filled into again =
    if ltb (length s) requested
    then some (
        short_read a (length s == 0) (filled ++ (s ++ replicate (requested - length s) 0))
          (into + length s))
    else if continue_until_retry
    then again (filled ++ s)
    else some (ok (record { buffer = filled ++ s; bytes_read = length (filled ++ s); reason = 0 }))

-- From `read_entry_point` on, an answer for each call. `none`: the answers end while the code reads.
unfoldable pub read_loop : List (Answer Bytes) → Bool → ℕ → Bytes → ℕ → Option (Result ReadResult)
unfolding read_answer
read_loop [] continue_until_retry requested filled into = none
read_loop (a ∷ answers) continue_until_retry requested filled into =
    read_answer a.result a continue_until_retry requested filled into
      (λ full. read_loop answers continue_until_retry default_read_block_size full (length full))

-- `usable` is `bio_`; a handler is known by a number, and the descriptor is -1 if `none`.
pub record Connection : Type 0 where
  pub usable : Bool
  pub data_handler : Option ℕ
  pub error_handler : Option ℕ
  pub fd : Option ℕ

-- The constructor, with the descriptor of the BIO.
abbrev pub make_connection : Option ℕ → Connection
make_connection fd = record { usable = true; data_handler = none; error_handler = none; fd = fd }

-- `read` into a buffer of the given size; size 0 asks for all that there is, in blocks.
unfoldable pub read : Connection → ℕ → List (Answer Bytes) → Option (Result ReadResult)
unfolding read_loop
read c buffer_size answers =
    if not c.usable
    then some (throw unusable_connection)
    else if buffer_size == 0
    then read_loop answers true default_read_block_size [] 0
    else read_loop answers false buffer_size [] 0

-- What follows the call of the BIO in `write`, for data that is not empty.
unfoldable pub write_answer : IntResult ℕ → Answer ℕ → ℕ → Result (ℕ × ℕ)
unfolding reason_of
write_answer (failure k) a size =
    if k == 1
    then throw method_not_implemented
    else if not a.should_retry
    then throw connection_closed
    else ok (size_mod - suc k, reason_of a.should_read a.should_write)
write_answer (moved n) a size =
    if ltb n size
    then (if not a.should_retry
        then throw connection_closed
        else ok (n, reason_of a.should_read a.should_write))
    else ok (n, 0)

-- The number that `write` returns, and the reason.
unfoldable pub write : Connection → Bytes → Answer ℕ → Result (ℕ × ℕ)
unfolding write_answer
write c bytes a =
    if not c.usable
    then throw unusable_connection
    else if length bytes == 0
    then ok (0, 0)
    else write_answer a.result a (length bytes)

unfoldable pub close : Connection → Connection
close c = record c { usable = false }

-- `poll`, `usesSSL` and `getPeerAddress`: what the BIO or the system answers, if there is a BIO.
unfoldable pub ask_if_usable : {A : Type 0} → Connection → A → Result A
ask_if_usable c answer = if not c.usable then throw unusable_connection else ok answer

-- `own_on_error` is a call of `onError_`.
pub data ErrorCallback : Type 0 where
  own_on_error : ErrorCallback
  provided : ℕ → ErrorCallback

-- `attach` and `detach` are calls of the connection handler, which the result names.
pub data Registration : Type 0 where
  attached : ℕ → ErrorCallback → Registration
  detached : ℕ → Registration

unfoldable pub set_new_data_handler : Connection → ℕ → Option ℕ → Connection × Result Registration
set_new_data_handler c handler on_error_callback =
    let callback : ErrorCallback = elim on_error_callback [
      | none ↦ own_on_error
      | some k ↦ provided k
    ] in
    let with_handler = record c { data_handler = some handler } in
    elim c.fd [
      | none ↦ (with_handler, throw unusable_connection)
      | some fd ↦ (with_handler, ok (attached fd callback))
    ]

unfoldable pub clear_new_data_handler : Connection → Connection × Result (Option Registration)
clear_new_data_handler c = elim c.data_handler [
  | none ↦ (c, ok none)
  | some _ ↦ elim c.fd [
    | none ↦ (c, throw unusable_connection)
    | some fd ↦ (record c { data_handler = none }, ok (some (detached fd)))
  ]
]

unfoldable pub set_error_handler : Connection → Option ℕ → Connection
set_error_handler c on_error_callback = record c { error_handler = on_error_callback }

unfoldable pub clear_error_handler : Connection → Connection
clear_error_handler c = record c { error_handler = none }

-- The handlers that `onDataReady_` and `onError_` call.
unfoldable pub on_data_ready : Connection → Option ℕ
on_data_ready c = c.data_handler

unfoldable pub on_error : Connection → Option ℕ
on_error c = c.error_handler
