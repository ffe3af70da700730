-- ===== src/Spin/Exceptions/Sockets.antt =====
-- lib/Spin/Exceptions/Socket.h and Socket.cpp. The arrays are C strings once they are written; what
-- they and the error code hold before that is an argument. `formats` and `duplicates` are what
-- `boost::format` and `strdup` do, and `to_text` is the text of a number.
pub mod Sentences
use arachnida.Base.{
  ℕ, Bool, List, [], ◌∷◌, ◌++◌, Option, none, some, Bytes, codes, take, ◌==◌, if◌then◌else◌, not,
}
use arachnida.Spin.Exceptions.{c_string, overwrite}
use arachnida.Spin.Exceptions.Failures.{
  Errno, Label, label, unknown_error, eafnosupport, emfile, enfile, eprotonosupport, eprototype,
  eacces, enobufs, enomem,
}

pub record SocketError : Type 0 where
  pub message : Bytes
  pub function : Bytes
  pub error_code : ℕ
  pub formatted : Option Bytes

abbrev pub max_message_size : ℕ
max_message_size = 64

abbrev pub max_function_size : ℕ
max_function_size = 32

-- What the storage of an object holds before it is constructed.
pub record Storage : Type 0 where
  pub message_memory : Bytes
  pub function_memory : Bytes
  pub number_memory : ℕ

unfoldable pub socket_error : Storage → Bytes → Bytes → ℕ → SocketError
socket_error memory message function error_code = record {
  message = overwrite (take max_message_size message ++ (0 ∷ [])) memory.message_memory;
  function = overwrite (take max_function_size function ++ (0 ∷ [])) memory.function_memory;
  error_code = error_code;
  formatted = none;
}

-- The copy constructor, which initialises the base and `what_` only: the copy, and what is left of the
-- error that was copied.
unfoldable pub copy_error : Storage → SocketError → SocketError × SocketError
copy_error memory e = (
  record {
    message = memory.message_memory;
    function = memory.function_memory;
    error_code = memory.number_memory;
    formatted = e.formatted;
  },
  record {
    message = e.message;
    function = e.function;
    error_code = e.error_code;
    formatted = none;
  },
)

unfoldable pub socket_messages : List Label
socket_messages =
    label eafnosupport (codes "The implementation does not support the specified address family.")
    ∷ label emfile (codes "No more file descriptors are available for this process.")
    ∷ label enfile (codes "No more file descriptors are available for the system.")
    ∷ label eprotonosupport (
        codes
          "The protocol is not supported by the address family, or the protocol is not supported by the implementation.")
    ∷ label eprototype (codes "The socket type is not supported by the protocol.")
    ∷ label eacces (codes "The process does not have appropriate privileges.")
    ∷ label enobufs
        (codes "Insufficient resources were available in the system to perform the operation.")
    ∷ label enomem (codes "Insufficient memory was available to fulfill the request.")
    ∷ []

-- The switch, whose cases end in a `break`.
unfoldable pub error_text : (Errno → ℕ) → List Label → ℕ → Bytes
error_text number [] code = unknown_error
error_text number (l ∷ labels) code =
    let other = error_text number labels code in if code == number l.code then l.text else other

-- `undefined`: an array without a terminator is read.
pub data Answer : Type 0 where
  undefined : Answer
  null : Answer
  text : Bytes → Answer

-- `"Socket Error: %1%: %2% returned with %3% (%4%)"`
abbrev pub sentence : (ℕ → Bytes) → (Errno → ℕ) → Bytes → Bytes → ℕ → Bytes
sentence to_text number message function code =
    codes "Socket Error: "
    ++ (message
        ++ (codes ": "
            ++ (function
                ++ (codes " returned with "
                    ++ (to_text code
                        ++ (codes " ("
                            ++ (error_text number socket_messages code ++ codes ")")))))))

module _ (to_text : ℕ → Bytes) (number : Errno → ℕ) (formats duplicates : Bool) where
  unfoldable pub what : SocketError → Answer × SocketError
  what e = elim e.formatted [
    | some kept ↦ (text kept, e)
    | none ↦ if not formats then (text (codes "Socket error."), e) else elim (c_string e.message) [
      | none ↦ (undefined, e)
      | some message ↦ elim (c_string e.function) [
        | none ↦ (undefined, e)
        | some function ↦ if not duplicates then (null, e) else (
          text (sentence to_text number message function e.error_code),
          record {
            message = e.message;
            function = e.function;
            error_code = e.error_code;
            formatted = some (sentence to_text number message function e.error_code);
          },
        )
      ]
    ]
  ]
