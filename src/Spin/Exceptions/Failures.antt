-- ===== src/Spin/Exceptions/Failures.antt =====
-- lib/Spin/Exceptions/Connection/BindFailure and ListenFailure. The numbers of the errors of <cerrno>
-- are arguments; `allocates` is what the allocation does.
use arachnida.Base.{
  ℕ, ◌+◌, Bool, ◌&&◌, not, List, [], ◌∷◌, ◌++◌, Option, none, some, Bytes, codes, length, drop,
  ◌==◌, if◌then◌else◌,
}
use mathlib.Core.List.{map}

pub data Errno : Type 0 where
  eaddrinuse : Errno
  eaddrnotavail : Errno
  eafnosupport : Errno
  ebadf : Errno
  edestaddrreq : Errno
  einval : Errno
  enotsock : Errno
  eopnotsupp : Errno
  eacces : Errno
  eisconn : Errno
  eloop : Errno
  enametoolong : Errno
  enobufs : Errno
  emfile : Errno
  enfile : Errno
  eprotonosupport : Errno
  eprototype : Errno
  enomem : Errno

pub record Label : Type 0 where
  pub code : Errno
  pub text : Bytes

abbrev pub label : Errno → Bytes → Label
label c t = record { code = c; text = t }

unfoldable pub bind_messages : List Label
bind_messages =
    label eaddrinuse (codes "The specified address is already in use.")
    ∷ label eaddrnotavail (codes "The specified address is not available from the local machine.")
    ∷ label eafnosupport (
        codes
          "The specified address is not a valid address for the address family of the specified socket.")
    ∷ label ebadf (codes "The socket argument is not a valid file descriptor.")
    ∷ label einval (
        codes
          "The socket is already bound to an address, and the protocol does not support binding to a new address; or the socket has been shut down.")
    ∷ label enotsock (codes "The socket argument does not refer to a socket.")
    ∷ label eopnotsupp
        (codes "The socket type of the specified socket does not support binding to an address.")
    ∷ label eacces (
        codes
          "The specified address is protected and the current user does not have permission to bind to it.")
    ∷ label eisconn (codes "The socket is already connected.")
    ∷ label eloop (
        codes
          "More than {SYMLOOP_MAX} symbolic links were encountered during resolution of the pathname in address.")
    ∷ label enametoolong (
        codes
          "Pathname resolution of a symbolic link produced an intermediate result whose length exceeds {PATH_MAX}.")
    ∷ label enobufs (codes "Insufficient resources were available to complete the call.")
    ∷ []

unfoldable pub listen_messages : List Label
listen_messages =
    label ebadf (codes "The socket argument is not a valid file descriptor.")
    ∷ label edestaddrreq (
        codes
          "The socket is not bound to a local address, and the protocol does not support listening on an unbound socket.")
    ∷ label einval (codes "The socket is either already connected or has been shut down.")
    ∷ label enotsock (codes "The socket argument does not refer to a socket.")
    ∷ label eopnotsupp (codes "The socket protocol does not support listen().")
    ∷ label eacces (codes "The calling process does not have the appropriate privileges.")
    ∷ label enobufs
        (codes "Insufficient resources are available in the system to complete the call.")
    ∷ []

abbrev pub unknown_error : Bytes
unknown_error = codes "Unknown error."

-- What is assigned to `error_text` from the label of the code on. The macro `CASE_ERROR_MESSAGE` ends
-- without a `break`, so the labels after it are executed too, the default one last.
unfoldable pub assignments : (Errno → ℕ) → ℕ → List Label → List Bytes
assignments number error_code [] = unknown_error ∷ []
assignments number error_code (l ∷ labels) =
    let later = assignments number error_code labels in
    if error_code == number l.code
    then l.text ∷ (map (λ m. m.text) labels ++ (unknown_error ∷ []))
    else later

abbrev pub last_assigned : Bytes → List Bytes → Bytes
last_assigned current [] = current
last_assigned current (t ∷ ts) = last_assigned t ts

-- `BindFailure` and `ListenFailure`
pub record Failure : Type 0 where
  pub error_code : ℕ
  pub formatted : Option Bytes

pub data Said : Type 0 where
  aborted : Said
  said : Bytes → Said

unfoldable pub failure : ℕ → Failure
failure error_code = record { error_code = error_code; formatted = none }

-- The array that `what_` points to, with `spare` in its last place: the terminator is written at
-- `where`, which the second `std::copy` has not moved.
unfoldable pub write_text : Bytes → Bytes → ℕ → Bytes
write_text prefix text spare = prefix ++ (0 ∷ drop 1 (text ++ (spare ∷ [])))

module _ (number : Errno → ℕ) (asserts allocates : Bool) (spare : ℕ) where
  unfoldable pub what_with : Bytes → Bytes → List Label → Failure → Said × Failure
  what_with otherwise prefix labels e = elim e.formatted [
    | some text ↦ (said text, e)
    | none ↦
        let text = last_assigned [] (assignments number e.error_code labels) in
        if not allocates
        then (said otherwise, e)
        else if asserts && not (length prefix == length prefix + length text)
        then (aborted, e)
        else (
          said (write_text prefix text spare),
          record { error_code = e.error_code; formatted = some (write_text prefix text spare) },
        )
  ]

  -- `BindFailure::what`
  unfoldable pub bind_what : Failure → Said × Failure
  unfolding what_with bind_messages
  bind_what = what_with (codes "Bind failure.") (codes "Bind failure: ") bind_messages

  -- `ListenFailure::what`
  unfoldable pub listen_what : Failure → Said × Failure
  unfolding what_with listen_messages
  listen_what = what_with (codes "Listen failure.") (codes "Listen failure: ") listen_messages
