-- ===== src/Spin/Tests/Exceptions.antt =====
-- Exceptions with text: runs and the theorems at concrete inputs.
use arachnida.Base.{
  ℕ, zero, suc, true, false, [], ◌∷◌, ◌++◌, none, some, codes, replicate, ◌≡◌, refl, arith,
}
use arachnida.Spin.Exceptions.{c_string, unknown_method, invalid_header, unsupported_protocol, copy}
use arachnida.Spin.Exceptions.Copies.{IsText, copy-unknown_method}
use arachnida.Spin.Exceptions.Failures.{
  Errno, aborted, failure, bind_what, listen_what, eaddrinuse, eaddrnotavail, eafnosupport, ebadf,
  edestaddrreq, einval, enotsock, eopnotsupp, eacces, eisconn, eloop, enametoolong, enobufs, emfile,
  enfile, eprotonosupport, eprototype, enomem,
}
use arachnida.Spin.Exceptions.Messages.{read_said, what_says_prefix}
use arachnida.Spin.Exceptions.Sockets.{
  Storage, socket_error, copy_error, text, socket_messages, error_text,
}
use arachnida.Spin.Exceptions.Sockets.Sentences.{storage, says, what-copy_error}
use arachnida.Spin.Tests.Decimal.{print_from, print_decimal}

-- The numbers of Linux
abbrev linux : Errno → ℕ
linux eaddrinuse = 98
linux eaddrnotavail = 99
linux eafnosupport = 97
linux ebadf = 9
linux edestaddrreq = 89
linux einval = 22
linux enotsock = 88
linux eopnotsupp = 95
linux eacces = 13
linux eisconn = 106
linux eloop = 40
linux enametoolong = 36
linux enobufs = 105
linux emfile = 24
linux enfile = 23
linux eprotonosupport = 93
linux eprototype = 91
linux enomem = 12

emfile_text :
    error_text linux socket_messages 24
    ≡ codes "No more file descriptors are available for this process."
unfolding error_text socket_messages
emfile_text = refl

unknown_text : error_text linux socket_messages 1 ≡ codes "Unknown error."
unfolding error_text socket_messages
unknown_text = refl

what_says_prefix_example :
    ((bind_what linux true true 0 (failure 98)).0 ≡ aborted)
    × ((listen_what linux true true 0 (failure 98)).0 ≡ aborted)
    × (read_said (bind_what linux false true 0 (failure 98)).0 ≡ some (codes "Bind failure: "))
    × (read_said (listen_what linux false true 0 (failure 98)).0 ≡ some (codes "Listen failure: "))
what_says_prefix_example = what_says_prefix linux 0 98

letters-IsText : (n : ℕ) → IsText (replicate n b'A')
letters-IsText zero = tt
letters-IsText (suc n) = (omega arith, letters-IsText n)

short_text :
    c_string ((copy (replicate 97 7) (invalid_header (replicate 97 9) (codes "a: b"))).0.content)
    ≡ some (codes "a: b")
unfolding copy
short_text = refl

protocol_text :
    c_string ((unsupported_protocol (replicate 97 9) (codes "HTTP/2")).content)
    ≡ some (codes "HTTP/2")
protocol_text = refl

-- A method of a hundred letters, copied to storage whose last byte is not zero
copy-unknown_method_run :
    (c_string ((unknown_method (replicate 96 9 ++ (9 ∷ [])) (replicate 100 b'A')).content)
      ≡ some (replicate 96 b'A'))
    × (c_string (
          (copy
            (replicate 96 7 ++ (7 ∷ []))
            (unknown_method (replicate 96 9 ++ (9 ∷ [])) (replicate 100 b'A'))).0.content)
        ≡ none)
copy-unknown_method_run =
    copy-unknown_method (replicate 100 b'A') (replicate 96 9) (replicate 96 7) 9 7
      (letters-IsText 100) refl refl

abbrev stale : Storage
stale = record {
  message_memory = codes "old" ++ (0 ∷ []);
  function_memory = 0 ∷ [];
  number_memory = 24;
}

accept-IsText : IsText (codes "accept")
accept-IsText =
    (omega arith, (omega arith, (omega arith, (omega arith, (omega arith, (omega arith, tt))))))

what-copy_error_run :
    let e =
      socket_error
        (storage (replicate 64 9) 9 (replicate 32 9) 9 0)
        (replicate 70 b'A')
        (codes "accept")
        12 in
    let told = text (
      codes "Socket Error: "
      ++ (replicate 64 b'A'
          ++ codes
              ": accept returned with 12 (Insufficient memory was available to fulfill the request.)")) in
    ((says print_decimal linux e).0 ≡ told)
    × ((says print_decimal linux (copy_error stale (says print_decimal linux e).1).0).0 ≡ told)
    × ((says print_decimal linux (copy_error stale (says print_decimal linux e).1).1).0 ≡ told)
    × ((says print_decimal linux (copy_error stale e).0).0
        ≡ text (
            codes
              "Socket Error: old:  returned with 24 (No more file descriptors are available for this process.)"))
unfolding error_text socket_messages print_from
what-copy_error_run =
    what-copy_error print_decimal linux stale (replicate 64 9) (replicate 32 9) 9 9 0
      (replicate 70 b'A') (codes "accept") 12 (codes "old") [] (letters-IsText 70) accept-IsText
      refl refl refl refl
