-- ===== src/Spin/Exceptions.antt =====
-- The exceptions of lib/Spin/Exceptions that hold text in an array of `char`: InvalidHeader.h,
-- UnknownMethod.h and UnsupportedProtocol.h in HTTP. An array has the contents its storage had before,
-- which are arguments, until the code writes it. The failures of `bind` and `listen` are in the child.
pub mod Failures
pub mod Copies
pub mod Messages
pub mod Sockets
use arachnida.Base.{
  ℕ, Bool, List, [], ◌∷◌, ◌++◌, Option, none, some, Bytes, codes, take, ◌==◌, if◌then◌else◌,
}
use mathlib.Core.Option.{map}

-- What is read of an array as a C string: nothing, when no terminator is in it.
abbrev pub c_string : Bytes → Option Bytes
c_string [] = none
c_string (c ∷ s) = let rest = c_string s in if c == 0 then some [] else map (λ r. c ∷ r) rest

-- `std::copy` to the front of an array
abbrev pub overwrite {ℓ} : {A : Type ℓ} → List A → List A → List A
overwrite [] memory = memory
overwrite (c ∷ s) [] = []
overwrite (c ∷ s) (x ∷ memory) = c ∷ overwrite s memory

-- `message` is what `std::runtime_error` holds.
pub record HttpError : Type 0 where
  pub message : Bytes
  pub content : Bytes
  pub formatted : Option Bytes

-- `max_header_size__`, `max_method_size__` and `max_protocol_size__`
abbrev pub max_size : ℕ
max_size = 96

-- The constructors from a range
abbrev from_range : Bytes → Bytes → Bytes → HttpError
from_range message memory range = record {
  message = message;
  content = overwrite (take max_size range ++ (0 ∷ [])) memory;
  formatted = none;
}

abbrev pub invalid_header : Bytes → Bytes → HttpError
invalid_header = from_range (codes "Invalid header field.")

abbrev pub unknown_method : Bytes → Bytes → HttpError
unknown_method = from_range (codes "Unknown method.")

abbrev pub unsupported_protocol : Bytes → Bytes → HttpError
unsupported_protocol = from_range (codes "Unsupported protocol.")

-- The copy constructors: the copy, and what is left of the one that was copied.
unfoldable pub copy : Bytes → HttpError → HttpError × HttpError
copy memory e = (
  record {
    message = e.message;
    content = overwrite (take max_size e.content) memory;
    formatted = e.formatted;
  },
  record { message = e.message; content = e.content; formatted = none },
)
