-- ===== src/Base/Results.antt =====
-- The exceptions that the modelled code throws, as values.
use mathlib.Core.Path.{◌≡◌, refl}
use mathlib.Core.Option.{Option, none, some}
use mathlib.Core.Logic.{◌⊎◌, inl, inr}
use arachnida.Base.Lists.{Bytes}

pub data Exception : Type 0 where
  bad_alloc : Exception
  runtime_error : Exception
  bad_lexical_cast : Exception
  unknown_method : Bytes → Exception
  unsupported_protocol : Bytes → Exception
  invalid_header : Bytes → Exception
  connection_closed : Exception
  unusable_connection : Exception
  method_not_implemented : Exception
  unusable_udp_socket : Exception
  socket_error : Exception
  bad_any_cast : Exception
  unusable_listener : Exception
  context_allocation_error : Exception
  ssl_context_setup_error : Exception
  bio_error : Exception
  logic_error : Exception
  -- Of the model only: a loop that takes fuel ran out of it.
  out_of_fuel : Exception
  -- Of the model only: the code reads through a null pointer.
  null_dereference : Exception

pub data Result {ℓ} (A : Type ℓ) : Type ℓ where
  throw : Exception → Result A
  ok : A → Result A

infixl 5 ◌>>=◌
abbrev pub ◌>>=◌ {ℓ κ} : {A : Type ℓ} {B : Type κ} → Result A → (A → Result B) → Result B
throw e >>= next = throw e
ok a >>= next = next a

-- An option whose failure raises an exception.
abbrev pub require {ℓ} : {A : Type ℓ} → Exception → Option A → Result A
require e none = throw e
require e (some a) = ok a

-- The exceptions that the source cannot throw: they stand for a loop that does not end and for a
-- read through a null pointer.
abbrev pub IsFault : Exception → Type 0
IsFault out_of_fuel = Unit {0}
IsFault null_dereference = Unit {0}
IsFault _ = ⊥

-- A result satisfies `P`, or is an exception of the source.
abbrev pub Ensures {ℓ} : {A : Type ℓ} → (A → Type 0) → Result A → Type 0
Ensures P (ok a) = P a
Ensures P (throw e) = ¬ IsFault e

pub Result-cases {ℓ} :
    {A : Type ℓ} (m : Result A) → ((e : Exception) × (m ≡ throw e)) ⊎ ((a : A) × (m ≡ ok a))
Result-cases (throw e) = inl (e, refl)
Result-cases (ok a) = inr (a, refl)
