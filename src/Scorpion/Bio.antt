-- ===== src/Scorpion/Bio.antt =====
-- lib/Scorpion/BIO.cpp: the functions that make BIOs. They take what OpenSSL and the allocations
-- answer, and give what they do to the BIOs of OpenSSL, beside the result. What goes out of scope when
-- an exception is thrown (a `Loki::ScopeGuard`, a `std::auto_ptr`, the shared pointer of the class) is
-- written out by `protect`.
pub mod Ownership
use arachnida.Base.{
  Bool, true, false, List, [], ◌∷◌, ◌++◌, if◌then◌else◌, Exception, bad_alloc, bio_error, Result,
  ok, throw,
}

-- The BIOs that one call can make.
pub data Bio : Type 0 where
  ssl_bio accept_bio connection_bio : Bio

-- `attaches b c` is `BIO_set_accept_bios(c, b)`, and `frees` is `BIO_free_all`.
pub data Action : Type 0 where
  allocates frees : Bio → Action
  attaches : Bio → Bio → Action

-- What can fail: calls of OpenSSL, of `getContext`, of `new`, the shared pointer's own allocation, and
-- that of the vector for an address.
pub data Question : Type 0 where
  get_context new_ssl get_ssl new_accept do_accept new_connect do_connect do_handshake : Question
  new_object new_count new_vector : Question

abbrev pub Answers : Type 0
Answers = Question → Bool

pub record Outcome {ℓ} (A : Type ℓ) : Type ℓ where
  pub actions : List Action
  pub result : Result A

abbrev pub returns {ℓ} : {A : Type ℓ} → A → Outcome A
returns a = record { actions = []; result = ok a }

abbrev pub does : Action → Outcome (Unit {0})
does a = record { actions = a ∷ []; result = ok tt }

-- `SCORPION_PRIVATE_OPENSSL_EXEC`, whose exceptions are one.
abbrev pub exec : Bool → Outcome (Unit {0})
exec post_condition = record {
  actions = [];
  result = if post_condition then ok tt else throw bio_error;
}

abbrev pub allocated : Bool → Outcome (Unit {0})
allocated works = record { actions = []; result = if works then ok tt else throw bad_alloc }

abbrev pub before {ℓ} : {A : Type ℓ} → List Action → Outcome A → Outcome A
before actions o = record o { actions = actions ++ o.actions }

infixl 5 ◌>>=◌
abbrev pub ◌>>=◌ {ℓ κ} : {A : Type ℓ} {B : Type κ} → Outcome A → (A → Outcome B) → Outcome B
o >>= next = elim o.result [
  | throw e ↦ record { actions = o.actions; result = throw e }
  | ok a ↦ before o.actions (next a)
]

-- An exception out of the body frees the BIO.
abbrev pub protect {ℓ} : {A : Type ℓ} → Bio → Outcome A → Outcome A
protect b o = elim o.result [
  | throw e ↦ record { actions = o.actions ++ frees b ∷ []; result = throw e }
  | ok a ↦ o
]

-- `setBIO`: a shared pointer that cannot be set up frees what it was given.
unfoldable pub set_bio : Answers → Bio → Outcome (Unit {0})
set_bio answers b = protect b (allocated (answers new_count))

-- `AcceptBio::accept`. The connection's BIO is popped off the accepting one.
unfoldable pub accept : Answers → Outcome Bio
unfolding set_bio
accept answers = do
  _ ← allocated (answers new_object)
  _ ← exec (answers do_accept)
  _ ← does (allocates connection_bio)
  _ ← set_bio answers connection_bio
  _ ← protect connection_bio (if answers get_ssl then exec (answers do_handshake) else returns tt)
  returns connection_bio

unfoldable pub create_accept_bio : Answers → Outcome Bio
unfolding set_bio
create_accept_bio answers = do
  _ ← allocated (answers new_vector)
  _ ← exec (answers new_accept)
  _ ← does (allocates accept_bio)
  _ ← protect accept_bio (do _ ← exec (answers do_accept); allocated (answers new_object))
  _ ← set_bio answers accept_bio
  returns accept_bio

unfoldable pub create_ssl_accept_bio : Answers → Outcome Bio
unfolding set_bio
create_ssl_accept_bio answers = do
  _ ← exec (answers get_context)
  _ ← exec (answers new_ssl)
  _ ← does (allocates ssl_bio)
  _ ←
      protect ssl_bio (do
        _ ← exec (answers get_ssl)
        _ ← allocated (answers new_vector)
        exec (answers new_accept))
  _ ← does (allocates accept_bio)
  _ ← does (attaches ssl_bio accept_bio)
  _ ← protect accept_bio (do _ ← exec (answers do_accept); allocated (answers new_object))
  _ ← set_bio answers accept_bio
  returns accept_bio

-- `connect` with a context.
unfoldable pub connect_ssl : Answers → Outcome Bio
unfolding set_bio
connect_ssl answers = do
  _ ← allocated (answers new_object)
  _ ← exec (answers get_context)
  _ ← exec (answers new_connect)
  _ ← does (allocates connection_bio)
  _ ← set_bio answers connection_bio
  _ ←
      protect connection_bio
        (do _ ← exec (answers get_ssl); _ ← exec (answers do_connect); exec (answers do_handshake))
  returns connection_bio

unfoldable pub connect : Answers → Outcome Bio
unfolding set_bio
connect answers = do
  _ ← allocated (answers new_object)
  _ ← allocated (answers new_vector)
  _ ← exec (answers new_connect)
  _ ← does (allocates connection_bio)
  _ ← set_bio answers connection_bio
  _ ← protect connection_bio (exec (answers do_connect))
  returns connection_bio
