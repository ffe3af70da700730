-- ===== src/Scorpion/Bio/Ownership.antt =====
-- No function of lib/Scorpion/BIO.cpp leaks a BIO or frees one twice.
use arachnida.Base.{
  Bool, true, false, List, [], ◌∷◌, ◌++◌, Option, none, some, if◌then◌else◌, ◌≡◌, arith, Result, ok,
  throw,
}
use arachnida.Scorpion.Bio.{
  Bio, ssl_bio, accept_bio, connection_bio, Action, allocates, frees, attaches, Answers, Outcome,
  accept, create_accept_bio, create_ssl_accept_bio, connect_ssl, connect,
}

-- The chains of BIOs that are allocated, each with its first BIO in front.
abbrev pub Chains : Type 0
Chains = List (Bio × List Bio)

abbrev pub same : Bio → Bio → Bool
same ssl_bio ssl_bio = true
same accept_bio accept_bio = true
same connection_bio connection_bio = true
same _ _ = false

-- The chain with this BIO in front, and the others; `none` if there is no such chain.
unfoldable pub take_out : Bio → Chains → Option (List Bio × Chains)
take_out b [] = none
take_out b (chain ∷ chains) =
    let rest = take_out b chains in
    if same b chain.0
    then some (chain.1, chains)
    else elim rest [ none ↦ none | some found ↦ some (found.0, chain ∷ found.1) ]

-- What OpenSSL documents of the actions; `none` for one on a BIO that is not there.
unfoldable pub act : Action → Chains → Option Chains
unfolding take_out
act (allocates b) chains = some ((b, []) ∷ chains)
act (frees b) chains = elim (take_out b chains) [ none ↦ none | some found ↦ some (found.1) ]
act (attaches b c) chains = elim (take_out b chains) [
  | none ↦ none
  | some found ↦ elim (take_out c found.1) [
    | none ↦ none
    | some onto ↦ some ((c, onto.0 ++ b ∷ found.0) ∷ onto.1)
  ]
]

unfoldable pub act_all : List Action → Chains → Option Chains
act_all [] chains = some chains
act_all (a ∷ later) chains = elim (act a chains) [ none ↦ none | some after ↦ act_all later after ]

-- What is left when the call is over: the BIO that is returned, with what is attached to it, and
-- nothing after an exception.
abbrev pub left : Result Bio → List Bio → Chains
left (ok b) attached = (b, attached) ∷ []
left (throw e) attached = []

abbrev pub Settles : Outcome Bio → List Bio → Type 0
Settles o attached = act_all o.actions [] ≡ some (left o.result attached)

connect-Settles : (answers : Answers) → Settles (connect answers) []
unfolding connect act_all act take_out
connect-Settles answers = ground arith

connect_ssl-Settles : (answers : Answers) → Settles (connect_ssl answers) []
unfolding connect_ssl act_all act take_out
connect_ssl-Settles answers = ground arith

accept-Settles : (answers : Answers) → Settles (accept answers) []
unfolding accept act_all act take_out
accept-Settles answers = ground arith

create_accept_bio-Settles : (answers : Answers) → Settles (create_accept_bio answers) []
unfolding create_accept_bio act_all act take_out
create_accept_bio-Settles answers = ground arith

create_ssl_accept_bio-Settles :
    (answers : Answers) → Settles (create_ssl_accept_bio answers) (ssl_bio ∷ [])
unfolding create_ssl_accept_bio act_all act take_out
create_ssl_accept_bio-Settles answers = ground arith

-- Whatever fails on the way, in OpenSSL or for want of memory, no function that makes a BIO leaks one,
-- frees one twice or touches one that is freed: after an exception every BIO that it allocated is
-- freed, and otherwise the one that is left is the one it returns, which for an accepting BIO with
-- security holds the BIO for SSL.
pub makes-Settles :
    (answers : Answers)
    → Settles (accept answers) []
      × Settles (create_accept_bio answers) []
      × Settles (create_ssl_accept_bio answers) (ssl_bio ∷ [])
      × Settles (connect_ssl answers) []
      × Settles (connect answers) []
makes-Settles answers = (
  accept-Settles answers,
  create_accept_bio-Settles answers,
  create_ssl_accept_bio-Settles answers,
  connect_ssl-Settles answers,
  connect-Settles answers,
)
