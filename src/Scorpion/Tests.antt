-- ===== src/Scorpion/Tests.antt =====
-- Tests of the security contexts and of the BIOs, and their theorems at concrete inputs.
mod Startup
use arachnida.Base.{
  All, ℕ, Bool, true, false, List, [], ◌∷◌, ◌++◌, none, some, codes, length, ◌≡◌, refl, arith, ok,
  throw, ssl_context_setup_error, bio_error, ◌<◌, Bytes, ◌+◌, ◌/◌, ◌%◌, ◌==◌,
}
use arachnida.Scorpion.Flags.{verification_flags, verify_peer, verify_fail_if_no_peer_cert}
use arachnida.Scorpion.Context.{
  Context, Call, SslContext, calls, new_context, setup_calls, perform, use_private_key_file,
  is_checked, goes_on, set_cipher_list, Heap, get_context, construct, Setting,
  set_private_key_filename, set_flags,
}
use arachnida.Scorpion.Context.Failures.{last, ciphers, get_context_after_failure}
use arachnida.Scorpion.Program.{
  Command, constructs, copies, swaps, sets, gets, destroys, no_contexts, run, run_all,
}
use arachnida.Scorpion.Program.Places.{IsCoherent}
use arachnida.Scorpion.Program.Coherence.{AllCopiesBuilt, run_all-IsCoherent}
use arachnida.Scorpion.ProtocolError.{ProtocolError, copy, assign, protocol_error, what, further}
use arachnida.Scorpion.ProtocolError.Moves.{bare, says, what-copy}
use arachnida.Scorpion.Program.Detached.{copied, get_context-copied}
use arachnida.Scorpion.Bio.{
  accept, create_accept_bio, create_ssl_accept_bio, connect_ssl, connect, ssl_bio, Question,
  do_handshake,
}
use arachnida.Scorpion.Bio.Ownership.{Settles, makes-Settles}

-- The default options: SSLv3 and TLSv1, a peer certificate that is asked for, automatic retry.
abbrev default_options : ℕ
default_options = 536870966

default_verification :
    verification_flags default_options ≡ verify_peer ∷ verify_fail_if_no_peer_cert ∷ []
unfolding verification_flags
default_verification = refl

abbrev all_succeed : Call → Bool
all_succeed call = true

-- No private key is found.
abbrev no_private_key : Call → Bool
no_private_key (use_private_key_file f) = false
no_private_key _ = true

abbrev no_holders : Heap
no_holders = record { next = 0; holder = λ h. none }

abbrev plain : Context
plain = record {
  flags = default_options;
  server_certificate_name = [];
  ssl_context = 0;
  password_getter = none;
  certificate_chain_filename = [];
  private_key_filename = [];
  trusted_ca_certificates_filename = [];
  trusted_ca_certificates_directory_name = [];
  certificate_verification_depth = 4;
}

abbrev keyed : Context
keyed = record plain { private_key_filename = codes "key.pem" }

get_context-copied_example :
    let (changed, after) = copied plain no_holders (set_flags 1) in
    ((get_context all_succeed changed (get_context all_succeed plain after).1).0 ≡ ok (calls plain))
    × ((get_context all_succeed plain (get_context all_succeed changed after).1).0
        ≡ ok (calls changed))
get_context-copied_example =
    get_context-copied plain no_holders (set_flags 1) all_succeed refl (λ call. refl)

key_fails : (perform no_private_key (setup_calls keyed)).1 ≡ false
unfolding perform setup_calls
key_fails = refl

get_context_after_failure_example :
    (s : SslContext) × (refused : Call) × (missing : List Call) × ((get_context no_private_key keyed
        no_holders).0
      ≡ throw ssl_context_setup_error)
    × ((get_context all_succeed keyed (get_context no_private_key keyed no_holders).1).0 ≡ ok s)
    × All (λ call. goes_on no_private_key call ≡ true) s
    × (is_checked refused ≡ true)
    × (no_private_key refused ≡ false)
    × (calls keyed ≡ s ++ refused ∷ missing)
    × (last (refused ∷ missing) ≡ some (set_cipher_list ciphers))
get_context_after_failure_example =
    get_context_after_failure no_private_key all_succeed keyed no_holders refl refl key_fails

-- A context is asked for its `SSL_CTX`, then copied, and the copy is changed, asked and swapped.
abbrev commands : List Command
commands =
    constructs 0 default_options 4
    ∷ sets 0 (set_private_key_filename (codes "key.pem"))
    ∷ gets 0 all_succeed
    ∷ copies 0 1
    ∷ sets 1 (set_flags 4)
    ∷ gets 1 no_private_key
    ∷ swaps 0 1
    ∷ destroys 1
    ∷ []

holder_of :
    (c : Context) → some (record keyed { flags = default_options }) ≡ some c → c.ssl_context ≡ 0
holder_of c e = ground arith

commands-AllCopiesBuilt : AllCopiesBuilt commands no_contexts
unfolding run construct get_context arachnida.Scorpion.Context.set
commands-AllCopiesBuilt = (
  tt,
  (
    tt,
    (
      tt,
      (
        λ c e n. let zero_holder : c.ssl_context ≡ 0 = holder_of c e in ground arith,
        (tt, (tt, (tt, (tt, tt)))),
      ),
    ),
  ),
)

run_all-IsCoherent_example : IsCoherent (run_all commands no_contexts)
run_all-IsCoherent_example = run_all-IsCoherent commands commands-AllCopiesBuilt

-- The handshake fails.
abbrev no_handshake : Question → Bool
no_handshake do_handshake = false
no_handshake _ = true

accept_throws : (accept no_handshake).result ≡ throw bio_error
unfolding accept
accept_throws = refl

makes-Settles_example :
    Settles (accept no_handshake) []
    × Settles (create_accept_bio no_handshake) []
    × Settles (create_ssl_accept_bio no_handshake) (ssl_bio ∷ [])
    × Settles (connect_ssl no_handshake) []
    × Settles (connect no_handshake) []
makes-Settles_example = makes-Settles no_handshake

abbrev protocol : ProtocolError
protocol = protocol_error (codes "SSL error") 1 (codes "a.c") 10 (some (codes "no peer")) 2

abbrev accepting : ProtocolError
accepting = protocol_error (codes "Accept error") 2 (codes "b.c") 20 none 0

abbrev line_text : ℕ → Bytes
line_text n = (b'0' + n / 10) ∷ ((b'0' + n % 10) ∷ [])

abbrev is_string : ℕ → Bool
is_string n = n == 2

protocol_text : (says is_string line_text protocol).0 ≡ codes "SSL error: a.c (10): no peer"
unfolding what further protocol_error
protocol_text = refl

abbrev told : ProtocolError → Bytes × ProtocolError
told = says is_string line_text

what-copy_run :
    ((told (told protocol).1).0 ≡ (told protocol).0)
    × ((told (copy protocol).0).0 ≡ (told protocol).0)
    × ((told (copy protocol).1).0 ≡ bare line_text (codes "SSL error") protocol)
    × ((told (copy (told protocol).1).0).0 ≡ (told protocol).0)
    × ((told (copy (told protocol).1).1).0 ≡ bare line_text (codes "SSL error") protocol)
    × ((told (assign accepting (told protocol).1).0).0 ≡ (told protocol).0)
    × ((told (assign accepting (copy protocol).1).0).0
        ≡ bare line_text (codes "Accept error") protocol)
unfolding protocol_error
what-copy_run = what-copy is_string line_text accepting protocol
