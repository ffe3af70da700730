-- ===== src/Scorpion/Context.antt =====
-- `Context` of lib/Scorpion/Context.h and Context.cpp. Contexts share the `SSL_CTX` that they build
-- when it is first asked for: `ssl_context_` points to a holder that is empty until then. An `SSL_CTX`
-- is known by the calls of OpenSSL that it went through with success, in their order; which calls
-- succeed is an argument. Reference counts are left out: a holder stays.
pub mod Failures
use arachnida.Base.{
  ℕ, suc, Bool, true, false, List, [], ◌∷◌, ◌++◌, Option, none, some, Bytes, codes, ◌==◌,
  if◌then◌else◌, Exception, ssl_context_setup_error, context_allocation_error, Result, ok, throw,
}
use arachnida.Scorpion.Enumerators.{use_openssl_default_trusted_ca_certificates}
use arachnida.Scorpion.Flags.{
  has, Method, ssl_method, VerifyFlag, verification_flags, SslOption, option_flags, Mode,
  mode_flags,
}

-- `ssl_context_` is the number of the holder; a path that is not set is empty; a password getter is
-- known by a number.
pub record Context : Type 0 where
  pub flags : ℕ
  pub server_certificate_name : Bytes
  pub ssl_context : ℕ
  pub password_getter : Option ℕ
  pub certificate_chain_filename : Bytes
  pub private_key_filename : Bytes
  pub trusted_ca_certificates_filename : Bytes
  pub trusted_ca_certificates_directory_name : Bytes
  pub certificate_verification_depth : ℕ

-- The calls of OpenSSL in `getContext` that act on the `SSL_CTX`.
pub data Call : Type 0 where
  new_context : Method → Call
  set_default_passwd_cb : ℕ → Call
  load_verify_locations : Option Bytes → Option Bytes → Call
  set_default_verify_paths : Call
  use_certificate_chain_file use_private_key_file use_certificate_file : Bytes → Call
  set_verify : List VerifyFlag → Call
  set_verify_depth : ℕ → Call
  set_options : List SslOption → Call
  set_mode : List Mode → Call
  set_cipher_list : Bytes → Call

abbrev pub SslContext : Type 0
SslContext = List Call

-- The empty path stands for none.
abbrev pub path : Bytes → Option Bytes
path [] = none
path p = some p

abbrev pub password_calls : Option ℕ → List Call
password_calls none = []
password_calls (some getter) = set_default_passwd_cb getter ∷ []

abbrev pub trusted_calls : Option Bytes → Option Bytes → List Call
trusted_calls none none = []
trusted_calls filename directory_name = load_verify_locations filename directory_name ∷ []

-- A call for a path that is set.
abbrev pub file_calls : (Bytes → Call) → Bytes → List Call
file_calls call [] = []
file_calls call p = call p ∷ []

-- What `getContext` does with the context once it is allocated.
unfoldable pub setup_calls : Context → List Call
setup_calls c =
    password_calls c.password_getter
    ++ trusted_calls (path c.trusted_ca_certificates_filename)
        (path c.trusted_ca_certificates_directory_name)
    ++ (if has c.flags use_openssl_default_trusted_ca_certificates
        then set_default_verify_paths ∷ []
        else [])
    ++ file_calls use_certificate_chain_file c.certificate_chain_filename
    ++ file_calls use_private_key_file c.private_key_filename
    ++ file_calls use_certificate_file c.server_certificate_name
    ++ set_verify (verification_flags c.flags)
      ∷ set_verify_depth c.certificate_verification_depth
      ∷ set_options (option_flags c.flags)
      ∷ set_mode (mode_flags c.flags)
      ∷ set_cipher_list (codes "ALL:!ADH:!LOW:!EXP:!MD5:@STRENGTH")
      ∷ []

unfoldable pub calls : Context → List Call
unfolding setup_calls
calls c = new_context (ssl_method c.flags) ∷ setup_calls c

-- The calls whose return value the code looks at.
abbrev pub is_checked : Call → Bool
is_checked (new_context m) = true
is_checked (load_verify_locations f d) = true
is_checked set_default_verify_paths = true
is_checked (use_certificate_chain_file f) = true
is_checked (use_private_key_file f) = true
is_checked (use_certificate_file f) = true
is_checked (set_cipher_list l) = true
is_checked _ = false

-- Whether the code goes on behind a call.
abbrev pub goes_on : (Call → Bool) → Call → Bool
goes_on answers call = if is_checked call then answers call else true

-- The calls up to the first one that fails, and whether none did.
unfoldable pub perform : (Call → Bool) → List Call → SslContext × Bool
perform answers [] = ([], true)
perform answers (call ∷ later) =
    let rest = perform answers later in
    if goes_on answers call then (call ∷ rest.0, rest.1) else ([], false)

-- The holders: those below `next` are there.
pub record Heap : Type 0 where
  pub next : ℕ
  pub holder : ℕ → Option SslContext

abbrev pub put : ℕ → Option SslContext → Heap → Heap
put h value heap = record heap { holder = λ i. if i == h then value else heap.holder i }

-- `new ::SSL_CTX *(0)`
abbrev pub new_holder : Heap → Heap
new_holder heap = record (put heap.next none heap) { next = suc heap.next }

-- The result of `getContext`, and the heap behind it. `SSL_CTX_new` that fails leaves the holder empty;
-- any other failure leaves what is configured so far in it.
unfoldable pub get_context : (Call → Bool) → Context → Heap → Result SslContext × Heap
unfolding calls perform
get_context answers c heap = elim (heap.holder c.ssl_context) [
  | some ssl_context ↦ (ok ssl_context, heap)
  | none ↦
      let method = new_context (ssl_method c.flags) in
      let set_up = perform answers (setup_calls c) in
      if answers method
      then (
        if set_up.1 then ok (method ∷ set_up.0) else throw ssl_context_setup_error,
        put c.ssl_context (some (method ∷ set_up.0)) heap,
      )
      else (throw context_allocation_error, heap)
]

-- The constructor.
unfoldable pub construct : ℕ → ℕ → Heap → Context × Heap
construct flags depth heap = (
  record {
    flags = flags;
    server_certificate_name = [];
    ssl_context = heap.next;
    password_getter = none;
    certificate_chain_filename = [];
    private_key_filename = [];
    trusted_ca_certificates_filename = [];
    trusted_ca_certificates_directory_name = [];
    certificate_verification_depth = depth;
  },
  new_holder heap,
)

-- The copy constructor: every member is copied, the pointer to the holder too.
unfoldable pub copy : Context → Context
copy context = context

unfoldable pub copy_on_write : Context → Heap → Context × Heap
copy_on_write c heap = elim (heap.holder c.ssl_context) [
  | some ssl_context ↦ (record c { ssl_context = heap.next }, new_holder heap)
  | none ↦ (c, heap)
]

-- The setters, by what they assign.
pub data Setting : Type 0 where
  set_server_certificate_filename set_certificate_chain_filename : Bytes → Setting
  set_trusted_ca_certificates_filename set_trusted_ca_certificates_directory_name : Bytes → Setting
  set_private_key_filename : Bytes → Setting
  set_flags : ℕ → Setting
  set_password_getter : Option ℕ → Setting
  set_certificate_verification_depth : ℕ → Setting

abbrev pub assign : Setting → Context → Context
assign (set_server_certificate_filename p) c = record c { server_certificate_name = p }
assign (set_certificate_chain_filename p) c = record c { certificate_chain_filename = p }
assign (set_trusted_ca_certificates_filename p) c = record c {
  trusted_ca_certificates_filename = p;
}
assign (set_trusted_ca_certificates_directory_name p) c = record c {
  trusted_ca_certificates_directory_name = p;
}
assign (set_private_key_filename p) c = record c { private_key_filename = p }
assign (set_flags n) c = record c { flags = n }
assign (set_password_getter g) c = record c { password_getter = g }
assign (set_certificate_verification_depth n) c = record c { certificate_verification_depth = n }

unfoldable pub set : Setting → Context → Heap → Context × Heap
unfolding copy_on_write
set setting c heap = let detached = copy_on_write c heap in (assign setting detached.0, detached.1)

-- `swap`: every member changes sides.
unfoldable pub swap : Context → Context → Context × Context
swap c d = (d, c)
