-- ===== src/Scorpion/Flags.antt =====
-- The flags of lib/Scorpion/Context.h and what `Context::getContext` of lib/Scorpion/Context.cpp makes
-- of them. The flags are the number whose bits the `int` has. OpenSSL's constants are known by their
-- names; the options of a context are listed in the order in which the code adds them.
pub mod Transports
use arachnida.Base.{
  ℕ, ◌+◌, ◌/◌, ◌%◌, Bool, List, [], ◌∷◌, ◌++◌, Option, none, some, ◌==◌, if◌then◌else◌,
}
use arachnida.Scorpion.Enumerators.{
  use_sslv2, use_sslv3, use_tlsv1, work_around_microsoft_session_id_bug,
  work_around_netscape_challenge_bug, work_around_netscape_reuse_cipher_change_bug,
  work_around_sslref2_reuse_cert_type_bug, work_around_microsoft_big_sslv3_buffer_bug,
  work_around_msie_sslv2_rsa_padding_bug, work_around_ssleay_080_client_dh_bug,
  work_around_tls_d5_bug, work_around_tls_block_padding_bug, no_session_resumption_negociation,
  no_tickets, dont_insert_empty_fragments, work_around_tls_rollback_bug, use_dh_only_once,
  use_ephemeral_rsa, use_server_cipher_preferences, enable_pkcs1_check_1, enable_pkcs1_check_2,
  work_around_netscape_ca_dn_bug, work_around_netscape_demo_cipher_change_bug, enable_partial_write,
  enable_auto_retry,
}

-- `flags & flag` for a flag of one bit
abbrev pub has : ℕ → ℕ → Bool
has flags flag = flags / flag % 2 == 1

pub data Method : Type 0 where
  sslv2_method sslv3_method tlsv1_method sslv23_method : Method

-- The switch on `flags_ & use_all_transports__`.
unfoldable pub ssl_method : ℕ → Method
ssl_method flags =
    let transports = flags % 8 in
    if transports == 1
    then sslv2_method
    else if transports == 2
    then sslv3_method
    else if transports == 4
    then tlsv1_method
    else sslv23_method

pub data VerifyFlag : Type 0 where
  verify_peer verify_fail_if_no_peer_cert verify_client_once : VerifyFlag

-- The switch on `flags_ & _verification_mask__`. The assertion of its default is not there in a release
-- build; `SSL_VERIFY_NONE` then stays.
unfoldable pub verification_flags : ℕ → List VerifyFlag
verification_flags flags =
    let verification = flags / 16 % 8 in
    if verification == 0
    then []
    else if verification == 1
    then verify_peer ∷ []
    else if verification == 3
    then verify_peer ∷ verify_fail_if_no_peer_cert ∷ []
    else if verification == 5
    then verify_peer ∷ verify_client_once ∷ []
    else if verification == 7
    then verify_peer ∷ verify_fail_if_no_peer_cert ∷ verify_client_once ∷ []
    else []

pub data SslOption : Type 0 where
  op_microsoft_sess_id_bug op_netscape_challenge_bug op_netscape_reuse_cipher_change_bug : SslOption
  op_sslref2_reuse_cert_type_bug op_microsoft_big_sslv3_buffer op_msie_sslv2_rsa_padding : SslOption
  op_ssleay_080_client_dh_bug op_tls_d5_bug op_tls_block_padding_bug op_tls_rollback_bug : SslOption
  op_netscape_ca_dn_bug op_netscape_demo_cipher_change_bug op_dont_insert_empty_fragments :
      SslOption
  op_single_dh_use op_ephemeral_rsa op_cipher_server_preference op_pkcs1_check_1 op_pkcs1_check_2 :
      SslOption
  op_no_sslv2 op_no_sslv3 op_no_tlsv1 op_no_session_resumption_on_renegotiation op_no_ticket :
      SslOption

unfoldable pub set : Bool → SslOption → List SslOption
set b option = if b then option ∷ [] else []

unfoldable pub unless : Bool → SslOption → List SslOption
unless b option = if b then [] else option ∷ []

-- The options that work around bugs.
unfoldable pub work_arounds : ℕ → List SslOption
work_arounds flags =
    set (has flags work_around_microsoft_session_id_bug) op_microsoft_sess_id_bug
    ++ set (has flags work_around_netscape_challenge_bug) op_netscape_challenge_bug
    ++ set (has flags work_around_netscape_reuse_cipher_change_bug)
        op_netscape_reuse_cipher_change_bug
    ++ set (has flags work_around_sslref2_reuse_cert_type_bug) op_sslref2_reuse_cert_type_bug
    ++ set (has flags work_around_microsoft_big_sslv3_buffer_bug) op_microsoft_big_sslv3_buffer
    ++ set (has flags work_around_msie_sslv2_rsa_padding_bug) op_msie_sslv2_rsa_padding
    ++ set (has flags work_around_ssleay_080_client_dh_bug) op_ssleay_080_client_dh_bug
    ++ set (has flags work_around_tls_d5_bug) op_tls_d5_bug
    ++ set (has flags work_around_tls_block_padding_bug) op_tls_block_padding_bug
    ++ set (has flags work_around_tls_rollback_bug) op_tls_rollback_bug
    ++ set (has flags work_around_netscape_ca_dn_bug) op_netscape_ca_dn_bug
    ++ set (has flags work_around_netscape_demo_cipher_change_bug)
        op_netscape_demo_cipher_change_bug

-- The options that remove versions and features, `SSL_OP_NO_TICKET` being there.
unfoldable pub restrictions : ℕ → List SslOption
restrictions flags =
    set (has flags dont_insert_empty_fragments) op_dont_insert_empty_fragments
    ++ set (has flags use_dh_only_once) op_single_dh_use
    ++ set (has flags use_ephemeral_rsa) op_ephemeral_rsa
    ++ set (has flags use_server_cipher_preferences) op_cipher_server_preference
    ++ set (has flags enable_pkcs1_check_1) op_pkcs1_check_1
    ++ set (has flags enable_pkcs1_check_2) op_pkcs1_check_2
    ++ unless (has flags use_sslv2) op_no_sslv2
    ++ unless (has flags use_sslv3) op_no_sslv3
    ++ unless (has flags use_tlsv1) op_no_tlsv1
    ++ set (has flags no_session_resumption_negociation) op_no_session_resumption_on_renegotiation
    ++ set (has flags no_tickets) op_no_ticket

unfoldable pub option_flags : ℕ → List SslOption
unfolding work_arounds restrictions
option_flags flags = work_arounds flags ++ restrictions flags

pub data Mode : Type 0 where
  mode_enable_partial_write mode_auto_retry : Mode

unfoldable pub mode_flags : ℕ → List Mode
mode_flags flags =
    (if has flags enable_partial_write then mode_enable_partial_write ∷ [] else [])
    ++ (if has flags enable_auto_retry then mode_auto_retry ∷ [] else [])
