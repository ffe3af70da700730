-- ===== src/Scorpion/Enumerators.antt =====
-- The enumerators of `Context::Flags` of lib/Scorpion/Context.h that the code looks at one by one.
use arachnida.Base.{ℕ}

abbrev pub use_sslv2 : ℕ
use_sslv2 = 1

abbrev pub use_sslv3 : ℕ
use_sslv3 = 2

abbrev pub use_tlsv1 : ℕ
use_tlsv1 = 4

abbrev pub use_openssl_default_trusted_ca_certificates : ℕ
use_openssl_default_trusted_ca_certificates = 8

abbrev pub work_around_microsoft_session_id_bug : ℕ
work_around_microsoft_session_id_bug = 128

abbrev pub work_around_netscape_challenge_bug : ℕ
work_around_netscape_challenge_bug = 256

abbrev pub work_around_netscape_reuse_cipher_change_bug : ℕ
work_around_netscape_reuse_cipher_change_bug = 512

abbrev pub work_around_sslref2_reuse_cert_type_bug : ℕ
work_around_sslref2_reuse_cert_type_bug = 1024

abbrev pub work_around_microsoft_big_sslv3_buffer_bug : ℕ
work_around_microsoft_big_sslv3_buffer_bug = 2048

abbrev pub work_around_msie_sslv2_rsa_padding_bug : ℕ
work_around_msie_sslv2_rsa_padding_bug = 4096

abbrev pub work_around_ssleay_080_client_dh_bug : ℕ
work_around_ssleay_080_client_dh_bug = 8192

abbrev pub work_around_tls_d5_bug : ℕ
work_around_tls_d5_bug = 16384

abbrev pub work_around_tls_block_padding_bug : ℕ
work_around_tls_block_padding_bug = 32768

abbrev pub no_session_resumption_negociation : ℕ
no_session_resumption_negociation = 65536

abbrev pub no_tickets : ℕ
no_tickets = 131072

abbrev pub dont_insert_empty_fragments : ℕ
dont_insert_empty_fragments = 262144

abbrev pub work_around_tls_rollback_bug : ℕ
work_around_tls_rollback_bug = 524288

abbrev pub use_dh_only_once : ℕ
use_dh_only_once = 1048576

abbrev pub use_ephemeral_rsa : ℕ
use_ephemeral_rsa = 2097152

abbrev pub use_server_cipher_preferences : ℕ
use_server_cipher_preferences = 4194304

abbrev pub enable_pkcs1_check_1 : ℕ
enable_pkcs1_check_1 = 8388608

abbrev pub enable_pkcs1_check_2 : ℕ
enable_pkcs1_check_2 = 16777216

abbrev pub work_around_netscape_ca_dn_bug : ℕ
work_around_netscape_ca_dn_bug = 33554432

abbrev pub work_around_netscape_demo_cipher_change_bug : ℕ
work_around_netscape_demo_cipher_change_bug = 67108864

abbrev pub enable_partial_write : ℕ
enable_partial_write = 268435456

abbrev pub enable_auto_retry : ℕ
enable_auto_retry = 536870912
