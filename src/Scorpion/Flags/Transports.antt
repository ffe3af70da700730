-- ===== src/Scorpion/Flags/Transports.antt =====
-- Which protocols a context allows. What OpenSSL documents of its methods and of its options
-- `SSL_OP_NO_...` is written out as `allows`.
use arachnida.Base.{ℕ, Bool, true, false, not, ◌&&◌, ◌||◌, List, [], ◌∷◌}
use arachnida.Scorpion.Enumerators.{use_sslv2, use_sslv3, use_tlsv1}
use arachnida.Scorpion.Flags.{
  Method, sslv2_method, sslv3_method, tlsv1_method, sslv23_method, SslOption, op_no_sslv2,
  op_no_sslv3, op_no_tlsv1,
}

pub data Protocol : Type 0 where
  sslv2 sslv3 tlsv1 : Protocol

abbrev pub flag_of : Protocol → ℕ
flag_of sslv2 = use_sslv2
flag_of sslv3 = use_sslv3
flag_of tlsv1 = use_tlsv1

-- The protocols that a method speaks.
abbrev speaks : Method → Protocol → Bool
speaks sslv2_method sslv2 = true
speaks sslv3_method sslv3 = true
speaks tlsv1_method tlsv1 = true
speaks sslv23_method p = true
speaks _ _ = false

abbrev forbids : Protocol → SslOption → Bool
forbids sslv2 op_no_sslv2 = true
forbids sslv3 op_no_sslv3 = true
forbids tlsv1 op_no_tlsv1 = true
forbids _ _ = false

abbrev is_forbidden : Protocol → List SslOption → Bool
is_forbidden p [] = false
is_forbidden p (o ∷ os) = forbids p o || is_forbidden p os

-- A protocol that the method speaks and no option forbids.
unfoldable pub allows : Method → List SslOption → Protocol → Bool
allows method options p = speaks method p && not (is_forbidden p options)
