-- ===== src/Spin/Address.antt =====
-- lib/Spin/Details/Address.h and Address.cpp, and the strings that lib/Spin/Connector.cpp and
-- lib/Spin/Listener.cpp make of an address and a port. `to_text` is boost's format of a number; it
-- writes an `unsigned char` as that character.
pub mod Texts
use arachnida.Base.{ℕ, Bool, [], ◌∷◌, ◌++◌, Bytes, codes, ◌==◌, ◌&&◌, not, if◌then◌else◌}

-- The four bytes of the union; the number of 32 bits is the same bytes.
pub record Address : Type 0 where
  pub u8_0 : ℕ
  pub u8_1 : ℕ
  pub u8_2 : ℕ
  pub u8_3 : ℕ

-- `operator==` and `operator!=`
unfoldable pub equals : Address → Address → Bool
equals lhs rhs =
    lhs.u8_0 == rhs.u8_0 && lhs.u8_1 == rhs.u8_1 && lhs.u8_2 == rhs.u8_2 && lhs.u8_3 == rhs.u8_3

unfoldable pub differs : Address → Address → Bool
unfolding equals
differs lhs rhs = not (equals lhs rhs)

-- `u32_ == 0`
unfoldable pub is_any : Address → Bool
is_any a = a.u8_0 == 0 && a.u8_1 == 0 && a.u8_2 == 0 && a.u8_3 == 0

-- `"%1%.%2%.%3%.%4%"`
abbrev pub dotted : (ℕ → Bytes) → Address → Bytes
dotted text a =
    text a.u8_0 ++ (b'.' ∷ (text a.u8_1 ++ (b'.' ∷ (text a.u8_2 ++ (b'.' ∷ text a.u8_3)))))

abbrev pub character : ℕ → Bytes
character c = c ∷ []

module _ (to_text : ℕ → Bytes) where
  -- The targets of `Connector::connect`: of an address, of a name, and both with a security context.
  unfoldable pub connect_target : Address → ℕ → Bytes
  connect_target remote_address port = dotted to_text remote_address ++ (b':' ∷ to_text port)

  unfoldable pub connect_name_target : Bytes → ℕ → Bytes
  connect_name_target remote_address port = remote_address ++ (b':' ∷ to_text port)

  -- The bytes are not cast to `unsigned int` here.
  unfoldable pub connect_ssl_target : Address → ℕ → Bytes
  connect_ssl_target remote_address port = dotted character remote_address ++ (b':' ∷ to_text port)

  unfoldable pub connect_ssl_name_target : Bytes → ℕ → Bytes
  connect_ssl_name_target remote_address port = remote_address ++ (b':' ∷ to_text port)

  unfoldable pub construct_local_address : Address → ℕ → Bytes
  unfolding is_any
  construct_local_address local_address local_port =
      (if is_any local_address then codes "*" else dotted to_text local_address)
      ++ (b':' ∷ (if local_port == 0 then codes "*" else to_text local_port))
