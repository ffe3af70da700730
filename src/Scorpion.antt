-- ===== src/Scorpion.antt =====
-- lib/Scorpion: security contexts and BIOs on top of OpenSSL.
pub mod Enumerators
pub mod Flags
pub mod Context
pub mod Program
pub mod ProtocolError
pub mod Startup
pub mod Bio
pub mod Tests
