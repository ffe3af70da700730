-- ===== src/Acari.antt =====
-- lib/Acari: codecs, parsing helpers and attributes.
pub mod ThreadLocal
pub mod Base64
pub mod UrlCoding
pub mod ParsingHelpers
pub mod Attributes
mod Tests
