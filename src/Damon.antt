-- ===== src/Damon.antt =====
-- lib/Damon: the HTTP client.
pub mod Message
pub mod Url
pub mod Serialize
pub mod Session
pub mod Reading
pub mod Reception
pub mod Sending
pub mod Pipelining
mod Tests
