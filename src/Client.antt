-- ===== src/Client.antt =====
-- The client package at the root: what surrounds its requests. The requests are arguments.
pub mod Token
pub mod Credentials
pub mod Retry
pub mod Signature
mod Tests
