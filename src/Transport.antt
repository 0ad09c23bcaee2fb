-- ===== src/Transport.antt =====
-- The Transport module of the server, src/modules/transport.
pub mod Codec
pub mod Api
pub mod Resources
pub mod Framing
pub mod Config
pub mod Integrity
pub mod Failures
pub mod Handshake
pub mod Connection
pub mod Stream
pub mod Session
mod Examples
