-- ===== src/Transport/Stream.antt =====
-- Stream identity, registration and routing: src/modules/transport/stream.
pub mod Ids
pub mod Registry
