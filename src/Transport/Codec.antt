-- ===== src/Transport/Codec.antt =====
-- The version 1 wire formats, src/modules/transport/codec.
pub mod Frames
pub mod Text
pub mod Control
pub mod Hello
pub mod Opening
