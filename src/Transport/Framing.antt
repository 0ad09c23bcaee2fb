-- ===== src/Transport/Framing.antt =====
-- Complete frames and framing failures: src/modules/transport/framing/mod.rs.
pub mod Wire
pub mod Reader
pub mod Writer
pub mod Delivery
use talk_sphere.Base.{ℕ, List, Option, none, length, ◌==◌, Result, ok, ◌>>◌, ensure}
use talk_sphere.Transport.Codec.Frames.{FrameHeader, HeaderError}

-- The kinds of `std::io::Error` that the source names; any other is kept by its number.
pub data ErrorKind : Type 0 where
  interrupted write_zero invalid_data : ErrorKind
  other : ℕ → ErrorKind

pub data FramingError : Type 0 where
  bad_header : HeaderError → FramingError
  truncated : FramingError
  io : ErrorKind → FramingError
  closed phase_changed shape busy : FramingError

pub record WireFrame : Type 0 where
  pub reservation : Option ℕ
  pub header : FrameHeader
  pub payload : List ℕ
  pub tag : Option (List ℕ)

-- `WireFrame::new`
unfoldable pub wire_frame : FrameHeader → List ℕ → Option (List ℕ) → Result WireFrame FramingError
wire_frame header payload tag = do
  ensure (length payload == header.payload_len) shape
  ok (record { reservation = none; header = header; payload = payload; tag = tag })
