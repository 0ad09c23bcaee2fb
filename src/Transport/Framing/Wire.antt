-- ===== src/Transport/Framing/Wire.antt =====
-- The bytes of a frame on the wire, and what a socket answers: ports/io.rs. A read or a write that the
-- operating system answers is an event; the events of a poll come as a list, in order.
pub mod Prefix
use talk_sphere.Base.{ℕ, ◌≡◌, List, [], ◌++◌, Option, none, some, length}
use talk_sphere.Transport.Codec.Frames.{FrameHeader, FrameProtection, IsValid, encode}
use talk_sphere.Transport.Framing.{ErrorKind, WireFrame}

pub data Poll {ℓ} (A : Type ℓ) : Type ℓ where
  pending : Poll A
  ready : A → Poll A

-- `poll_read` hands over bytes, none of them at the end of the stream.
pub data SocketRead : Type 0 where
  waits : SocketRead
  failed : ErrorKind → SocketRead
  bytes : List ℕ → SocketRead

-- `poll_write` takes a number of bytes.
pub data SocketWrite : Type 0 where
  waits : SocketWrite
  failed : ErrorKind → SocketWrite
  takes : ℕ → SocketWrite

abbrev pub tag_of : Option (List ℕ) → List ℕ
tag_of none = []
tag_of (some t) = t

unfoldable pub serialize : WireFrame → List ℕ
serialize f = encode f.header ++ (f.payload ++ tag_of f.tag)

-- The tag that a phase wants.
abbrev pub IsTag : FrameProtection → Option (List ℕ) → Type 0
IsTag FrameProtection.untagged none = Unit {0}
IsTag FrameProtection.untagged (some t) = ⊥
IsTag FrameProtection.tagged none = ⊥
IsTag FrameProtection.tagged (some t) = length t ≡ 16

-- A frame that the types of the source allow, in a phase.
pub record IsShaped (protection : FrameProtection) (f : WireFrame) : Type 0 where
  pub valid : IsValid f.header
  pub payload_length : length f.payload ≡ f.header.payload_len
  pub tag_length : IsTag protection f.tag
