-- ===== src/Transport/Codec/Frames.antt =====
-- Frame types and the fixed 12-byte header: src/modules/transport/codec/{mod,error,frame_type,header}.rs.
-- A byte slice is a list of numbers below 256, and a uint32 is a number below 2 ^ 32.
pub mod RoundTrip
use talk_sphere.Base.{
  ℕ, ◌+◌, ◌/◌, ◌%◌, ◌≤◌, ◌≡◌, Bool, true, false, not, ◌&&◌, List, [], ◌∷◌, leb, ◌==◌, if◌then◌else◌,
  Result, ok, err, ◌>>=◌, ◌>>◌, ensure, length,
}
use talk_sphere.Base.Bytes.{u16_of, u32_of, u32_bytes, IsU32}

pub data FrameType : Type 0 where
  hello auth ping pong go_away error open_frame data_frame end cancel : FrameType

pub data HeaderError : Type 0 where
  invalid_length : ℕ → HeaderError
  unsupported_version : ℕ → HeaderError
  nonzero_flags : ℕ → HeaderError
  unknown_type : ℕ → HeaderError
  payload_too_large : ℕ → HeaderError
  invalid_stream_id : FrameType → ℕ → HeaderError
  size_overflow : HeaderError

abbrev pub version : ℕ
version = 1

abbrev pub header_bytes : ℕ
header_bytes = 12

abbrev pub integrity_tag_bytes : ℕ
integrity_tag_bytes = 16

abbrev pub max_payload_bytes : ℕ
max_payload_bytes = 65536

-- The discriminant, `self as u8`.
abbrev pub as_u8 : FrameType → ℕ
as_u8 hello = 0x01
as_u8 auth = 0x02
as_u8 ping = 0x03
as_u8 pong = 0x04
as_u8 go_away = 0x05
as_u8 error = 0x06
as_u8 open_frame = 0x10
as_u8 data_frame = 0x11
as_u8 end = 0x12
as_u8 cancel = 0x13

-- The derived equality of the fieldless enum, which compares discriminants.
abbrev pub is_type : FrameType → FrameType → Bool
is_type a b = as_u8 a == as_u8 b

unfoldable pub frame_type_try_from : ℕ → Result FrameType HeaderError
frame_type_try_from value =
    if value == 0x01
    then ok hello
    else if value == 0x02
    then ok auth
    else if value == 0x03
    then ok ping
    else if value == 0x04
    then ok pong
    else if value == 0x05
    then ok go_away
    else if value == 0x06
    then ok error
    else if value == 0x10
    then ok open_frame
    else if value == 0x11
    then ok data_frame
    else if value == 0x12
    then ok end
    else if value == 0x13
    then ok cancel
    else err (unknown_type value)

-- Connection frames carry stream 0, stream frames another; ERROR may carry either.
abbrev pub accepts_stream_id : FrameType → ℕ → Bool
accepts_stream_id hello id = id == 0
accepts_stream_id auth id = id == 0
accepts_stream_id ping id = id == 0
accepts_stream_id pong id = id == 0
accepts_stream_id go_away id = id == 0
accepts_stream_id open_frame id = not (id == 0)
accepts_stream_id data_frame id = not (id == 0)
accepts_stream_id end id = not (id == 0)
accepts_stream_id cancel id = not (id == 0)
accepts_stream_id error id = true

unfoldable pub validate_stream_id : FrameType → ℕ → Result (Unit {0}) HeaderError
validate_stream_id kind id = ensure (accepts_stream_id kind id) (invalid_stream_id kind id)

pub data FrameProtection : Type 0 where
  untagged tagged : FrameProtection

pub record FrameHeader : Type 0 where
  pub frame_type : FrameType
  pub stream_id : ℕ
  pub payload_len : ℕ

unfoldable pub validate_payload_len : ℕ → Result (Unit {0}) HeaderError
validate_payload_len len = ensure (leb len max_payload_bytes) (payload_too_large len)

unfoldable pub frame_header : FrameType → ℕ → ℕ → Result FrameHeader HeaderError
unfolding validate_payload_len validate_stream_id
frame_header kind id len = do
  validate_payload_len len
  validate_stream_id kind id
  ok (record { frame_type = kind; stream_id = id; payload_len = len })

-- The checks of `decode` on the fields of twelve bytes, in the order of the source.
unfoldable pub decode_fields : ℕ → ℕ → ℕ → ℕ → ℕ → Result FrameHeader HeaderError
unfolding frame_header validate_payload_len
decode_fields ver kind flags id len = do
  ensure (ver == version) (unsupported_version ver)
  ensure (flags == 0) (nonzero_flags flags)
  validate_payload_len len
  frame_type ← frame_type_try_from kind
  frame_header frame_type id len

unfoldable pub decode : List ℕ → Result FrameHeader HeaderError
unfolding decode_fields
decode (b0 ∷ b1 ∷ b2 ∷ b3 ∷ b4 ∷ b5 ∷ b6 ∷ b7 ∷ b8 ∷ b9 ∷ b10 ∷ b11 ∷ []) =
    decode_fields b0 b1 (u16_of b2 b3) (u32_of b4 b5 b6 b7) (u32_of b8 b9 b10 b11)
decode bytes = err (invalid_length (length bytes))

unfoldable pub encode : FrameHeader → List ℕ
encode h =
    version
    ∷ as_u8 h.frame_type
    ∷ 0
    ∷ 0
    ∷ h.stream_id / 16777216 % 256
    ∷ h.stream_id / 65536 % 256
    ∷ h.stream_id / 256 % 256
    ∷ h.stream_id % 256
    ∷ u32_bytes h.payload_len

abbrev pub tag_bytes : FrameProtection → ℕ
tag_bytes untagged = 0
tag_bytes tagged = integrity_tag_bytes

-- The largest `usize` of a 64-bit target; `u32` always converts to it.
abbrev pub usize_max : ℕ
usize_max = 0xffff_ffff_ffff_ffff

abbrev pub checked_add : ℕ → ℕ → Result ℕ HeaderError
checked_add a b = if leb (a + b) usize_max then ok (a + b) else err size_overflow

unfoldable pub frame_len : FrameHeader → FrameProtection → Result ℕ HeaderError
frame_len h protection = do
  size ← checked_add header_bytes h.payload_len
  checked_add size (tag_bytes protection)

-- The headers that `FrameHeader::new` constructs.
pub record IsValid (h : FrameHeader) : Type 0 where
  pub stream_id_fits : IsU32 h.stream_id
  pub payload_bounded : h.payload_len ≤ max_payload_bytes
  pub scope : accepts_stream_id h.frame_type h.stream_id ≡ true
