-- ===== src/Transport/Codec/Frames/RoundTrip.antt =====
-- The header codec is canonical: decoding inverts encoding, in both directions.
use talk_sphere.Base.{ℕ, ◌≡◌, ◌↔◌, ◌≤◌, refl, true, List, [], ◌∷◌, arith, ok, All}
use talk_sphere.Base.Bytes.{IsByte, u16_of, u32_of, u32_of-bytes, u32_bytes-of}
use talk_sphere.Transport.Codec.Frames.{
  FrameType, FrameHeader, IsValid, as_u8, accepts_stream_id, frame_type_try_from, decode_fields,
  decode, encode,
}

try_from-as_u8 : (k : FrameType) → frame_type_try_from (as_u8 k) ≡ ok k
unfolding frame_type_try_from
try_from-as_u8 = elim [ FrameType.hello ↦ refl | _ ↦ refl ]

try_from_inv : (v : ℕ) (k : FrameType) → frame_type_try_from v ≡ ok k → v ≡ as_u8 k
unfolding frame_type_try_from
try_from_inv v k h = ground arith

decode_fields_inv :
    (ver kind flags id len : ℕ) (h : FrameHeader)
    → decode_fields ver kind flags id len ≡ ok h
    → (ver ≡ 1)
      × (flags ≡ 0)
      × (kind ≡ as_u8 h.frame_type)
      × (h.stream_id ≡ id)
      × (h.payload_len ≡ len)
      × (len ≤ 65536)
      × (accepts_stream_id h.frame_type id ≡ true)
unfolding decode_fields
decode_fields_inv ver kind flags id len h e = ground (arith, try_from_inv kind h.frame_type)

twelve :
    {b0 b1 b2 b3 b4 b5 b6 b7 b8 b9 b10 b11 : ℕ}
    → All IsByte (b0 ∷ b1 ∷ b2 ∷ b3 ∷ b4 ∷ b5 ∷ b6 ∷ b7 ∷ b8 ∷ b9 ∷ b10 ∷ b11 ∷ [])
    → IsByte b0
      × IsByte b1
      × IsByte b2
      × IsByte b3
      × IsByte b4
      × IsByte b5
      × IsByte b6
      × IsByte b7
      × IsByte b8
      × IsByte b9
      × IsByte b10
      × IsByte b11
twelve h = omega arith

-- Decoding an encoded valid header gives it back, and leaves nothing.
pub decode-encode : (h : FrameHeader) → IsValid h → decode (encode h) ≡ ok h
unfolding decode encode decode_fields
decode-encode h v = ground (
  arith,
  try_from-as_u8 h.frame_type,
  u32_of-bytes h.stream_id v.stream_id_fits,
  u32_of-bytes h.payload_len,
)

decode_inv :
    (bytes : List ℕ) (h : FrameHeader)
    → All IsByte bytes
    → decode bytes ≡ ok h
    → IsValid h × (bytes ≡ encode h)
unfolding decode encode
decode_inv (b0 ∷ b1 ∷ b2 ∷ b3 ∷ b4 ∷ b5 ∷ b6 ∷ b7 ∷ b8 ∷ b9 ∷ b10 ∷ b11 ∷ []) h bs e =
    let fields =
      decode_fields_inv b0 b1 (u16_of b2 b3) (u32_of b4 b5 b6 b7) (u32_of b8 b9 b10 b11) h e in
    let (p0, p1, p2, p3, p4, p5, p6, p7, p8, p9, p10, p11) = twelve bs in
    ground (
      arith,
      fields,
      u32_bytes-of b4 b5 b6 b7 p4 p5 p6 p7,
      u32_bytes-of b8 b9 b10 b11 p8 p9 p10 p11,
    )
decode_inv bytes h bs e = cc

-- For octets, `decode` accepts exactly the encodings of valid headers: no header has two encodings,
-- and no other twelve bytes, shorter or longer input is accepted.
pub decode_iff :
    (bytes : List ℕ) (h : FrameHeader)
    → All IsByte bytes
    → (decode bytes ≡ ok h) ↔ (IsValid h × (bytes ≡ encode h))
decode_iff bytes h bs = (decode_inv bytes h bs, λ p. rw p.1 (decode-encode h p.0))
