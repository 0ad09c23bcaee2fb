-- ===== src/Transport/Framing/Reader/Outcome.antt =====
-- What a poll of the reader returns, in terms of the bytes that the socket has handed over since the
-- last frame: however the socket splits them, however often it waits or is interrupted.
use talk_sphere.Base.{
  ℕ, ◌+◌, ◌≤◌, ◌<◌, ◌≡◌, ◌⊎◌, true, false, List, [], ◌∷◌, ◌++◌, Option, none, some, ok, err, length,
  take, All, ◌>>=◌, ◌≢◌,
}
use talk_sphere.Base.Bytes.{IsByte}
use talk_sphere.Transport.Codec.Frames.{FrameHeader, FrameProtection, decode, frame_len, tag_bytes}
use talk_sphere.Transport.Framing.{ErrorKind, FramingError}
use talk_sphere.Transport.Framing.Wire.{pending, ready, SocketRead, serialize, IsShaped}
use talk_sphere.Transport.Framing.Reader.{FrameReader, ReadResult, Turn, again, done}

-- The bytes that a list of reads hands over.
unfoldable pub bytes_in : List SocketRead → List ℕ
bytes_in [] = []
bytes_in (SocketRead.bytes chunk ∷ script) = chunk ++ bytes_in script
bytes_in (e ∷ script) = bytes_in script

abbrev pub IsSized : FrameProtection → Option FrameHeader → List ℕ → ℕ → Type 0
IsSized protection none bytes offset = length bytes ≡ 12
IsSized protection (some h) bytes offset =
    (length bytes ≡ 12 + h.payload_len + tag_bytes protection)
    × (decode (take 12 bytes) ≡ ok h)
    × (12 ≤ offset)

-- The reader holds the bytes `got` of a frame that has begun.
pub record IsReading (protection : FrameProtection) (got : List ℕ) (r : FrameReader) : Type 0 where
  pub alive : r.failed ≡ false
  pub open_end : r.eof ≡ false
  pub same_phase : r.phase ≡ some protection
  pub holds : take r.offset r.bytes ≡ got
  pub count : length got ≡ r.offset
  pub octets : All IsByte got
  pub sized : IsSized protection r.header r.bytes r.offset

-- The reader stands between two frames.
pub record IsIdle (r : FrameReader) : Type 0 where
  pub alive : r.failed ≡ false
  pub open_end : r.eof ≡ false
  pub no_phase : r.phase ≡ none
  pub no_bytes : r.bytes ≡ []
  pub no_header : r.header ≡ none
  pub at_start : r.offset ≡ 0

abbrev pub IsAt : FrameProtection → List ℕ → FrameReader → Type 0
IsAt protection got r = IsReading protection got r ⊎ (IsIdle r × (got ≡ []))

-- The last of the reads that were used.
abbrev pub IsLast : List SocketRead → SocketRead → Type 0
IsLast used x = (earlier : List SocketRead) × (used ≡ earlier ++ x ∷ [])

-- After the bytes `before`, a read brought more than the rest of the header or of the frame.
abbrev pub IsOver : FrameProtection → List ℕ → List ℕ → Type 0
IsOver protection before chunk =
    ((length before < 12) × (12 < length before + length chunk))
    ⊎ ((h : FrameHeader) × (decode (take 12 before) ≡ ok h)
        × (12 + h.payload_len + tag_bytes protection < length before + length chunk))

-- What an error says of the bytes that have arrived since the last frame, and of the reads that were used.
abbrev pub IsCause : FrameProtection → List ℕ → List SocketRead → FramingError → Type 0
IsCause protection got used (FramingError.bad_header e) =
    (decode got >>= λ h. frame_len h protection) ≡ err e
IsCause protection got used FramingError.truncated = (got ≢ []) × IsLast used (SocketRead.bytes [])
IsCause protection got used (FramingError.io kind) =
    ((kind ≢ ErrorKind.interrupted) × IsLast used (SocketRead.failed kind))
    ⊎ ((before : List ℕ) × (chunk : List ℕ) × (kind ≡ ErrorKind.invalid_data)
        × (got ≡ before ++ chunk)
        × IsLast used (SocketRead.bytes chunk)
        × IsOver protection before chunk)
IsCause protection got used e = ⊥

-- What a result says of the bytes `got` that have arrived since the last frame, and of the reads used.
abbrev pub Meaning : FrameProtection → List ℕ → List SocketRead → FrameReader → ReadResult → Type 0
Meaning protection got used r pending = IsReading protection got r
Meaning protection got used r (ready (ok (some f))) =
    (got ≡ serialize f) × IsShaped protection f × IsIdle r
Meaning protection got used r (ready (ok none)) =
    (got ≡ []) × (r.eof ≡ true) × IsLast used (SocketRead.bytes [])
Meaning protection got used r (ready (err e)) =
    (r.failed ≡ true) × (r.bytes ≡ []) × IsCause protection got used e

-- The reads that were used, and what followed of their bytes.
abbrev pub IsOutcome :
    FrameProtection → List ℕ → List SocketRead → FrameReader × List SocketRead × ReadResult → Type 0
IsOutcome protection got script (r, rest, out) =
    (used : List SocketRead) × (script ≡ used ++ rest)
    × Meaning protection (got ++ bytes_in used) used r out

abbrev pub IsTurn : FrameProtection → List ℕ → List SocketRead → Turn → Type 0
IsTurn protection got script (again r rest) =
    (used : List SocketRead) × (script ≡ used ++ rest)
    × IsReading protection (got ++ bytes_in used) r
IsTurn protection got script (done r rest out) = IsOutcome protection got script (r, rest, out)
