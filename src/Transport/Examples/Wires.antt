-- ===== src/Transport/Examples/Wires.antt =====
-- The theorems of frame input and output at concrete inputs: one frame comes in pieces of 5, 7 and 2
-- octets, with an interruption, before two octets of the next one.
use talk_sphere.Base.{
  ℕ, ◌≡◌, refl, false, List, [], ◌∷◌, some, none, ok, inr, All, arith, take, drop,
}
use talk_sphere.Base.Bytes.{IsByte}
use talk_sphere.Transport.Codec.Frames.{
  FrameType, FrameProtection, decode, encode, frame_len, frame_type_try_from,
}
use talk_sphere.Transport.Framing.{ErrorKind, WireFrame}
use talk_sphere.Transport.Framing.Wire.{ready, SocketRead, SocketWrite, serialize, IsShaped}
use talk_sphere.Transport.Framing.Wire.Prefix.{serialize_prefix_free}
use talk_sphere.Transport.Framing.Reader.{FrameReader, new_reader, accept_header, poll_frame, turn}
use talk_sphere.Transport.Framing.Reader.Outcome.{bytes_in, IsAt, IsOutcome}
use talk_sphere.Transport.Framing.Reader.Progress.{poll_frame_sound}
use talk_sphere.Transport.Framing.Reader.Waiting.{IsWait, poll_frame_waits}
use talk_sphere.Transport.Framing.Writer.{FrameWriter, new_writer, start_frame, poll_flush}
use talk_sphere.Transport.Framing.Writer.Waiting
use talk_sphere.Transport.Framing.Writer.Progress.{
  IsWriting, IsFlush, IsStart, poll_flush_sound, start_frame_sound,
}
use talk_sphere.Transport.Framing.Delivery.{poll_frame-serialize}

abbrev small_frame : WireFrame
small_frame = record {
  reservation = some 14;
  header = record { frame_type = FrameType.data_frame; stream_id = 1; payload_len = 2 };
  payload = 7 ∷ 8 ∷ [];
  tag = none;
}

abbrev small_bytes : List ℕ
small_bytes = 1 ∷ 0 ∷ []

small_frame-IsShaped : IsShaped FrameProtection.untagged small_frame
small_frame-IsShaped = record {
  valid = record { stream_id_fits = omega arith; payload_bounded = omega arith; scope = refl };
  payload_length = refl;
  tag_length = tt;
}

serialize_prefix_free_example :
    (small_frame.header ≡ small_frame.header)
    × (small_frame.payload ≡ small_frame.payload)
    × (small_frame.tag ≡ small_frame.tag)
    × (small_bytes ≡ small_bytes)
serialize_prefix_free_example =
    serialize_prefix_free FrameProtection.untagged small_frame small_frame small_bytes small_bytes
      small_frame-IsShaped small_frame-IsShaped refl

abbrev pieces : List SocketRead
pieces =
    SocketRead.bytes (take 5 (serialize small_frame))
    ∷ SocketRead.failed ErrorKind.interrupted
    ∷ SocketRead.bytes (take 7 (drop 5 (serialize small_frame)))
    ∷ SocketRead.bytes (drop 12 (serialize small_frame))
    ∷ SocketRead.bytes small_bytes
    ∷ []

new_reader-IsAt : IsAt FrameProtection.untagged [] new_reader
new_reader-IsAt = inr (
  record {
    alive = refl;
    open_end = refl;
    no_phase = refl;
    no_bytes = refl;
    no_header = refl;
    at_start = refl;
  },
  refl,
)

pieces-IsByte : All IsByte (bytes_in pieces)
unfolding bytes_in serialize encode
pieces-IsByte = ground arith

poll_frame_sound_example :
    IsOutcome FrameProtection.untagged [] pieces
      (poll_frame FrameProtection.untagged new_reader pieces)
poll_frame_sound_example =
    poll_frame_sound FrameProtection.untagged [] new_reader pieces new_reader-IsAt pieces-IsByte

abbrev arrived_frame : WireFrame
arrived_frame = record small_frame { reservation = none }

abbrev after_pieces : FrameReader
after_pieces = (poll_frame FrameProtection.untagged new_reader pieces).0

pieces_arrive :
    poll_frame FrameProtection.untagged new_reader pieces
    ≡ (after_pieces, SocketRead.bytes small_bytes ∷ [], ready (ok (some arrived_frame)))
unfolding poll_frame serialize turn encode decode frame_type_try_from accept_header frame_len
pieces_arrive = refl

poll_frame-serialize_example :
    ((arrived_frame.header ≡ small_frame.header)
      × (arrived_frame.payload ≡ small_frame.payload)
      × (arrived_frame.tag ≡ small_frame.tag))
    × (bytes_in (SocketRead.bytes small_bytes ∷ []) ≡ small_bytes)
unfolding bytes_in serialize encode
poll_frame-serialize_example =
    poll_frame-serialize FrameProtection.untagged small_frame arrived_frame [] small_bytes
      new_reader after_pieces pieces (SocketRead.bytes small_bytes ∷ []) new_reader-IsAt
      pieces-IsByte small_frame-IsShaped refl pieces_arrive

abbrev small_writer : FrameWriter
small_writer = record { lease = some 14; bytes = serialize small_frame; offset = 0; failed = false }

small_writer-IsWriting : IsWriting small_frame [] small_writer
small_writer-IsWriting = record {
  alive = refl;
  whole = refl;
  sent = refl;
  room = omega arith;
  leased = refl;
}

abbrev answers : List SocketWrite
answers = SocketWrite.takes 5 ∷ SocketWrite.failed ErrorKind.interrupted ∷ SocketWrite.takes 9 ∷ []

poll_flush_sound_example :
    IsFlush small_frame [] answers (poll_flush small_writer answers)
    × Waiting.IsWait 64 answers (poll_flush small_writer answers)
poll_flush_sound_example =
    poll_flush_sound small_frame [] small_writer answers small_writer-IsWriting

start_frame_sound_example :
    IsStart small_frame FrameProtection.untagged new_writer
      (start_frame small_frame FrameProtection.untagged new_writer)
start_frame_sound_example = start_frame_sound small_frame FrameProtection.untagged new_writer

poll_frame_waits_example : IsWait 63 pieces (poll_frame FrameProtection.untagged new_reader pieces)
poll_frame_waits_example = poll_frame_waits FrameProtection.untagged new_reader pieces
