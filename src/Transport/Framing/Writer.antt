-- ===== src/Transport/Framing/Writer.antt =====
-- The single-frame writer: framing/writer.rs. A writer's lease is the amount that the budget gets back
-- when the writer lets go of it.
pub mod Waiting
pub mod Progress
use talk_sphere.Base.{
  ℕ, zero, suc, ◌+◌, ◌-◌, Bool, true, false, not, List, [], ◌∷◌, ◌++◌, Option, none, some, is_some,
  Result, ok, err, leb, ◌==◌, if◌then◌else◌, length, take, drop,
}
use talk_sphere.Transport.Codec.Frames.{FrameProtection, frame_len}
use talk_sphere.Transport.Framing.{ErrorKind, FramingError, WireFrame}
use talk_sphere.Transport.Framing.Wire.{Poll, pending, ready, SocketWrite, serialize}

pub record FrameWriter : Type 0 where
  pub lease : Option ℕ
  pub bytes : List ℕ
  pub offset : ℕ
  pub failed : Bool

-- `FrameWriter::default`
abbrev pub new_writer : FrameWriter
new_writer = record { lease = none; bytes = []; offset = 0; failed = false }

abbrev pub is_tagged : FrameProtection → Bool
is_tagged FrameProtection.tagged = true
is_tagged FrameProtection.untagged = false

abbrev pub same_tagging : Bool → Bool → Bool
same_tagging true b = b
same_tagging false b = not b

unfoldable pub start_frame :
    WireFrame → FrameProtection → FrameWriter → FrameWriter × Result (Unit {0}) FramingError
start_frame f protection w =
    if w.failed
    then (w, err FramingError.closed)
    else if not (length w.bytes == 0)
    then (w, err FramingError.busy)
    else if not (same_tagging (is_some f.tag) (is_tagged protection))
    then (w, err FramingError.shape)
    else elim (frame_len f.header protection) [
      | err e ↦ (w, err (FramingError.bad_header e))
      | ok n ↦ (record w { lease = f.reservation; bytes = serialize f; offset = 0 }, ok tt)
    ]

abbrev pub WriteResult : Type 0
WriteResult = Poll (Result (Unit {0}) FramingError)

-- One round of the loop, with the bytes that the socket has taken in it.
pub data WriteTurn : Type 0 where
  again : FrameWriter → List SocketWrite → List ℕ → WriteTurn
  done : FrameWriter → List SocketWrite → WriteResult → WriteTurn

unfoldable pub fail_writer : ErrorKind → FrameWriter → List SocketWrite → WriteTurn
fail_writer kind w script =
    done (record w { lease = none; failed = true; bytes = [] }) script
      (ready (err (FramingError.io kind)))

unfoldable pub write_bytes : ℕ → FrameWriter → List SocketWrite → WriteTurn
unfolding fail_writer
write_bytes count w script =
    if count == 0
    then fail_writer ErrorKind.write_zero w script
    else if leb count (length w.bytes - w.offset)
    then again (record w { offset = w.offset + count }) script (take count (drop w.offset w.bytes))
    else fail_writer ErrorKind.invalid_data w script

-- `match socket.poll_write(…)`
unfoldable pub write_part : FrameWriter → List SocketWrite → WriteTurn
unfolding fail_writer write_bytes
write_part w [] = done w [] pending
write_part w (SocketWrite.waits ∷ script) = done w script pending
write_part w (SocketWrite.failed ErrorKind.interrupted ∷ script) = again w script []
write_part w (SocketWrite.failed kind ∷ script) = fail_writer kind w script
write_part w (SocketWrite.takes count ∷ script) = write_bytes count w script

unfoldable pub write_turn : FrameWriter → List SocketWrite → WriteTurn
unfolding write_part
write_turn w script =
    if w.offset == length w.bytes
    then done (record w { lease = none; bytes = []; offset = 0 }) script (ready (ok tt))
    else write_part w script

-- `for _ in 0..64`: the writer, the answers left, the bytes that the socket has taken, and the result.
unfoldable pub flush_rounds :
    ℕ → FrameWriter → List SocketWrite → FrameWriter × List SocketWrite × List ℕ × WriteResult
flush_rounds zero w script = (w, script, [], pending)
flush_rounds (suc n) w script = elim (write_turn w script) [
  | again w' script' out ↦
      (let (v, rest, written, result) = flush_rounds n w' script' in
        (v, rest, out ++ written, result))
  | done w' script' result ↦ (w', script', [], result)
]

unfoldable pub poll_flush :
    FrameWriter → List SocketWrite → FrameWriter × List SocketWrite × List ℕ × WriteResult
unfolding flush_rounds
poll_flush w script =
    if w.failed then (w, script, [], ready (err FramingError.closed)) else flush_rounds 64 w script

unfoldable pub is_busy : FrameWriter → Bool
is_busy w = not (length w.bytes == 0)
