-- ===== src/Transport/Framing/Reader.antt =====
-- The incremental reader: framing/reader.rs.
mod Buffer
pub mod Outcome
mod Completion
mod Turns
pub mod Progress
pub mod Waiting
use talk_sphere.Base.{
  ℕ, zero, suc, ◌+◌, ◌-◌, Bool, true, false, not, ◌&&◌, List, [], ◌∷◌, ◌++◌, Option, none, some,
  Result, ok, err, leb, ◌==◌, if◌then◌else◌, length, take, drop, replicate,
}
use talk_sphere.Transport.Codec.Frames.{FrameHeader, FrameProtection, decode, frame_len}
use talk_sphere.Transport.Framing.{ErrorKind, FramingError, WireFrame}
use talk_sphere.Transport.Framing.Wire.{Poll, pending, ready, SocketRead}

pub record FrameReader : Type 0 where
  pub bytes : List ℕ
  pub offset : ℕ
  pub header : Option FrameHeader
  pub phase : Option FrameProtection
  pub failed : Bool
  pub eof : Bool

-- `FrameReader::default`
abbrev pub new_reader : FrameReader
new_reader = record {
  bytes = [];
  offset = 0;
  header = none;
  phase = none;
  failed = false;
  eof = false;
}

abbrev pub ReadResult : Type 0
ReadResult = Poll (Result (Option WireFrame) FramingError)

-- One round of the loop: it goes on, or `poll_frame` returns.
pub data Turn : Type 0 where
  again : FrameReader → List SocketRead → Turn
  done : FrameReader → List SocketRead → ReadResult → Turn

unfoldable pub fail_reader : FramingError → FrameReader → List SocketRead → Turn
fail_reader e r script = done (record r { failed = true; bytes = [] }) script (ready (err e))

-- `Vec::resize(n, 0)`
unfoldable pub resized : ℕ → List ℕ → List ℕ
resized n xs = take n xs ++ replicate (n - length xs) 0

-- What `poll_read` leaves in the buffer.
unfoldable pub filled : ℕ → List ℕ → List ℕ → List ℕ
filled offset chunk buffer = take offset buffer ++ (chunk ++ drop (offset + length chunk) buffer)

-- The frame in a full buffer.
unfoldable pub split_frame : FrameProtection → FrameHeader → List ℕ → WireFrame
split_frame FrameProtection.tagged h buffer = record {
  reservation = none;
  header = h;
  payload = drop 12 (take (length buffer - 16) buffer);
  tag = some (drop (length buffer - 16) buffer);
}
split_frame FrameProtection.untagged h buffer = record {
  reservation = none;
  header = h;
  payload = drop 12 buffer;
  tag = none;
}

unfoldable pub accept_header : FrameProtection → FrameHeader → FrameReader → List SocketRead → Turn
unfolding fail_reader
accept_header protection h r script = elim (frame_len h protection) [
  | err e ↦ fail_reader (FramingError.bad_header e) r script
  | ok n ↦ again (record r { header = some h; bytes = resized n r.bytes }) script
]

-- `if self.offset == self.bytes.len()`: the header, or the whole frame, has arrived.
unfoldable pub complete_part :
    FrameProtection → Option FrameHeader → FrameReader → List SocketRead → Turn
unfolding fail_reader split_frame
complete_part protection (some h) r script =
    done (record r { bytes = []; offset = 0; header = none; phase = none }) script
      (ready (ok (some (split_frame protection h r.bytes))))
complete_part protection none r script = elim (decode r.bytes) [
  | err e ↦ fail_reader (FramingError.bad_header e) r script
  | ok h ↦ accept_header protection h r script
]

unfoldable pub accept_bytes : List ℕ → FrameReader → List SocketRead → Turn
unfolding fail_reader filled
accept_bytes chunk r script =
    if length chunk == 0
    then if r.offset == 0
      then done (record r { eof = true; bytes = [] }) script (ready (ok none))
      else fail_reader FramingError.truncated r script
    else if leb (length chunk) (length r.bytes - r.offset)
    then again
        (record r { offset = r.offset + length chunk; bytes = filled r.offset chunk r.bytes })
        script
    else fail_reader (FramingError.io ErrorKind.invalid_data) r script

-- `match socket.poll_read(…)`
unfoldable pub read_part : FrameReader → List SocketRead → Turn
unfolding fail_reader accept_bytes
read_part r [] = done r [] pending
read_part r (SocketRead.waits ∷ script) = done r script pending
read_part r (SocketRead.failed ErrorKind.interrupted ∷ script) = again r script
read_part r (SocketRead.failed kind ∷ script) = fail_reader (FramingError.io kind) r script
read_part r (SocketRead.bytes chunk ∷ script) = accept_bytes chunk r script

unfoldable pub turn : FrameProtection → FrameReader → List SocketRead → Turn
unfolding complete_part read_part
turn protection r script =
    if r.offset == length r.bytes
    then complete_part protection r.header r script
    else read_part r script

-- `for _ in 0..64`; past it the reader wakes its task and waits.
unfoldable pub poll_rounds :
    ℕ → FrameProtection → FrameReader → List SocketRead → FrameReader × List SocketRead × ReadResult
poll_rounds zero protection r script = (r, script, pending)
poll_rounds (suc n) protection r script = elim (turn protection r script) [
  | again r' script' ↦ poll_rounds n protection r' script'
  | done r' script' out ↦ (r', script', out)
]

abbrev pub other_phase : Option FrameProtection → FrameProtection → Bool
other_phase none protection = false
other_phase (some FrameProtection.tagged) FrameProtection.tagged = false
other_phase (some FrameProtection.untagged) FrameProtection.untagged = false
other_phase (some old) protection = true

abbrev pub returned : Turn → FrameReader × List SocketRead × ReadResult
returned (again r script) = (r, script, pending)
returned (done r script out) = (r, script, out)

-- The state in which the loop starts.
unfoldable pub prepared : FrameProtection → FrameReader → FrameReader
unfolding resized
prepared protection r = record r {
  phase = some protection;
  bytes = if length r.bytes == 0 then resized 12 r.bytes else r.bytes;
}

unfoldable pub poll_frame :
    FrameProtection → FrameReader → List SocketRead → FrameReader × List SocketRead × ReadResult
unfolding fail_reader poll_rounds prepared
poll_frame protection r script =
    if r.failed
    then (r, script, ready (err FramingError.closed))
    else if r.eof
    then (r, script, ready (ok none))
    else if other_phase r.phase protection
    then returned (fail_reader FramingError.phase_changed r script)
    else poll_rounds 64 protection (prepared protection r) script
