-- ===== src/Transport/Session/Lifecycle.antt =====
-- Half-close, terminal outcomes and connection cleanup: session/lifecycle.rs, and `refuse` and
-- `failure_code` of session.rs.
use talk_sphere.Base.{
  ℕ, Bool, true, false, not, ◌&&◌, ◌||◌, List, [], ◌∷◌, ◌++◌, Option, none, some, Result, ok, err,
  map_err, ◌==◌, if◌then◌else◌,
}
use talk_sphere.Base.NatMap.{lookup, contains, remove, modify}
use talk_sphere.Transport.Api.{
  Failure, FailureCode, FailureOrigin, StreamOutcome, CancellationReason, StreamHandle, StreamOwner,
  Event, authorize,
}
use talk_sphere.Transport.Codec.Frames.{FrameType, is_type}
use talk_sphere.Transport.Codec.Control.{ErrorCode, error_payload, error_encode}
use talk_sphere.Transport.Framing.{WireFrame}
use talk_sphere.Transport.Session.State.{
  Session, SessionError, StreamState, Probe, M, ◌>>=◌, ◌>>◌, lift, get, update, require, closed,
  authority, protocol_error,
}
use talk_sphere.Transport.Session.Output.{
  frame, queue, clear_outbound, retain_outbound, push_reserved, reserve_outbound,
}

abbrev pub failure : FailureOrigin → FailureCode → Failure
failure origin code = record { origin = origin; code = code }

unfoldable pub failure_code : ErrorCode → FailureCode
failure_code ErrorCode.authentication_failed = FailureCode.authentication_failed
failure_code ErrorCode.frame_size_error = FailureCode.frame_too_large
failure_code ErrorCode.unsupported_protocol = FailureCode.unsupported_protocol
failure_code ErrorCode.stream_state_error = FailureCode.stream_state
failure_code ErrorCode.refused_stream = FailureCode.refused
failure_code ErrorCode.internal_error = FailureCode.internal
failure_code ErrorCode.id_exhausted = FailureCode.id_exhausted
failure_code ErrorCode.resource_limit = FailureCode.resource_limit
failure_code ErrorCode.cancelled = FailureCode.cancelled
failure_code ErrorCode.protocol_error = FailureCode.protocol_violation
failure_code ErrorCode.no_error = FailureCode.protocol_violation

-- `ErrorPayload::new(code, "")`, encoded; its failure is a protocol error.
unfoldable pub error_bytes : ErrorCode → Result (List ℕ) SessionError
error_bytes code = elim (error_payload code []) [
  | ok payload ↦ ok (error_encode payload)
  | err e ↦ err protocol_error
]

unfoldable pub refuse : ℕ → ErrorCode → M (Unit {0})
refuse id code = do
  payload ← lift (error_bytes code)
  output ← lift (frame FrameType.error id payload)
  queue output

-- `if let Some(state) = self.streams.remove(&id)` with the closing event.
unfoldable pub close_stream : ℕ → StreamOutcome → Session → Session
close_stream id outcome s = elim (lookup id s.streams) [
  | none ↦ s
  | some state ↦ record s {
    streams = remove id s.streams;
    events = s.events ++ Event.stream_closed state.handle outcome ∷ [];
  }
]

abbrev pub keeps_frame : ℕ → WireFrame → Bool
keeps_frame id f =
    not (f.header.stream_id == id) || is_type f.header.frame_type FrameType.open_frame

unfoldable pub terminate : ℕ → StreamOutcome → Session → Session
terminate id outcome s = close_stream id outcome (retain_outbound (keeps_frame id) s)

abbrev pub is_complete : Option StreamState → Bool
is_complete none = false
is_complete (some state) = not state.remote_open && state.local_end_written

unfoldable pub complete : ℕ → Session → Session
complete id s =
    if is_complete (lookup id s.streams) then close_stream id StreamOutcome.completed s else s

unfoldable pub fail_stream : ℕ → ErrorCode → FailureCode → M (Unit {0})
fail_stream id wire code = do
  update (terminate id (StreamOutcome.failed (failure FailureOrigin.local code)))
  refuse id wire

abbrev pub option_or : Option Failure → Option Failure → Option Failure
option_or none b = b
option_or (some a) b = some a

abbrev pub failure_or : Option Failure → Failure → Failure
failure_or none f = f
failure_or (some f) g = f

unfoldable pub ping_events : ℕ → Failure → List Probe → List Event
ping_events handle unfinished [] = []
ping_events handle unfinished (p ∷ ps) =
    Event.ping_finished handle p.token (err unfinished) ∷ ping_events handle unfinished ps

unfoldable pub stream_events : Failure → List (ℕ × StreamState) → List Event
stream_events unfinished [] = []
stream_events unfinished ((id, state) ∷ rest) =
    Event.stream_closed state.handle (StreamOutcome.failed unfinished)
    ∷ stream_events unfinished rest

-- The state of `close` before its response.
unfoldable pub close_work : Option Failure → Session → Session
close_work cause s =
    let failed = option_or cause s.drain_failure in
    let unfinished = failure_or failed (failure FailureOrigin.local FailureCode.connection_lost) in
    let cleared = clear_outbound s in
    record cleared {
      is_closed = true;
      pings = [];
      streams = [];
      events =
          s.events
          ++ (ping_events s.handle unfinished s.pings
              ++ (stream_events unfinished s.streams
                  ++ Event.connection_closed s.handle failed ∷ []));
    }

-- `if let Some(code)`, `let Ok(payload)`, `let Ok(frame)`: queue the ERROR, ignoring a full queue.
unfoldable pub respond : Option ErrorCode → Session → Session
respond none s = s
respond (some code) s = elim (error_bytes code) [
  | err e ↦ s
  | ok payload ↦ elim (frame FrameType.error 0 payload) [
    | err e ↦ s
    | ok output ↦ (queue output s).0
  ]
]

unfoldable pub close : Option Failure → Option ErrorCode → Session → Session
close cause response s = if s.is_closed then s else respond response (close_work cause s)

abbrev pub is_open_locally : Option StreamState → Bool
is_open_locally none = false
is_open_locally (some state) = state.local_open

unfoldable pub end : StreamOwner → StreamHandle → M (Unit {0})
end owner stream = do
  s ← get
  require (not s.is_closed) closed
  lift (map_err authority (authorize stream s.handle owner))
  require (is_open_locally (lookup stream.wire_id s.streams)) protocol_error
  output ← lift (frame FrameType.end stream.wire_id [])
  reserve_outbound 28
  update λ t. push_reserved output 28 (record t {
    streams = modify stream.wire_id (λ state. record state { local_open = false }) t.streams;
  })

abbrev pub code_of : CancellationReason → ErrorCode
code_of CancellationReason.cancelled = ErrorCode.cancelled
code_of CancellationReason.resource_limit = ErrorCode.resource_limit
code_of CancellationReason.internal_error = ErrorCode.internal_error

-- `if self.queue(frame).is_err() { self.close(…) }`
abbrev pub close_if_full :
    Session × Result (Unit {0}) SessionError → Session × Result (Unit {0}) SessionError
close_if_full (s, ok u) = (s, ok tt)
close_if_full (s, err e) =
    (close (some (failure FailureOrigin.local FailureCode.resource_limit)) none s, ok tt)

unfoldable pub queue_or_close : WireFrame → M (Unit {0})
queue_or_close output s = close_if_full (queue output s)

unfoldable pub cancel : StreamOwner → StreamHandle → CancellationReason → M (Unit {0})
cancel owner stream reason = do
  s ← get
  require (not s.is_closed) closed
  lift (map_err authority (authorize stream s.handle owner))
  require (contains stream.wire_id s.streams) protocol_error
  update (terminate stream.wire_id (StreamOutcome.cancelled FailureOrigin.local reason))
  payload ← lift (error_bytes (code_of reason))
  output ← lift (frame FrameType.cancel stream.wire_id payload)
  queue_or_close output

-- `sent`: a GOAWAY or an END has been written in full.
unfoldable pub sent_end : ℕ → Session → Session
sent_end id s = complete id (record s {
  streams =
      modify id (λ state. record state { local_end_written = not state.local_open }) s.streams;
})

unfoldable pub sent : FrameType → ℕ → Session → Session
sent kind id s =
    let t : Session =
      if is_type kind FrameType.go_away then record s { goaway_written = true } else s in
    if is_type kind FrameType.end then sent_end id t else t
