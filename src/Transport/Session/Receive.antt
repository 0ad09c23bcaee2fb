-- ===== src/Transport/Session/Receive.antt =====
-- Dispatch of verified frames: session/receive.rs, and `receive` of session.rs.
use talk_sphere.Base.{
  ℕ, ◌+◌, false, not, ◌&&◌, ◌||◌, List, [], ◌∷◌, none, some, is_some, Result, ok, err, ltb, leb,
  ◌==◌, if◌then◌else◌, length,
}
use talk_sphere.Base.NatMap.{lookup, contains, modify}
use talk_sphere.Transport.Api.{FailureCode, FailureOrigin, StreamOutcome, CancellationReason, Event}
use talk_sphere.Transport.Codec.Frames.{FrameType, FrameHeader, is_type, max_payload_bytes}
use talk_sphere.Transport.Codec.Control.{ErrorCode, Diagnostic, error_decode}
use talk_sphere.Transport.Codec.Opening.{Open, open_decode}
use talk_sphere.Transport.Stream.Ids.{IdError, accept, was_created}
use talk_sphere.Transport.Stream.Registry.{Registry, resolve}
use talk_sphere.Transport.Session.State.{
  Session, SessionError, StreamState, M, ◌>>=◌, ◌>>◌, pure, throw, lift, update, push_event,
  event_limit, id_error, closed, capacity, protocol_error,
}
use talk_sphere.Transport.Session.Lifecycle.{
  failure, failure_code, refuse, terminate, complete, fail_stream, close,
}
use talk_sphere.Transport.Session.Ping.{tick, receive_ping}
use talk_sphere.Transport.Session.Drain.{receive_goaway}
use talk_sphere.Transport.Session.Requests.{add}

abbrev pub diagnostic_of : List ℕ → Result Diagnostic SessionError
diagnostic_of payload = elim (error_decode payload) [ ok d ↦ ok d | err e ↦ err protocol_error ]

-- A peer's connection ERROR closes the session.
unfoldable pub receive_error : List ℕ → M (Unit {0})
receive_error payload = do
  d ← lift (diagnostic_of payload)
  update (close (some (failure FailureOrigin.peer (failure_code d.code))) none)

abbrev pub peer_outcome : FrameType → ErrorCode → StreamOutcome
peer_outcome FrameType.cancel ErrorCode.cancelled =
    StreamOutcome.cancelled FailureOrigin.peer CancellationReason.cancelled
peer_outcome FrameType.cancel ErrorCode.resource_limit =
    StreamOutcome.cancelled FailureOrigin.peer CancellationReason.resource_limit
peer_outcome FrameType.cancel ErrorCode.internal_error =
    StreamOutcome.cancelled FailureOrigin.peer CancellationReason.internal_error
peer_outcome kind code = StreamOutcome.failed (failure FailureOrigin.peer (failure_code code))

-- CANCEL, or ERROR on a stream.
unfoldable pub receive_terminal : FrameType → ℕ → List ℕ → M (Unit {0})
receive_terminal kind id payload = do
  d ← lift (diagnostic_of payload)
  update (terminate id (peer_outcome kind d.code))

unfoldable pub end_remote : ℕ → StreamState → Session → Session
end_remote id state s = complete id (
    push_event (Event.remote_end state.handle)
      (record s { streams = modify id (λ st. record st { remote_open = false }) s.streams }))

unfoldable pub receive_end : ℕ → List ℕ → M (Unit {0})
receive_end id payload s = elim (lookup id s.streams) [
  | none ↦ (s, err protocol_error)
  | some state ↦
      if not (length payload == 0) || not state.remote_open
      then fail_stream id ErrorCode.stream_state_error FailureCode.stream_state s
      else (end_remote id state s, ok tt)
]

-- The verified bytes of a stream that wait for its consumer.
unfoldable pub buffered : ℕ → List Event → ℕ
buffered id [] = 0
buffered id (Event.received stream bytes ∷ rest) =
    let others = buffered id rest in if stream.wire_id == id then length bytes + others else others
buffered id (e ∷ rest) = buffered id rest

unfoldable pub receive_data : ℕ → List ℕ → M (Unit {0})
receive_data id payload s = elim (lookup id s.streams) [
  | none ↦ (s, err protocol_error)
  | some state ↦
      if not state.remote_open || (length payload == 0 || ltb max_payload_bytes (length payload))
      then fail_stream id ErrorCode.stream_state_error FailureCode.stream_state s
      else if ltb s.resources.limits.buffered_bytes_per_stream
          (buffered id s.events + length payload)
      then fail_stream id ErrorCode.resource_limit FailureCode.resource_limit s
      else (push_event (Event.received state.handle payload) s, ok tt)
]

unfoldable pub resolve_open : Registry → ℕ → Open → M (Unit {0})
resolve_open registry id selection = elim (resolve registry selection) [
  | none ↦ refuse id ErrorCode.unsupported_protocol
  | some owner ↦ do
    handle ← add id owner (record { id = selection.id; version = selection.version })
    pure tt
]

unfoldable pub admit_open : ℕ → List ℕ → Registry → M (Unit {0})
admit_open id payload registry s =
    if s.goaway_sent || is_some s.peer_goaway
    then refuse id ErrorCode.refused_stream s
    else if leb s.resources.limits.streams_per_connection (length s.streams)
    then refuse id ErrorCode.resource_limit s
    else elim (open_decode payload) [
      | err e ↦ refuse id ErrorCode.protocol_error s
      | ok selection ↦ resolve_open registry id selection s
    ]

abbrev pub accepted : Result (Unit {0}) IdError → M (Unit {0})
accepted (ok u) = pure tt
accepted (err e) = throw (id_error e)

-- OPEN consumes its number before its payload is looked at.
unfoldable pub receive_open : ℕ → List ℕ → Registry → M (Unit {0})
receive_open id payload registry = do
  λ s. accepted (accept s.ids id).1 (record s { ids = (accept s.ids id).0 })
  admit_open id payload registry

unfoldable pub dispatch : FrameType → ℕ → List ℕ → Registry → M (Unit {0})
dispatch kind id payload registry =
    if (is_type kind FrameType.cancel || is_type kind FrameType.error) && not (id == 0)
    then receive_terminal kind id payload
    else if is_type kind FrameType.end
    then receive_end id payload
    else if is_type kind FrameType.data_frame
    then receive_data id payload
    else if not (is_type kind FrameType.open_frame)
    then throw protocol_error
    else receive_open id payload registry

-- A frame of a stream: numbers never created are violations, terminal streams are ignored.
unfoldable pub receive_stream : FrameType → ℕ → List ℕ → Registry → M (Unit {0})
receive_stream kind id payload registry s =
    let scoped = not (is_type kind FrameType.open_frame) && not (id == 0) in
    if scoped && not (was_created s.ids id)
    then (s, err protocol_error)
    else if scoped && not (contains id s.streams)
    then (s, ok tt)
    else dispatch kind id payload registry s

unfoldable pub receive_parts : FrameType → ℕ → List ℕ → Registry → M (Unit {0})
receive_parts kind id payload registry =
    if is_type kind FrameType.go_away && id == 0
    then receive_goaway payload
    else if (is_type kind FrameType.ping || is_type kind FrameType.pong) && id == 0
    then receive_ping kind payload
    else if is_type kind FrameType.error && id == 0
    then receive_error payload
    else receive_stream kind id payload registry

-- The failure and the response by which an error of `receive_parts` closes the connection.
abbrev pub close_on_error :
    Session × Result (Unit {0}) SessionError → Session × Result (Unit {0}) SessionError
close_on_error (s, ok u) = (s, ok tt)
close_on_error (s, err capacity) = (
  close (some (failure FailureOrigin.local FailureCode.resource_limit))
      (some ErrorCode.resource_limit) s,
  err capacity,
)
close_on_error (s, err e) = (
  close (some (failure FailureOrigin.local FailureCode.protocol_violation))
      (some ErrorCode.protocol_error) s,
  err e,
)

-- Dispatch after `tick`, unless the consumer has left too many events.
unfoldable pub receive_bounded : FrameHeader → List ℕ → Registry → M (Unit {0})
receive_bounded header payload registry s =
    if leb (event_limit s) (length s.events)
    then (
      close (some (failure FailureOrigin.local FailureCode.resource_limit)) none s,
      err capacity,
    )
    else close_on_error (receive_parts header.frame_type header.stream_id payload registry s)

unfoldable pub receive : FrameHeader → List ℕ → Registry → ℕ → M (Unit {0})
receive header payload registry now s =
    if s.is_closed then (s, err closed) else receive_bounded header payload registry (tick now s)
