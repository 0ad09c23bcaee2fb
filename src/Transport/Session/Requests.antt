-- ===== src/Transport/Session/Requests.antt =====
-- Local requests: `open`, `send` and `add` of session.rs.
use talk_sphere.Base.{
  ℕ, ◌+◌, Bool, true, false, not, ◌||◌, List, [], ◌∷◌, ◌++◌, none, some, is_some, Result, ok, err,
  map_err, ltb, leb, ◌==◌, if◌then◌else◌, length,
}
use talk_sphere.Base.NatMap.{lookup, insert}
use talk_sphere.Transport.Api.{
  Protocol, StreamHandle, StreamOwner, ShutdownReason, Event, authorize,
}
use talk_sphere.Transport.Resources.{release}
use talk_sphere.Transport.Codec.Frames.{FrameType, max_payload_bytes}
use talk_sphere.Transport.Codec.Opening.{open_new, open_encode}
use talk_sphere.Transport.Stream.Ids.{allocate, is_local, IdError}
use talk_sphere.Transport.Stream.Registry.{Registry, protocol}
use talk_sphere.Transport.Session.State.{
  Session, SessionError, StreamState, M, ◌>>=◌, ◌>>◌, pure, throw, lift, get, update, require,
  event_limit, id_error, no_owner, closed, draining, authority, invalid_data, capacity,
  protocol_error,
}
use talk_sphere.Transport.Session.Output.{
  frame, queue, reserve_outbound, push_reserved, set_outbound_used,
}
use talk_sphere.Transport.Session.Lifecycle.{is_open_locally}
use talk_sphere.Transport.Session.Drain.{drain}

-- The stream and its event, once the number is known to be nonzero.
unfoldable pub install : ℕ → StreamOwner → Protocol → M StreamHandle
install id owner p s =
    let stream : StreamHandle = record { connection = s.handle; owner = owner; wire_id = id } in
    let state : StreamState = record {
      handle = stream;
      local_open = true;
      remote_open = true;
      local_end_written = false;
    } in
    (
      record s {
        streams = insert id state s.streams;
        events = s.events ++ Event.stream_opened s.context stream p ∷ [];
      },
      ok stream,
    )

unfoldable pub add : ℕ → StreamOwner → Protocol → M StreamHandle
add id owner p = do
  update λ s. if not (is_local s.ids id) then record s { accepted_remote = id } else s
  require (not (id == 0)) protocol_error
  install id owner p

abbrev pub open_bytes : Protocol → Result (List ℕ) SessionError
open_bytes p = elim (open_new p.id p.version) [
  | ok o ↦ ok (open_encode o)
  | err e ↦ err protocol_error
]

-- `match self.ids.allocate()`: exhaustion starts a drain.
abbrev pub allocated : Result ℕ IdError → M ℕ
allocated (ok id) = pure id
allocated (err e) = do drain ShutdownReason.id_exhausted; throw (id_error e)

unfoldable pub allocate_id : M ℕ
allocate_id s = allocated (allocate s.ids).1 (record s { ids = (allocate s.ids).0 })

-- What `open` does under its reservation.
unfoldable pub open_reserved : StreamOwner → Protocol → List ℕ → M StreamHandle
open_reserved owner p payload = do
  id ← allocate_id
  handle ← add id owner p
  output ← lift (frame FrameType.open_frame id payload)
  update (push_reserved output (length payload + 28))
  pure handle

-- An error drops the reservation that no frame has taken.
abbrev pub release_on_error :
    {A : Type 0} → ℕ → Session × Result A SessionError → Session × Result A SessionError
release_on_error amount (s, ok a) = (s, ok a)
release_on_error amount (s, err e) =
    (set_outbound_used s (release s.resources.outbound amount), err e)

unfoldable pub open_stream : Registry → StreamOwner → M StreamHandle
open_stream registry owner = do
  s ← get
  require (not s.is_closed) closed
  require (not (s.goaway_sent || is_some s.peer_goaway)) draining
  p ← lift (elim (protocol registry owner) [ some p ↦ ok p | none ↦ err no_owner ])
  payload ← lift (open_bytes p)
  require
      (not (
        leb (event_limit s) (length s.events)
        || leb s.resources.limits.streams_per_connection (length s.streams)))
      capacity
  reserve_outbound (length payload + 28)
  λ t. release_on_error (length payload + 28) (open_reserved owner p payload t)

abbrev pub is_sendable : List ℕ → Bool
is_sendable bytes = not (length bytes == 0 || ltb max_payload_bytes (length bytes))

unfoldable pub send : StreamOwner → StreamHandle → List ℕ → M (Unit {0})
send owner stream bytes = do
  s ← get
  require (not s.is_closed) closed
  lift (map_err authority (authorize stream s.handle owner))
  require (is_open_locally (lookup stream.wire_id s.streams)) protocol_error
  require (is_sendable bytes) invalid_data
  output ← lift (frame FrameType.data_frame stream.wire_id bytes)
  queue output
