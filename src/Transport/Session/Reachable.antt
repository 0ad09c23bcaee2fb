-- ===== src/Transport/Session/Reachable.antt =====
-- The life of a session: a step relation of every operation that a driver, a consumer or the peer
-- causes, in any order, with the events delivered so far.
-- `budget_changed` is what the other holders of the shared outbound budget do, and what the driver
-- does when it drops a frame that it has taken.
use talk_sphere.Base.{ℕ, ◌≡◌, false, List, [], ◌∷◌, ◌++◌, Option, none, some}
use talk_sphere.Transport.Api.{
  StreamOwner, StreamHandle, Event, Failure, ShutdownReason, CancellationReason,
}
use talk_sphere.Transport.Resources.{Counter}
use talk_sphere.Transport.Codec.Frames.{FrameType, FrameHeader}
use talk_sphere.Transport.Codec.Control.{ErrorCode}
use talk_sphere.Transport.Stream.Ids.{was_created}
use talk_sphere.Transport.Stream.Ids.History.{IsHistory}
use talk_sphere.Transport.Stream.Registry.{Registry}
use talk_sphere.Base.NatMap.{contains}
use talk_sphere.Transport.Session.State.{Session}
use talk_sphere.Transport.Session.Output.{set_outbound_used}
use talk_sphere.Transport.Session.Lifecycle.{end, cancel, sent, close}
use talk_sphere.Transport.Session.Drain.{drain}
use talk_sphere.Transport.Session.Ping.{ping, tick}
use talk_sphere.Transport.Session.Receive.{receive}
use talk_sphere.Transport.Session.Requests.{open_stream, send}
use talk_sphere.Transport.Session.Scheduler.{
  next_output, pop_event, pop_stream_event, element_at, remove_at, position, belongs_to,
}
use talk_sphere.Transport.Session.Invariant.{IsInvariant, IsQueueBlind}
use talk_sphere.Transport.Session.Closure.{
  receive-Keeps, open_stream-Keeps, send-Keeps, end-Keeps, cancel-Keeps, ping-Keeps, tick-Keeps,
  drain-Keeps, close-Keeps, sent-Keeps, next_output-Keeps,
}

abbrev pub taken : Option Event → List Event
taken none = []
taken (some e) = e ∷ []

pub data Reachable (start : Session) : List Event → Session → Type 0 where
  begun : Reachable start [] start
  received :
      (header : FrameHeader) (payload : List ℕ) (registry : Registry) (now : ℕ) {ds : List Event}
      {s : Session}
      → Reachable start ds s
      → Reachable start ds (receive header payload registry now s).0
  opened :
      (registry : Registry) (owner : StreamOwner) {ds : List Event} {s : Session}
      → Reachable start ds s
      → Reachable start ds (open_stream registry owner s).0
  data_sent :
      (owner : StreamOwner) (stream : StreamHandle) (bytes : List ℕ) {ds : List Event} {s : Session}
      → Reachable start ds s
      → Reachable start ds (send owner stream bytes s).0
  ended :
      (owner : StreamOwner) (stream : StreamHandle) {ds : List Event} {s : Session}
      → Reachable start ds s
      → Reachable start ds (end owner stream s).0
  cancelled :
      (owner : StreamOwner) (stream : StreamHandle) (reason : CancellationReason) {ds : List Event}
      {s : Session}
      → Reachable start ds s
      → Reachable start ds (cancel owner stream reason s).0
  pinged :
      (horizon : ℕ) (token : List ℕ) (timeout now : ℕ) {ds : List Event} {s : Session}
      → Reachable start ds s
      → Reachable start ds (ping horizon token timeout now s).0
  ticked :
      (now : ℕ) {ds : List Event} {s : Session}
      → Reachable start ds s
      → Reachable start ds (tick now s)
  drained :
      (reason : ShutdownReason) {ds : List Event} {s : Session}
      → Reachable start ds s
      → Reachable start ds (drain reason s).0
  connection_closed :
      (cause : Option Failure) (response : Option ErrorCode) {ds : List Event} {s : Session}
      → Reachable start ds s
      → Reachable start ds (close cause response s)
  output_taken :
      {ds : List Event} {s : Session} → Reachable start ds s → Reachable start ds (next_output s).0
  output_written :
      (kind : FrameType) (id : ℕ) {ds : List Event} {s : Session}
      → Reachable start ds s
      → Reachable start ds (sent kind id s)
  budget_changed :
      (c : Counter) {ds : List Event} {s : Session}
      → Reachable start ds s
      → Reachable start ds (set_outbound_used s c)
  event_popped :
      {ds : List Event} {s : Session}
      → Reachable start ds s
      → Reachable start (ds ++ taken (pop_event s).1) (pop_event s).0
  stream_event_popped :
      (owner : StreamOwner) {ds : List Event} {s : Session}
      → Reachable start ds s
      → Reachable start (ds ++ taken (pop_stream_event owner s).1) (pop_stream_event owner s).0

-- An invariant that accounts for delivered events holds through the whole life.
module _ {ℓ} (P : List Event → Session → Type ℓ) (v : (ds : List Event) → IsInvariant (P ds))
    (q : (ds : List Event) → IsQueueBlind (P ds))
    (history : (ds : List Event) (s : Session) → P ds s → IsHistory s.ids)
    (absent : (ds : List Event) (k : ℕ) (s : Session)
      → P ds s
      → was_created s.ids k ≡ false
      → contains k s.streams ≡ false)
    (delivered : (ds : List Event) (i : ℕ) (s : Session)
      → P ds s
      → P (ds ++ taken (element_at i s.events)) (record s { events = remove_at i s.events }))
    (nothing : (ds : List Event) (s : Session) → P ds s → P (ds ++ []) s) (start : Session)
    (initial : P [] start) where
  popped :
      (owner : StreamOwner) (ds : List Event) (s : Session)
      → P ds s
      → P (ds ++ taken (pop_stream_event owner s).1) (pop_stream_event owner s).0
  unfolding pop_stream_event
  popped owner ds s g = go (position (belongs_to s.handle owner) 0 s.events)
    where
      next : Option ℕ → Session × Option Event
      next i = elim i [
        | none ↦ (s, none)
        | some index ↦ (record s { events = remove_at index s.events }, element_at index s.events)
      ]

      go : (i : Option ℕ) → P (ds ++ taken (next i).1) (next i).0
      go none = nothing ds s g
      go (some index) = delivered ds index s g

  pub Reachable-Keeps : {ds : List Event} {s : Session} → Reachable start ds s → P ds s
  unfolding pop_event
  Reachable-Keeps begun = initial
  Reachable-Keeps {ds} (received header payload registry now r) =
      receive-Keeps (P ds) (v ds) (history ds) (absent ds) header payload registry now _
        (Reachable-Keeps r)
  Reachable-Keeps {ds} (opened registry owner r) =
      open_stream-Keeps (P ds) (v ds) (q ds) (history ds) (absent ds) registry owner _
        (Reachable-Keeps r)
  Reachable-Keeps {ds} (data_sent owner stream bytes r) =
      send-Keeps (P ds) (v ds) owner stream bytes _ (Reachable-Keeps r)
  Reachable-Keeps {ds} (ended owner stream r) =
      end-Keeps (P ds) (v ds) (q ds) owner stream _ (Reachable-Keeps r)
  Reachable-Keeps {ds} (cancelled owner stream reason r) =
      cancel-Keeps (P ds) (v ds) owner stream reason _ (Reachable-Keeps r)
  Reachable-Keeps {ds} (pinged horizon token timeout now r) =
      ping-Keeps (P ds) (v ds) horizon token timeout now _ (Reachable-Keeps r)
  Reachable-Keeps {ds} (ticked now r) = tick-Keeps (P ds) (v ds) now _ (Reachable-Keeps r)
  Reachable-Keeps {ds} (drained reason r) = drain-Keeps (P ds) (v ds) reason _ (Reachable-Keeps r)
  Reachable-Keeps {ds} (connection_closed cause response r) =
      close-Keeps (P ds) (v ds) cause response _ (Reachable-Keeps r)
  Reachable-Keeps {ds} (output_taken r) =
      next_output-Keeps (P ds) (v ds) (q ds) _ (Reachable-Keeps r)
  Reachable-Keeps {ds} (output_written kind id r) =
      sent-Keeps (P ds) (v ds) kind id _ (Reachable-Keeps r)
  Reachable-Keeps {ds} (budget_changed c r) = (q ds).accounted c _ (Reachable-Keeps r)
  Reachable-Keeps (event_popped {ds} {s} r) = delivered ds 0 s (Reachable-Keeps r)
  Reachable-Keeps (stream_event_popped owner {ds} {s} r) = popped owner ds s (Reachable-Keeps r)
