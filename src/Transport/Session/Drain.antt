-- ===== src/Transport/Session/Drain.antt =====
-- GOAWAY and draining: session/drain.rs.
pub mod Bounds
pub mod Table
use talk_sphere.Base.{
  ℕ, Bool, true, false, not, ◌&&◌, ◌||◌, List, [], ◌∷◌, Option, none, some, Result, ok, err, ltb,
  ◌==◌, if◌then◌else◌,
}
use talk_sphere.Base.NatMap.{keys}
use talk_sphere.Transport.Api.{FailureCode, FailureOrigin, StreamOutcome, ShutdownReason}
use talk_sphere.Transport.Codec.Frames.{FrameType}
use talk_sphere.Transport.Codec.Control.{
  ErrorCode, GoAway, is_code, go_away, go_away_encode, go_away_decode,
}
use talk_sphere.Transport.Stream.Ids.{StreamIds, is_local}
use talk_sphere.Transport.Session.State.{
  Session, SessionError, M, ◌>>=◌, ◌>>◌, lift, get, update, require, closed, protocol_error,
}
use talk_sphere.Transport.Session.Output.{frame, queue}
use talk_sphere.Transport.Session.Lifecycle.{failure, failure_code, terminate}

abbrev pub drain_code : ShutdownReason → ErrorCode
drain_code ShutdownReason.normal = ErrorCode.no_error
drain_code ShutdownReason.id_exhausted = ErrorCode.id_exhausted
drain_code ShutdownReason.resource_limit = ErrorCode.resource_limit
drain_code ShutdownReason.internal_error = ErrorCode.internal_error

abbrev pub go_away_bytes : ℕ → ErrorCode → Result (List ℕ) SessionError
go_away_bytes last code = elim (go_away last code []) [
  | ok payload ↦ ok (go_away_encode payload)
  | err e ↦ err protocol_error
]

-- The part of `drain` that queues the first GOAWAY.
unfoldable pub announce : ShutdownReason → M (Unit {0})
announce reason = do
  s ← get
  payload ← lift (go_away_bytes s.accepted_remote (drain_code reason))
  output ← lift (frame FrameType.go_away 0 payload)
  queue output
  update λ t. record t { goaway_sent = true }

unfoldable pub drain : ShutdownReason → M (Unit {0})
drain reason s =
    if s.is_closed then (s, err closed) else if s.goaway_sent then (s, ok tt) else announce reason s

abbrev pub no_streams : {A : Type 0} → List A → Bool
no_streams [] = true
no_streams (x ∷ xs) = false

unfoldable pub ready_to_close : Session → Bool
ready_to_close s =
    not s.is_closed && (s.goaway_written && (no_streams s.streams && no_streams s.outbound))

abbrev pub exceeds : Option ℕ → ℕ → Bool
exceeds none last = false
exceeds (some previous) last = ltb previous last

-- The three rejections of an announced bound.
abbrev pub bad_bound : Session → ℕ → Bool
bad_bound s last =
    (not (last == 0) && not (is_local s.ids last))
    || (ltb s.ids.greatest_local last || exceeds s.peer_goaway last)

unfoldable pub refused_keys : StreamIds → ℕ → List ℕ → List ℕ
refused_keys ids last [] = []
refused_keys ids last (id ∷ rest) =
    let others = refused_keys ids last rest in
    if is_local ids id && ltb last id then id ∷ others else others

unfoldable pub terminate_all : List ℕ → StreamOutcome → Session → Session
terminate_all [] outcome s = s
terminate_all (id ∷ rest) outcome s = terminate_all rest outcome (terminate id outcome s)

-- The bound, the cause and the refused streams, once the bound is accepted.
unfoldable pub apply_goaway : GoAway → Session → Session
apply_goaway g s =
    let last = g.last_accepted_remote_stream_id in
    let code = g.diagnostic.code in
    let bounded : Session = record s { peer_goaway = some last } in
    let caused : Session =
      if not (is_code code ErrorCode.no_error)
      then record bounded { drain_failure = some (failure FailureOrigin.peer (failure_code code)) }
      else bounded in
    terminate_all (refused_keys s.ids last (keys s.streams))
      (StreamOutcome.failed (failure FailureOrigin.peer FailureCode.refused)) caused

abbrev pub go_away_of : List ℕ → Result GoAway SessionError
go_away_of payload = elim (go_away_decode payload) [ ok g ↦ ok g | err e ↦ err protocol_error ]

unfoldable pub receive_goaway : List ℕ → M (Unit {0})
receive_goaway payload = do
  g ← lift (go_away_of payload)
  s ← get
  require (not (bad_bound s g.last_accepted_remote_stream_id)) protocol_error
  update (apply_goaway g)
  drain ShutdownReason.normal
