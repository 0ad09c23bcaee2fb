-- ===== src/Transport/Session/Closure/Admission.antt =====
-- Invariants through the admission of a remote stream and the dispatch of received frames.
use talk_sphere.Base.{
  ℕ, ◌<◌, ◌≡◌, refl, ◌∙◌, Bool, true, false, not, ◌&&◌, ◌||◌, List, [], ◌∷◌, none, some, is_some,
  Option-cases, inl, inr, arith, Result, ok, err, leb, ◌==◌, length, if◌then◌else◌,
}
use talk_sphere.Base.NatMap.{contains}
use talk_sphere.Transport.Api.{FailureCode, FailureOrigin, StreamOwner, Protocol}
use talk_sphere.Transport.Codec.Frames.{FrameType, FrameHeader, is_type}
use talk_sphere.Transport.Codec.Control.{ErrorCode}
use talk_sphere.Transport.Codec.Opening.{Open, OpenError, open_decode}
use talk_sphere.Transport.Stream.Ids.{IdError, accept, was_created, is_local}
use talk_sphere.Transport.Stream.Ids.History.{IsHistory, accept_creates}
use talk_sphere.Transport.Stream.Registry.{Registry, resolve}
use talk_sphere.Transport.Session.Drain.{receive_goaway}
use talk_sphere.Transport.Session.State.{
  Session, SessionError, ◌>>=◌, continue, require, event_limit, throw,
}
use talk_sphere.Transport.Session.Lifecycle.{refuse, close, failure}
use talk_sphere.Transport.Session.Ping.{expire, tick, expired_tokens, receive_ping}
use talk_sphere.Transport.Session.Requests.{add, install}
use talk_sphere.Transport.Session.Receive.{
  receive_error, receive_terminal, receive_end, receive_data, resolve_open, admit_open,
  receive_open, accepted, dispatch, receive_stream, receive_parts, close_on_error, receive_bounded,
  receive,
}
use talk_sphere.Transport.Session.Invariant.{IsInvariant, Keeps, >>=-at}
use talk_sphere.Transport.Session.Closure.Lifecycle.{
  close-Keeps, refuse-Keeps, receive_goaway-Keeps,
}
use talk_sphere.Transport.Session.Closure.Dispatch.{
  tick-Keeps, receive_ping-Keeps, receive_error-Keeps, receive_terminal-Keeps, receive_end-Keeps,
  receive_data-Keeps,
}

-- What the admission of a stream needs of the invariant: the numbers are a history, and only created
-- numbers are in the table.
expire-is_closed :
    (tokens : List (List ℕ)) (s : Session) → (expire tokens s).is_closed ≡ s.is_closed
unfolding expire
expire-is_closed [] s = refl
expire-is_closed (token ∷ rest) s = expire-is_closed rest _

tick-is_closed : (now : ℕ) (s : Session) → (tick now s).is_closed ≡ s.is_closed
unfolding tick
tick-is_closed now s = expire-is_closed (expired_tokens now s.pings) _

module _ {ℓ} (P : Session → Type ℓ) (v : IsInvariant P)
    (history : (s : Session) → P s → IsHistory s.ids)
    (absent : (k : ℕ) (s : Session)
      → P s
      → was_created s.ids k ≡ false
      → contains k s.streams ≡ false) where
  pub add-Keeps :
      (k : ℕ) (owner : StreamOwner) (p : Protocol) (s : Session)
      → s.is_closed ≡ false
      → was_created s.ids k ≡ true
      → contains k s.streams ≡ false
      → length s.streams < s.resources.limits.streams_per_connection
      → P s
      → P (add k owner p s).0
  unfolding add ◌>>=◌
  add-Keeps k owner p s alive created fresh room g = go (not (is_local s.ids k)) (not (k == 0))
    where
      go :
          (b c : Bool)
          → P
              (continue
                (continue
                  ((if b then record s { accepted_remote = k } else s), ok tt)
                  (λ _. require c SessionError.protocol_error))
                (λ _. install k owner p)).0
      go true true = v.installed k owner p _ alive created fresh room (v.accepted k s g)
      go true false = v.accepted k s g
      go false true = v.installed k owner p s alive created fresh room g
      go false false = g

  resolve_open-Keeps :
      (registry : Registry) (k : ℕ) (selection : Open) (s : Session)
      → s.is_closed ≡ false
      → was_created s.ids k ≡ true
      → contains k s.streams ≡ false
      → length s.streams < s.resources.limits.streams_per_connection
      → P s
      → P (resolve_open registry k selection s).0
  unfolding resolve_open
  resolve_open-Keeps registry k selection s alive created fresh room g =
      elim (Option-cases (resolve registry selection)) [
        | inl e ↦ rw (e, resolve_open) (refuse-Keeps P v k _ s g)
        | inr (owner, e) ↦
            rw (e, resolve_open)
              (>>=-at P _ _ s (add-Keeps k owner _ s alive created fresh room g) λ h t q. q)
      ]

  admit_open-Keeps :
      (k : ℕ) (payload : List ℕ) (registry : Registry) (s : Session)
      → s.is_closed ≡ false
      → was_created s.ids k ≡ true
      → contains k s.streams ≡ false
      → P s
      → P (admit_open k payload registry s).0
  unfolding admit_open
  admit_open-Keeps k payload registry s alive created fresh g =
      go (s.goaway_sent || is_some s.peer_goaway)
        (leb s.resources.limits.streams_per_connection (length s.streams)) refl
        (open_decode payload)
    where
      go :
          (b c : Bool)
          → leb s.resources.limits.streams_per_connection (length s.streams) ≡ c
          → (r : Result Open OpenError)
          → P
              (if b
                then refuse k ErrorCode.refused_stream s
                else if c
                then refuse k ErrorCode.resource_limit s
                else elim r [
                  | err e ↦ refuse k ErrorCode.protocol_error s
                  | ok selection ↦ resolve_open registry k selection s
                ]).0
      go true c h r = refuse-Keeps P v k _ s g
      go false true h r = refuse-Keeps P v k _ s g
      go false false h (err e) = refuse-Keeps P v k _ s g
      go false false h (ok selection) =
          resolve_open-Keeps registry k selection s alive created fresh (ground (arith, h)) g

  pub receive_open-Keeps :
      (k : ℕ) (payload : List ℕ) (registry : Registry) (s : Session)
      → s.is_closed ≡ false
      → P s
      → P (receive_open k payload registry s).0
  unfolding receive_open ◌>>=◌
  receive_open-Keeps k payload registry s alive g = go (accept s.ids k).1 refl
    where
      next : Session
      next = record s { ids = (accept s.ids k).0 }

      go :
          (r : Result (Unit {0}) IdError)
          → (accept s.ids k).1 ≡ r
          → P (continue (accepted r next) (λ _. admit_open k payload registry)).0
      go (ok u) e =
          let (fits, pos, remote, new, below, created) = accept_creates s.ids k k (history s g) e in
          admit_open-Keeps k payload registry next alive (ground (arith, created))
            (absent k s g new) (v.numbered_remote k s g)
      go (err x) e = v.numbered_remote k s g

  dispatch-Keeps :
      (kind : FrameType) (k : ℕ) (payload : List ℕ) (registry : Registry) (s : Session)
      → s.is_closed ≡ false
      → P s
      → P (dispatch kind k payload registry s).0
  unfolding dispatch
  dispatch-Keeps kind k payload registry s alive g =
      go ((is_type kind FrameType.cancel || is_type kind FrameType.error) && not (k == 0))
        (is_type kind FrameType.end) (is_type kind FrameType.data_frame)
        (not (is_type kind FrameType.open_frame))
    where
      go :
          (a b c d : Bool)
          → P
              ((if a
                  then receive_terminal kind k payload
                  else if b
                  then receive_end k payload
                  else if c
                  then receive_data k payload
                  else if d
                  then throw SessionError.protocol_error
                  else receive_open k payload registry)
                s).0
      go true b c d = receive_terminal-Keeps P v kind k payload s g
      go false true c d = receive_end-Keeps P v k payload s g
      go false false true d = receive_data-Keeps P v k payload s g
      go false false false true = g
      go false false false false = receive_open-Keeps k payload registry s alive g

  receive_stream-Keeps :
      (kind : FrameType) (k : ℕ) (payload : List ℕ) (registry : Registry) (s : Session)
      → s.is_closed ≡ false
      → P s
      → P (receive_stream kind k payload registry s).0
  unfolding receive_stream
  receive_stream-Keeps kind k payload registry s alive g =
      let scoped : Bool = not (is_type kind FrameType.open_frame) && not (k == 0) in
      go (scoped && not (was_created s.ids k)) (scoped && not (contains k s.streams))
    where
      go :
          (a b : Bool)
          → P
              (if a
                then (s, err SessionError.protocol_error)
                else if b
                then (s, ok tt)
                else dispatch kind k payload registry s).0
      go true b = g
      go false true = g
      go false false = dispatch-Keeps kind k payload registry s alive g

  pub receive_parts-Keeps :
      (kind : FrameType) (k : ℕ) (payload : List ℕ) (registry : Registry) (s : Session)
      → s.is_closed ≡ false
      → P s
      → P (receive_parts kind k payload registry s).0
  unfolding receive_parts
  receive_parts-Keeps kind k payload registry s alive g =
      go (is_type kind FrameType.go_away && k == 0)
        ((is_type kind FrameType.ping || is_type kind FrameType.pong) && k == 0)
        (is_type kind FrameType.error && k == 0)
    where
      go :
          (a b c : Bool)
          → P
              ((if a
                  then receive_goaway payload
                  else if b
                  then receive_ping kind payload
                  else if c
                  then receive_error payload
                  else receive_stream kind k payload registry)
                s).0
      go true b c = receive_goaway-Keeps P v payload s g
      go false true c = receive_ping-Keeps P v kind payload s g
      go false false true = receive_error-Keeps P v payload s g
      go false false false = receive_stream-Keeps kind k payload registry s alive g

  close_on_error-Keeps :
      (r : Session × Result (Unit {0}) SessionError) → P r.0 → P (close_on_error r).0
  close_on_error-Keeps (s, ok u) g = g
  close_on_error-Keeps (s, err SessionError.capacity) g = close-Keeps P v _ _ s g
  close_on_error-Keeps (s, err e) g = close-Keeps P v _ _ s g

  receive_bounded-Keeps :
      (header : FrameHeader) (payload : List ℕ) (registry : Registry) (s : Session)
      → s.is_closed ≡ false
      → P s
      → P (receive_bounded header payload registry s).0
  unfolding receive_bounded
  receive_bounded-Keeps header payload registry s alive g =
      go (leb (event_limit s) (length s.events))
    where
      go :
          (b : Bool)
          → P
              (if b
                then (
                  close (some (failure FailureOrigin.local FailureCode.resource_limit)) none s,
                  err SessionError.capacity,
                )
                else close_on_error
                    (receive_parts header.frame_type header.stream_id payload registry s)).0
      go true = close-Keeps P v _ none s g
      go false =
          close_on_error-Keeps _
            (receive_parts-Keeps header.frame_type header.stream_id payload registry s alive g)

  -- The whole handler, from any state.
  pub receive-Keeps :
      (header : FrameHeader) (payload : List ℕ) (registry : Registry) (now : ℕ)
      → Keeps P (receive header payload registry now)
  unfolding receive
  receive-Keeps header payload registry now s g = go s.is_closed refl
    where
      go : (c : Bool) → s.is_closed ≡ c → P (receive header payload registry now s).0
      go true e = simp (e, receive) g
      go false e =
          simp (e, receive)
            (receive_bounded-Keeps header payload registry (tick now s) (tick-is_closed now s ∙ e)
              (tick-Keeps P v now s g))
