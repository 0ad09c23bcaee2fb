-- ===== src/Transport/Session/Closure/Dispatch.antt =====
-- Invariants through the dispatch of received frames.
use talk_sphere.Base.{
  ℕ, ◌+◌, ◌≡◌, refl, Bool, true, false, not, ◌||◌, List, [], ◌∷◌, Option, none, some, Option-cases,
  inl, inr, arith, ok, ltb, ◌==◌, length, if◌then◌else◌,
}
use talk_sphere.Base.NatMap.{lookup}
use talk_sphere.Transport.Api.{Event, FailureCode}
use talk_sphere.Transport.Codec.Frames.{FrameType, is_type, max_payload_bytes}
use talk_sphere.Transport.Codec.Control.{ErrorCode}
use talk_sphere.Transport.Session.State.{Session, StreamState, M, push_event}
use talk_sphere.Transport.Session.Lifecycle.{fail_stream}
use talk_sphere.Transport.Session.Ping.{
  expire, tick, expired_tokens, echo, receive_ping, receive_pong, find_probe, remove_probe,
  finish_probe, elapsed_since,
}
use talk_sphere.Transport.Session.Receive.{
  receive_error, receive_terminal, end_remote, receive_end, receive_data, buffered,
}
use talk_sphere.Transport.Session.Invariant.{IsInvariant, Keeps, >>=-Keeps}
use talk_sphere.Transport.Session.Closure.Lifecycle.{complete-Keeps, close-Keeps, fail_stream-Keeps}

module _ {ℓ} (P : Session → Type ℓ) (v : IsInvariant P) where
  expire-Keeps : (tokens : List (List ℕ)) (s : Session) → P s → P (expire tokens s)
  unfolding expire
  expire-Keeps [] s g = g
  expire-Keeps (token ∷ rest) s g = expire-Keeps rest _ (v.reported _ _ tt (v.probed _ s g))

  pub tick-Keeps : (now : ℕ) (s : Session) → P s → P (tick now s)
  unfolding tick
  tick-Keeps now s g = expire-Keeps (expired_tokens now s.pings) _ (v.timed (some now) s g)

  finish_probe-Keeps : (token : List ℕ) (elapsed : Option ℕ) → Keeps P (finish_probe token elapsed)
  finish_probe-Keeps token none s g = g
  finish_probe-Keeps token (some d) s g = v.reported _ s tt g

  receive_pong-Keeps : (token : List ℕ) → Keeps P (receive_pong token)
  unfolding receive_pong
  receive_pong-Keeps token s g = elim (Option-cases (find_probe token s.pings)) [
    | inl e ↦ rw (e, receive_pong) g
    | inr (p, e) ↦
        rw (e, receive_pong)
          (finish_probe-Keeps token (elapsed_since s.now p.started) _
            (v.probed (remove_probe token s.pings) s g))
  ]

  echo-Keeps : (token : List ℕ) → Keeps P (echo token)
  unfolding echo
  echo-Keeps token = >>=-Keeps P _ _ (λ s g. g) λ output. v.queued output

  if-Keeps :
      {A : Type 0} (b : Bool) (m n : M A) → Keeps P m → Keeps P n → Keeps P (if b then m else n)
  if-Keeps true m n hm hn = hm
  if-Keeps false m n hm hn = hn

  pub receive_ping-Keeps :
      (kind : FrameType) (payload : List ℕ) → Keeps P (receive_ping kind payload)
  unfolding receive_ping
  receive_ping-Keeps kind payload =
      >>=-Keeps P _ _ (λ s g. g)
        λ token.
          if-Keeps (is_type kind FrameType.ping) (echo token) (receive_pong token)
            (echo-Keeps token) (receive_pong-Keeps token)

  pub receive_error-Keeps : (payload : List ℕ) → Keeps P (receive_error payload)
  unfolding receive_error
  receive_error-Keeps payload = >>=-Keeps P _ _ (λ s g. g) λ d s. close-Keeps P v _ none s

  pub receive_terminal-Keeps :
      (kind : FrameType) (k : ℕ) (payload : List ℕ) → Keeps P (receive_terminal kind k payload)
  unfolding receive_terminal
  receive_terminal-Keeps kind k payload = >>=-Keeps P _ _ (λ s g. g) λ d s. v.terminated k _ s

  end_remote-Keeps : (k : ℕ) (state : StreamState) (s : Session) → P s → P (end_remote k state s)
  unfolding end_remote
  end_remote-Keeps k state s g =
      complete-Keeps P v k _ (v.reported _ _ tt (v.flagged k _ s (λ st. refl) g))

  pub receive_end-Keeps : (k : ℕ) (payload : List ℕ) → Keeps P (receive_end k payload)
  unfolding receive_end
  receive_end-Keeps k payload s g = elim (Option-cases (lookup k s.streams)) [
    | inl e ↦ rw (e, receive_end) g
    | inr (state, e) ↦
        rw (e, receive_end) (go state (not (length payload == 0) || not state.remote_open))
  ]
    where
      go :
          (state : StreamState) (b : Bool)
          → P
              (if b
                then fail_stream k ErrorCode.stream_state_error FailureCode.stream_state s
                else (end_remote k state s, ok tt)).0
      go state true = fail_stream-Keeps P v k _ _ s g
      go state false = end_remote-Keeps k state s g

  pub receive_data-Keeps : (k : ℕ) (payload : List ℕ) → Keeps P (receive_data k payload)
  unfolding receive_data
  receive_data-Keeps k payload s g = elim (Option-cases (lookup k s.streams)) [
    | inl e ↦ rw (e, receive_data) g
    | inr (state, e) ↦
        rw (e, receive_data)
          (go state e
            (not state.remote_open
              || (length payload == 0 || ltb max_payload_bytes (length payload)))
            (ltb s.resources.limits.buffered_bytes_per_stream
              (buffered k s.events + length payload))
            refl)
  ]
    where
      go :
          (state : StreamState)
          → lookup k s.streams ≡ some state
          → (b c : Bool)
          → ltb s.resources.limits.buffered_bytes_per_stream (buffered k s.events + length payload)
            ≡ c
          → P
              (if b
                then fail_stream k ErrorCode.stream_state_error FailureCode.stream_state s
                else if c
                then fail_stream k ErrorCode.resource_limit FailureCode.resource_limit s
                else (push_event (Event.received state.handle payload) s, ok tt)).0
      go state e true c h = fail_stream-Keeps P v k _ _ s g
      go state e false true h = fail_stream-Keeps P v k _ _ s g
      go state e false false h = v.delivered k state payload s e (ground (arith, h)) g
