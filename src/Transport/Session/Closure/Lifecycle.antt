-- ===== src/Transport/Session/Closure/Lifecycle.antt =====
-- Invariants through the operations that end streams and connections, and through draining.
use talk_sphere.Base.{
  ℕ, ◌≡◌, refl, Bool, true, false, List, [], ◌∷◌, Option, none, some, Bool-cases, inl, inr, Result,
  ok, err, Result-cases, not, if◌then◌else◌,
}
use talk_sphere.Base.NatMap.{lookup}
use talk_sphere.Transport.Api.{
  Failure, FailureCode, FailureOrigin, StreamOutcome, StreamHandle, StreamOwner, CancellationReason,
  ShutdownReason,
}
use talk_sphere.Transport.Codec.Frames.{FrameType}
use talk_sphere.Transport.Codec.Control.{ErrorCode, GoAway, is_code}
use talk_sphere.Transport.Framing.{WireFrame}
use talk_sphere.Transport.Session.State.{Session, SessionError}
use talk_sphere.Transport.Session.Output.{frame, queue}
use talk_sphere.Transport.Session.Lifecycle.{
  complete, is_complete, close, respond, refuse, fail_stream, error_bytes, sent, sent_end,
  queue_or_close, close_if_full, cancel, failure, failure_code,
}
use talk_sphere.Transport.Session.Drain.{
  announce, drain, apply_goaway, terminate_all, receive_goaway,
}
use talk_sphere.Transport.Session.Invariant.{IsInvariant, Keeps, >>=-Keeps, require-Keeps}

module _ {ℓ} (P : Session → Type ℓ) (v : IsInvariant P) where
  pub complete-Keeps : (k : ℕ) (s : Session) → P s → P (complete k s)
  unfolding complete
  complete-Keeps k s g = elim (Bool-cases (is_complete (lookup k s.streams))) [
    | inl e ↦ rw (e, complete) (v.stream_closed k StreamOutcome.completed s g)
    | inr e ↦ rw (e, complete) g
  ]

  pub respond-Keeps : (response : Option ErrorCode) (s : Session) → P s → P (respond response s)
  unfolding respond
  respond-Keeps none s g = g
  respond-Keeps (some code) s g = elim (Result-cases (error_bytes code)) [
    | inr (e, p) ↦ rw (p, respond) g
    | inl (payload, p) ↦ elim (Result-cases (frame FrameType.error 0 payload)) [
      | inr (e, q) ↦ rw (p, respond) (rw q g)
      | inl (output, q) ↦ rw (p, respond) (rw q (v.queued output s g))
    ]
  ]

  pub close-Keeps :
      (cause : Option Failure) (response : Option ErrorCode) (s : Session)
      → P s
      → P (close cause response s)
  unfolding close
  close-Keeps cause response s g = go s.is_closed refl
    where
      go : (c : Bool) → s.is_closed ≡ c → P (close cause response s)
      go true e = simp (e, close) g
      go false e = simp (e, close) (respond-Keeps response _ (v.connection_closed cause s g))

  pub refuse-Keeps : (k : ℕ) (code : ErrorCode) → Keeps P (refuse k code)
  unfolding refuse
  refuse-Keeps k code =
      >>=-Keeps P _ _ (λ s g. g) λ payload. >>=-Keeps P _ _ (λ s g. g) λ output. v.queued output

  pub fail_stream-Keeps :
      (k : ℕ) (wire : ErrorCode) (code : FailureCode) → Keeps P (fail_stream k wire code)
  unfolding fail_stream
  fail_stream-Keeps k wire code = >>=-Keeps P _ _ (λ s. v.terminated k _ s) λ _. refuse-Keeps k wire

  queue_or_close-Keeps : (f : WireFrame) → Keeps P (queue_or_close f)
  unfolding queue_or_close
  queue_or_close-Keeps f s g = go (queue f s) (v.queued f s g)
    where
      go : (r : Session × Result (Unit {0}) SessionError) → P r.0 → P (close_if_full r).0
      go (t, ok u) h = h
      go (t, err e) h = close-Keeps _ none t h

  pub cancel-Keeps :
      (owner : StreamOwner) (stream : StreamHandle) (reason : CancellationReason)
      → Keeps P (cancel owner stream reason)
  unfolding cancel
  cancel-Keeps owner stream reason =
      >>=-Keeps P _ _ (λ s g. g)
        λ s0. >>=-Keeps P _ _ (require-Keeps P _ _) λ _.
          >>=-Keeps P _ _ (λ s g. g)
            λ _. >>=-Keeps P _ _ (require-Keeps P _ _) λ _.
              >>=-Keeps P _ _ (λ s. v.terminated stream.wire_id _ s)
                λ _.
                  >>=-Keeps P _ _ (λ s g. g)
                    λ payload. >>=-Keeps P _ _ (λ s g. g) λ output. queue_or_close-Keeps output

  sent_end-Keeps : (k : ℕ) (s : Session) → P s → P (sent_end k s)
  unfolding sent_end
  sent_end-Keeps k s g = complete-Keeps k _ (v.flagged k _ s (λ state. refl) g)

  pub sent-Keeps : (kind : FrameType) (k : ℕ) (s : Session) → P s → P (sent kind k s)
  unfolding sent
  sent-Keeps FrameType.end k s g = sent_end-Keeps k s g
  sent-Keeps FrameType.go_away k s g = v.written s g
  sent-Keeps kind k s g = g

  announce-Keeps : (reason : ShutdownReason) → Keeps P (announce reason)
  unfolding announce
  announce-Keeps reason =
      >>=-Keeps P _ _ (λ s g. g)
        λ s0.
          >>=-Keeps P _ _ (λ s g. g)
            λ payload.
              >>=-Keeps P _ _ (λ s g. g)
                λ output. >>=-Keeps P _ _ (v.queued output) λ _. v.announced

  pub drain-Keeps : (reason : ShutdownReason) → Keeps P (drain reason)
  unfolding drain
  drain-Keeps reason s g = go s.is_closed refl s.goaway_sent refl
    where
      go : (c : Bool) → s.is_closed ≡ c → (d : Bool) → s.goaway_sent ≡ d → P (drain reason s).0
      go true e d f = simp (e, drain) g
      go false e true f = simp (e, f, drain) g
      go false e false f = simp (e, f, drain) (announce-Keeps reason s g)

  terminate_all-Keeps :
      (ks : List ℕ) (outcome : StreamOutcome) (s : Session) → P s → P (terminate_all ks outcome s)
  unfolding terminate_all
  terminate_all-Keeps [] outcome s g = g
  terminate_all-Keeps (k ∷ ks) outcome s g =
      terminate_all-Keeps ks outcome _ (v.terminated k outcome s g)

  apply_goaway-Keeps : (goaway : GoAway) (s : Session) → P s → P (apply_goaway goaway s)
  unfolding apply_goaway
  apply_goaway-Keeps goaway s g =
      terminate_all-Keeps _ _ _ (go (not (is_code goaway.diagnostic.code ErrorCode.no_error)))
    where
      bounded : Session
      bounded = record s { peer_goaway = some goaway.last_accepted_remote_stream_id }

      go :
          (b : Bool)
          → P (
              if b
              then record bounded {
                drain_failure =
                    some (failure FailureOrigin.peer (failure_code goaway.diagnostic.code));
              }
              else bounded)
      go true = v.caused _ _ (v.bounded _ s g)
      go false = v.bounded _ s g

  pub receive_goaway-Keeps : (payload : List ℕ) → Keeps P (receive_goaway payload)
  unfolding receive_goaway
  receive_goaway-Keeps payload =
      >>=-Keeps P _ _ (λ s g. g)
        λ goaway.
          >>=-Keeps P _ _ (λ s g. g)
            λ s0. >>=-Keeps P _ _ (require-Keeps P _ _) λ _.
              >>=-Keeps P _ _ (apply_goaway-Keeps goaway) λ _. drain-Keeps ShutdownReason.normal
