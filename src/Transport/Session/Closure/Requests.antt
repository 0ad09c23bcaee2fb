-- ===== src/Transport/Session/Closure/Requests.antt =====
-- Invariants through the local requests: open, send, end and ping, and through output.
use talk_sphere.Base.{
  ℕ, ◌+◌, ◌<◌, ◌≡◌, refl, false, List, Option, none, some, Option-cases, inl, inr, arith, Result,
  ok, err, length,
}
use talk_sphere.Base.NatMap.{contains}
use talk_sphere.Transport.Api.{StreamOwner, Protocol, StreamHandle}
use talk_sphere.Transport.Resources.{reserve, release}
use talk_sphere.Transport.Stream.Ids.{IdError, allocate, was_created}
use talk_sphere.Transport.Stream.Ids.History.{IsHistory, allocate_creates}
use talk_sphere.Transport.Stream.Registry.{Registry}
use talk_sphere.Transport.Codec.Frames.{FrameType}
use talk_sphere.Transport.Resources.{Counter}
use talk_sphere.Transport.Session.State.{
  Session, SessionError, M, ◌>>=◌, ◌>>◌, continue, lift, update, pure, throw,
}
use talk_sphere.Transport.Session.Output.{frame, reserve_outbound, push_reserved, set_outbound_used}
use talk_sphere.Transport.Session.Lifecycle.{end}
use talk_sphere.Transport.Session.Drain.{drain}
use talk_sphere.Transport.Api.{ShutdownReason}
use talk_sphere.Transport.Session.Ping.{ping}
use talk_sphere.Transport.Session.Requests.{
  add, allocate_id, allocated, open_reserved, open_stream, release_on_error, send,
}
use talk_sphere.Transport.Session.Scheduler.{choose, next_output}
use talk_sphere.Transport.Session.Invariant.{
  IsInvariant, IsQueueBlind, Keeps, >>=-Keeps, >>=-at, require-Keeps, require-at, lift-at, get-at,
}
use talk_sphere.Transport.Session.Closure.Lifecycle.{drain-Keeps}
use talk_sphere.Transport.Session.Closure.Admission.{add-Keeps}

module _ {ℓ} (P : Session → Type ℓ) (v : IsInvariant P) where
  pub send-Keeps :
      (owner : StreamOwner) (stream : StreamHandle) (bytes : List ℕ)
      → Keeps P (send owner stream bytes)
  unfolding send
  send-Keeps owner stream bytes =
      >>=-Keeps P _ _ (λ s g. g)
        λ s0. >>=-Keeps P _ _ (require-Keeps P _ _) λ _.
          >>=-Keeps P _ _ (λ s g. g)
            λ _. >>=-Keeps P _ _ (require-Keeps P _ _) λ _.
              >>=-Keeps P _ _ (require-Keeps P _ _)
                λ _. >>=-Keeps P _ _ (λ s g. g) λ output. v.queued output

  pub ping-Keeps :
      (horizon : ℕ) (token : List ℕ) (timeout now : ℕ) → Keeps P (ping horizon token timeout now)
  unfolding ping
  ping-Keeps horizon token timeout now =
      >>=-Keeps P _ _ (λ s g. g)
        λ s0. >>=-Keeps P _ _ (require-Keeps P _ _) λ _. >>=-Keeps P _ _ (require-Keeps P _ _) λ _.
          >>=-Keeps P _ _ (require-Keeps P _ _) λ _. >>=-Keeps P _ _ (require-Keeps P _ _) λ _.
            >>=-Keeps P _ _ (λ s g. g)
              λ output. >>=-Keeps P _ _ (v.queued output) λ _ s g. v.probed _ s g

  module _ (q : IsQueueBlind P) where
    reserve_outbound-Keeps : (amount : ℕ) → Keeps P (reserve_outbound amount)
    unfolding reserve_outbound
    reserve_outbound-Keeps amount s g = elim (Option-cases (reserve s.resources.outbound amount)) [
      | inl e ↦ rw (e, reserve_outbound) g
      | inr (c, e) ↦ rw (e, reserve_outbound) (q.accounted c s g)
    ]

    pub end-Keeps : (owner : StreamOwner) (stream : StreamHandle) → Keeps P (end owner stream)
    unfolding end
    end-Keeps owner stream =
        >>=-Keeps P _ _ (λ s g. g)
          λ s0. >>=-Keeps P _ _ (require-Keeps P _ _) λ _.
            >>=-Keeps P _ _ (λ s g. g)
              λ _. >>=-Keeps P _ _ (require-Keeps P _ _) λ _.
                >>=-Keeps P _ _ (λ s g. g)
                  λ output.
                    >>=-Keeps P _ _ (reserve_outbound-Keeps 28)
                      λ _ s g. q.enqueued _ _ (v.flagged stream.wire_id _ s (λ state. refl) g)

    pub next_output-Keeps : (s : Session) → P s → P (next_output s).0
    unfolding next_output
    next_output-Keeps s g = elim (Option-cases (choose s.last_output s.outbound)) [
      | inl e ↦ rw (e, next_output) g
      | inr ((id, index), e) ↦ rw (e, next_output) (q.enqueued _ _ (q.scheduled (some id) s g))
    ]

    release_on_error-Keeps :
        {A : Type 0} (amount : ℕ) (r : Session × Result A SessionError)
        → P r.0
        → P (release_on_error amount r).0
    release_on_error-Keeps amount (s, ok x) g = g
    release_on_error-Keeps amount (s, err e) g =
        q.accounted (release s.resources.outbound amount) s g

    module _ (history : (s : Session) → P s → IsHistory s.ids)
        (absent : (k : ℕ) (s : Session)
          → P s
          → was_created s.ids k ≡ false
          → contains k s.streams ≡ false) where
      -- What follows the allocation of a number.
      abbrev opened : StreamOwner → Protocol → List ℕ → ℕ → M StreamHandle
      opened owner p payload id = do
        handle ← add id owner p
        output ← lift (frame FrameType.open_frame id payload)
        update (push_reserved output (length payload + 28))
        pure handle

      opened-at :
          (owner : StreamOwner) (p : Protocol) (payload : List ℕ) (id : ℕ) (s : Session)
          → P (add id owner p s).0
          → P (opened owner p payload id s).0
      opened-at owner p payload id s h = >>=-at P _ _ s h λ handle.
          >>=-Keeps P _ _ (λ t k. k) λ output. >>=-Keeps P _ _ (λ t k. q.enqueued _ t k) λ _ t k. k

      open_reserved-Keeps :
          (owner : StreamOwner) (p : Protocol) (payload : List ℕ) (s : Session)
          → s.is_closed ≡ false
          → length s.streams < s.resources.limits.streams_per_connection
          → P s
          → P (open_reserved owner p payload s).0
      unfolding open_reserved allocate_id ◌>>=◌
      open_reserved-Keeps owner p payload s alive room g = go (allocate s.ids).1 refl
        where
          next : Session
          next = record s { ids = (allocate s.ids).0 }

          go :
              (r : Result ℕ IdError)
              → (allocate s.ids).1 ≡ r
              → P (continue (allocated r next) (opened owner p payload)).0
          go (ok id) e =
              let (fits, local, new, created) = allocate_creates s.ids id id (history s g) e in
              opened-at owner p payload id next (
                add-Keeps P v history absent id owner p next alive (ground (arith, created))
                  (absent id s g new) room (v.numbered_local s g))
          go (err x) e =
              failed (drain ShutdownReason.id_exhausted next)
                (drain-Keeps P v _ next (v.numbered_local s g))
            where
              failed :
                  (r : Session × Result (Unit {0}) SessionError)
                  → P r.0
                  → P
                      (continue {A = ℕ}
                        (continue r (λ _. throw (SessionError.id_error x)))
                        (opened owner p payload)).0
              failed (t, ok u) k = k
              failed (t, err y) k = k

      reserved_open-Keeps :
          (owner : StreamOwner) (p : Protocol) (payload : List ℕ) (s : Session)
          → s.is_closed ≡ false
          → length s.streams < s.resources.limits.streams_per_connection
          → P s
          → P
              ((reserve_outbound (length payload + 28) >>= λ _ t.
                  release_on_error (length payload + 28) (open_reserved owner p payload t))
                s).0
      unfolding reserve_outbound ◌>>=◌
      reserved_open-Keeps owner p payload s alive room g =
          go (reserve s.resources.outbound (length payload + 28))
        where
          go :
              (r : Option Counter)
              → P
                  (continue {A = Unit {0}}
                    (elim r [
                      | none ↦ (s, err SessionError.capacity)
                      | some c ↦ (set_outbound_used s c, ok tt)
                    ])
                    (λ _ t.
                      release_on_error (length payload + 28) (open_reserved owner p payload t))).0
          go none = g
          go (some c) = release_on_error-Keeps (length payload + 28) _ (
              open_reserved-Keeps owner p payload (set_outbound_used s c) alive room
                (q.accounted c s g))

      pub open_stream-Keeps :
          (registry : Registry) (owner : StreamOwner) → Keeps P (open_stream registry owner)
      unfolding open_stream
      open_stream-Keeps registry owner s g = get-at P _ s (
          require-at P _ _ _ s g λ alive. require-at P _ _ _ s g λ _. lift-at P _ _ s g λ p.
            lift-at P _ _ s g λ payload. require-at P _ _ _ s g λ room.
              reserved_open-Keeps owner p payload s (ground (arith, alive)) (ground (arith, room))
                g)
