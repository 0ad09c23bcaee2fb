-- ===== src/Transport/Session/Ownership.antt =====
-- The context of a session, through every operation of its driver, its consumer and the peer.
use talk_sphere.Base.{
  ℕ, ◌≡◌, ◌≢◌, refl, Bool, true, false, List, [], ◌∷◌, Option, none, some, Option-cases, inl, inr,
  arith, zero, suc,
}
use talk_sphere.Base.NatMap.{contains, insert, modify, lookup}
use talk_sphere.Transport.Api.{
  ConnectionId, ConnectionRole, IdentityId, PeerContext, StreamOutcome, Event,
}
use talk_sphere.Transport.Framing.{WireFrame}
use talk_sphere.Transport.Resources.{Resources, reserve, release}
use talk_sphere.Transport.Connection.{discard_output}
use talk_sphere.Transport.Stream.Ids.{was_created}
use talk_sphere.Transport.Stream.Ids.History.{
  IsHistory, accept-IsHistory, allocate-IsHistory, accept_keeps, allocate_keeps, new_ids-IsHistory,
}
use talk_sphere.Transport.Session.State.{Session, set_resources, with_handle}
use talk_sphere.Transport.Session.Output.{
  queue, reserve_outbound, reserved_by, clear_outbound, retain_outbound,
}
use talk_sphere.Transport.Session.Lifecycle.{close_stream, terminate, close_work, keeps_frame}
use talk_sphere.Transport.Session.Drain.Table.{absent-remove}
use talk_sphere.Transport.Session.Requests.{install}
use talk_sphere.Transport.Session.Scheduler.{next_output}
use talk_sphere.Transport.Session.Invariant.{IsInvariant, IsQueueBlind, Keeps, >>=-Keeps}
use talk_sphere.Transport.Session.Closure.{next_output-Keeps}
use talk_sphere.Transport.Session.Reachable.{Reachable, Reachable-Keeps}

module _ {V : Type 0} where
  absent-modify :
      (k j : ℕ) (f : V → V) (m : List (ℕ × V))
      → contains k m ≡ false
      → contains k (modify j f m) ≡ false
  unfolding contains modify
  absent-modify k j f [] h = refl
  absent-modify k j f ((i, v) ∷ m) h = ground (arith, h, absent-modify k j f m)

  absent-insert :
      (k j : ℕ) (v : V) (m : List (ℕ × V))
      → contains k m ≡ false
      → k ≢ j
      → contains k (insert j v m) ≡ false
  unfolding contains insert
  absent-insert k j v [] h n = ground (arith, n)
  absent-insert k j v ((i, w) ∷ m) h n = ground (arith, h, n, absent-insert k j v m)

-- The session belongs to the connection and the peer of the context.
abbrev pub IsOwned : PeerContext → Session → Type 0
IsOwned context s =
    (s.context ≡ context)
    × (s.handle ≡ context.connection)
    × IsHistory s.ids
    × ((k : ℕ) → was_created s.ids k ≡ false → contains k s.streams ≡ false)

module _ (context : PeerContext) where
  reserve_outbound-IsOwned : (amount : ℕ) → Keeps (IsOwned context) (reserve_outbound amount)
  unfolding reserve_outbound
  reserve_outbound-IsOwned amount s g = elim (Option-cases (reserve s.resources.outbound amount)) [
    | inl e ↦ rw (e, reserve_outbound) g
    | inr (c, e) ↦ rw (e, reserve_outbound) g
  ]

  queue-IsOwned : (f : WireFrame) → Keeps (IsOwned context) (queue f)
  unfolding queue
  queue-IsOwned f = >>=-Keeps (IsOwned context) _ _ (reserve_outbound-IsOwned _) (λ _ s g. g)

  close_stream-IsOwned :
      (k : ℕ) (outcome : StreamOutcome) (s : Session)
      → IsOwned context s
      → IsOwned context (close_stream k outcome s)
  unfolding close_stream
  close_stream-IsOwned k outcome s g = elim (Option-cases (lookup k s.streams)) [
    | inl e ↦ rw (e, close_stream) g
    | inr (state, e) ↦
        rw (e, close_stream) (g.0, g.1, g.2, λ j new. absent-remove j k s.streams (g.3 j new))
  ]

  terminate-IsOwned :
      (k : ℕ) (outcome : StreamOutcome) (s : Session)
      → IsOwned context s
      → IsOwned context (terminate k outcome s)
  unfolding terminate retain_outbound
  terminate-IsOwned k outcome s g =
      close_stream-IsOwned k outcome (retain_outbound (keeps_frame k) s) g

  still_new : (a b : Bool) → (a ≡ true → b ≡ true) → b ≡ false → a ≡ false
  still_new true b h e = ground (arith, h, e)
  still_new false b h e = refl

  IsOwned-IsInvariant : IsInvariant (IsOwned context)
  unfolding install close_work clear_outbound contains
  IsOwned-IsInvariant = record {
    queued = queue-IsOwned;
    terminated = terminate-IsOwned;
    stream_closed = close_stream-IsOwned;
    connection_closed = λ cause s g. (g.0, g.1, g.2, λ k new. refl);
    flagged = λ k f s same g. (g.0, g.1, g.2, λ j new. absent-modify j k f s.streams (g.3 j new));
    reported = λ e s plain g. g;
    delivered = λ k state bytes s here fits g. g;
    numbered_remote = λ k s g. (
      g.0,
      g.1,
      accept-IsHistory s.ids k g.2,
      λ j new. g.3 j (still_new _ _ (accept_keeps s.ids k j g.2) new),
    );
    numbered_local = λ s g. (
      g.0,
      g.1,
      allocate-IsHistory s.ids g.2,
      λ j new. g.3 j (still_new _ _ (allocate_keeps s.ids j g.2) new),
    );
    installed = λ k owner p s alive created absent room g. (
      g.0,
      g.1,
      g.2,
      λ j new. absent-insert j k _ s.streams (g.3 j new) (λ e. ground (arith, created, new, e)),
    );
    probed = λ ps s g. g;
    timed = λ now s g. g;
    bounded = λ last s g. g;
    caused = λ cause s g. g;
    announced = λ s g. g;
    written = λ s g. g;
    accepted = λ k s g. g;
  }

  pub IsOwned-IsQueueBlind : IsQueueBlind (IsOwned context)
  IsOwned-IsQueueBlind = record {
    accounted = λ c s g. g;
    enqueued = λ fs s g. g;
    scheduled = λ last s g. g;
  }

  pub Reachable-IsOwned :
      (s : Session) {ds : List Event} {t : Session}
      → IsOwned context s
      → Reachable s ds t
      → IsOwned context t
  Reachable-IsOwned s g =
      Reachable-Keeps (λ ds. IsOwned context) (λ ds. IsOwned-IsInvariant)
        (λ ds. IsOwned-IsQueueBlind) (λ ds t h. h.2) (λ ds k t h. h.3 k) (λ ds i t h. h)
        (λ ds t h. h) s g

  pub discard_output-IsOwned :
      (n : ℕ) (s : Session) → IsOwned context s → IsOwned context (discard_output n s)
  unfolding discard_output
  discard_output-IsOwned zero s g = g
  discard_output-IsOwned (suc n) s g =
      go (discard_output-IsOwned n) (next_output s).0 (next_output s).1
        (next_output-Keeps (IsOwned context) IsOwned-IsInvariant IsOwned-IsQueueBlind s g)
    where
      go :
          ((t : Session) → IsOwned context t → IsOwned context (discard_output n t))
          → (t : Session) (o : Option WireFrame) → IsOwned context t
          → IsOwned context (elim o [
            | none ↦ t
            | some f ↦ discard_output n (record t {
              resources = record t.resources {
                outbound = release t.resources.outbound (reserved_by f);
              };
            })
          ])
      go later t none h = h
      go later t (some f) h = later _ h

-- A session that has just been made belongs to the connection and the peer that it is made for.
pub with_handle-IsOwned :
    (handle : ConnectionId) (role : ConnectionRole) (ours theirs : IdentityId) (r : Resources)
    → IsOwned
        (record { connection = handle; role = role; local_identity = ours; peer_identity = theirs })
        (set_resources (with_handle handle role ours theirs) r)
unfolding set_resources with_handle contains
with_handle-IsOwned handle role ours theirs r = (refl, refl, new_ids-IsHistory role, λ k new. refl)
