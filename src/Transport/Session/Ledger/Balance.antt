-- ===== src/Transport/Session/Ledger/Balance.antt =====
-- The ledger through every operation of a session.
use talk_sphere.Base.{ℕ, ◌+◌, ◌≤◌, List, ◌≡◌, refl, [], ◌∷◌, some, length, arith}
use talk_sphere.Base.NatMap.{lookup}
use talk_sphere.Base.NatMap.Laws.{Entries-lookup}
use talk_sphere.Transport.Api.{Event}
use talk_sphere.Transport.Session.State.{Session, StreamState, push_event}
use talk_sphere.Transport.Session.Invariant.{IsInvariant, IsPlain}
use talk_sphere.Transport.Session.Ledger.{opens, closes, IsEntry, IsBalanced}
use talk_sphere.Transport.Session.Receive.{buffered}
use talk_sphere.Transport.Session.Ledger.Primitives.{
  queue-IsBalanced, push_event-IsBalanced, close_stream-IsBalanced, terminate-IsBalanced,
  modify-IsBalanced, close_work-IsBalanced,
}
use talk_sphere.Transport.Session.Ledger.Growth.{
  accept-IsBalanced, allocate-IsBalanced, install-IsBalanced,
}

plain_counts :
    (id : ℕ) (e : Event)
    → IsPlain e
    → (opens id (e ∷ []) ≡ 0) × (closes id (e ∷ []) ≡ 0) × (buffered id (e ∷ []) ≡ 0)
unfolding opens closes buffered
plain_counts id (Event.stream_opened c s p) i = elim i [ ]
plain_counts id (Event.stream_closed s o) i = elim i [ ]
plain_counts id (Event.received s b) i = elim i [ ]
plain_counts id e p = (refl, refl, refl)

-- The bytes are counted for the stream that they come to.
delivered-IsBalanced :
    (id a b k : ℕ) (state : StreamState) (bytes : List ℕ) (s : Session)
    → lookup k s.streams ≡ some state
    → buffered k s.events + length bytes ≤ s.resources.limits.buffered_bytes_per_stream
    → IsBalanced id a b s
    → IsBalanced id a b (push_event (Event.received state.handle bytes) s)
unfolding opens closes buffered
delivered-IsBalanced id a b k state bytes s h fits g =
    push_event-IsBalanced id a b (Event.received state.handle bytes) s refl refl
      (ground (
        arith,
        g.bounded,
        fits,
        (Entries-lookup (IsEntry s.handle s.ids) k s.streams state g.entries h).wire_id,
      ))
      g

pub IsBalanced-IsInvariant : (id a b : ℕ) → IsInvariant (IsBalanced id a b)
unfolding opens closes
IsBalanced-IsInvariant id a b = record {
  queued = queue-IsBalanced id a b;
  terminated = terminate-IsBalanced id a b;
  stream_closed = close_stream-IsBalanced id a b;
  connection_closed = close_work-IsBalanced id a b;
  flagged = modify-IsBalanced id a b;
  reported = λ e s p g.
      let (o, c, r) = plain_counts id e p in
      push_event-IsBalanced id a b e s o c (omega (arith, r, g.bounded)) g;
  delivered = delivered-IsBalanced id a b;
  numbered_remote = accept-IsBalanced id a b;
  numbered_local = allocate-IsBalanced id a b;
  installed = install-IsBalanced id a b;
  probed = λ ps s g. g;
  timed = λ now s g. g;
  bounded = λ last s g. g;
  caused = λ cause s g. g;
  announced = λ s g. g;
  written = λ s g. g;
  accepted = λ k s g. g;
}
