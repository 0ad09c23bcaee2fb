-- ===== src/Transport/Session/Ledger/Life.antt =====
-- The stream table against the events of a session's whole life.
use talk_sphere.Base.{
  ℕ, zero, suc, ◌+◌, ◌≤◌, ◌≡◌, refl, true, false, List, [], ◌∷◌, ◌++◌, some, length, arith,
}
use talk_sphere.Base.NatMap.{Entries, contains, lookup, occurs}
use talk_sphere.Base.NatMap.Laws.{occurs-le-one, Entries-lookup}
use talk_sphere.Transport.Api.{Event, ConnectionRole, ConnectionId, IdentityId}
use talk_sphere.Transport.Resources.{Resources}
use talk_sphere.Transport.Stream.Ids.{StreamIds, was_created}
use talk_sphere.Transport.Stream.Ids.History.{new_ids-IsHistory}
use talk_sphere.Transport.Session.State.{Session, StreamState, with_handle, set_resources}
use talk_sphere.Transport.Session.Receive.{buffered}
use talk_sphere.Transport.Session.Scheduler.{element_at, remove_at}
use talk_sphere.Transport.Session.Invariant.{IsQueueBlind}
use talk_sphere.Transport.Session.Reachable.{Reachable, Reachable-Keeps, taken}
use talk_sphere.Transport.Session.Ledger.{opens, closes, IsEntry, IsBalanced}
use talk_sphere.Transport.Session.Ledger.Events.{opens-append, closes-append}
use talk_sphere.Transport.Session.Ledger.Balance.{IsBalanced-IsInvariant}

opens-taken :
    (id i : ℕ) (es : List Event)
    → opens id (taken (element_at i es)) + opens id (remove_at i es) ≡ opens id es
unfolding opens element_at remove_at
opens-taken id i [] = refl
opens-taken id zero (e ∷ es) = omega (arith, opens-append id (e ∷ []) es)
opens-taken id (suc i) (Event.stream_opened c s p ∷ es) = omega (arith, opens-taken id i es)
opens-taken id (suc i) (e ∷ es) = opens-taken id i es

closes-taken :
    (id i : ℕ) (es : List Event)
    → closes id (taken (element_at i es)) + closes id (remove_at i es) ≡ closes id es
unfolding closes element_at remove_at
closes-taken id i [] = refl
closes-taken id zero (e ∷ es) = omega (arith, closes-append id (e ∷ []) es)
closes-taken id (suc i) (Event.stream_closed s o ∷ es) = omega (arith, closes-taken id i es)
closes-taken id (suc i) (e ∷ es) = closes-taken id i es

buffered-remove_at : (id i : ℕ) (es : List Event) → buffered id (remove_at i es) ≤ buffered id es
unfolding buffered remove_at
buffered-remove_at id i [] = omega arith
buffered-remove_at id zero (Event.received s b ∷ es) = ground arith
buffered-remove_at id zero (e ∷ es) = omega arith
buffered-remove_at id (suc i) (Event.received s b ∷ es) = ground (arith, buffered-remove_at id i es)
buffered-remove_at id (suc i) (e ∷ es) = buffered-remove_at id i es

-- The ledger with the delivered events taken into account.
abbrev pub IsSettled : ℕ → List Event → Session → Type 0
IsSettled id ds s = IsBalanced id (closes id ds) (opens id ds) s

delivered-IsSettled :
    (id : ℕ) (ds : List Event) (i : ℕ) (s : Session)
    → IsSettled id ds s
    → IsSettled id
        (ds ++ taken (element_at i s.events))
        (record s { events = remove_at i s.events })
delivered-IsSettled id ds i s g = record {
  history = g.history;
  sorted = g.sorted;
  entries = g.entries;
  within = g.within;
  balance = omega (
    arith,
    g.balance,
    opens-taken id i s.events,
    closes-taken id i s.events,
    opens-append id ds (taken (element_at i s.events)),
    closes-append id ds (taken (element_at i s.events)),
  );
  bounded = omega (arith, g.bounded, buffered-remove_at id i s.events);
  idle = g.idle;
}

nothing-IsSettled :
    (id : ℕ) (ds : List Event) (s : Session) → IsSettled id ds s → IsSettled id (ds ++ []) s
unfolding opens closes
nothing-IsSettled id ds s g = record {
  history = g.history;
  sorted = g.sorted;
  entries = g.entries;
  within = g.within;
  balance = omega (arith, g.balance, opens-append id ds [], closes-append id ds []);
  bounded = g.bounded;
  idle = g.idle;
}

IsBalanced-IsQueueBlind : (id a b : ℕ) → IsQueueBlind (IsBalanced id a b)
IsBalanced-IsQueueBlind id a b = record {
  accounted = λ c s g. g;
  enqueued = λ fs s g. g;
  scheduled = λ last s g. g;
}

absent_entry :
    (c : ConnectionId) (ids : StreamIds) (k : ℕ) (m : List (ℕ × StreamState))
    → Entries (IsEntry c ids) m
    → was_created ids k ≡ false
    → contains k m ≡ false
unfolding contains
absent_entry c ids k [] e new = refl
absent_entry c ids k ((j, state) ∷ m) e new =
    ground (arith, e.0.created, absent_entry c ids k m e.1 new)

-- The session of a connection as its driver makes it: fresh, with the shared budgets.
unfoldable pub fresh : ConnectionId → ConnectionRole → IdentityId → IdentityId → Resources → Session
fresh handle role local_identity peer_identity resources =
    set_resources (with_handle handle role local_identity peer_identity) resources

module _ (handle : ConnectionId) (role : ConnectionRole) (ours theirs : IdentityId)
    (resources : Resources) where
  fresh-IsSettled : (id : ℕ) → IsSettled id [] (fresh handle role ours theirs resources)
  unfolding fresh with_handle set_resources occurs opens closes buffered
  fresh-IsSettled id = record {
    history = new_ids-IsHistory role;
    sorted = tt;
    entries = tt;
    within = omega arith;
    balance = refl;
    bounded = omega arith;
    idle = λ c. refl;
  }

  pub reachable-IsSettled :
      (id : ℕ) {ds : List Event} {s : Session}
      → Reachable (fresh handle role ours theirs resources) ds s
      → IsSettled id ds s
  reachable-IsSettled id =
      Reachable-Keeps (IsSettled id) (λ ds. IsBalanced-IsInvariant id (closes id ds) (opens id ds))
        (λ ds. IsBalanced-IsQueueBlind id (closes id ds) (opens id ds)) (λ ds s g. g.history)
        (λ ds k s g new. absent_entry s.handle s.ids k s.streams g.entries new)
        (delivered-IsSettled id) (nothing-IsSettled id) _ (fresh-IsSettled id)

  -- In any state that a fresh session reaches, and for every stream number: the openings queued for the
  -- consumer, delivered or not, are as many as its closings and its entries in the table together,
  -- and it has at most one entry.
  pub openings_balance :
      (id : ℕ) (ds : List Event) (s : Session)
      → Reachable (fresh handle role ours theirs resources) ds s
      → (occurs id s.streams + closes id (ds ++ s.events) ≡ opens id (ds ++ s.events))
        × (occurs id s.streams ≤ 1)
  openings_balance id ds s r =
      let g = reachable-IsSettled id r in
      (
        omega (arith, g.balance, opens-append id ds s.events, closes-append id ds s.events),
        occurs-le-one id 0 s.streams g.sorted,
      )

  -- In any closed state that a fresh session reaches, the queue and the delivered events together close
  -- each stream number exactly as often as they open it.
  pub closed_streams_settled :
      (id : ℕ) (ds : List Event) (s : Session)
      → Reachable (fresh handle role ours theirs resources) ds s
      → s.is_closed ≡ true
      → closes id (ds ++ s.events) ≡ opens id (ds ++ s.events)
  unfolding occurs
  closed_streams_settled id ds s r closed =
      let g = reachable-IsSettled id r in
      omega (arith, (openings_balance id ds s r).0, empty (g.idle closed))
    where
      empty : s.streams ≡ [] → occurs id s.streams ≡ 0
      empty e = rw e refl

  -- In any state that a fresh session reaches, the table of streams is within the limit of streams, and
  -- each entry stands under the number of its handle, on this connection, with a created number.
  pub table_sound :
      (k : ℕ) (ds : List Event) (s : Session)
      → Reachable (fresh handle role ours theirs resources) ds s
      → (length s.streams ≤ s.resources.limits.streams_per_connection)
        × ((state : StreamState)
            → lookup k s.streams ≡ some state
            → (state.handle.wire_id ≡ k)
              × (state.handle.connection ≡ s.handle)
              × (was_created s.ids k ≡ true))
  table_sound k ds s r =
      let g = reachable-IsSettled k r in
      (
        g.within,
        λ state h.
            let e = Entries-lookup (IsEntry s.handle s.ids) k s.streams state g.entries h in
            (e.wire_id, e.own_connection, e.created),
      )

  -- In any state that a fresh session reaches, the bytes of a stream that wait for the consumer are within
  -- the buffer limit.
  pub buffered_within_limit :
      (id : ℕ) (ds : List Event) (s : Session)
      → Reachable (fresh handle role ours theirs resources) ds s
      → buffered id s.events ≤ s.resources.limits.buffered_bytes_per_stream
  buffered_within_limit id ds s r = (reachable-IsSettled id r).bounded
