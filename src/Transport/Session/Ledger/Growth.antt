-- ===== src/Transport/Session/Ledger/Growth.antt =====
-- The steps of the ledger that concern new numbers and new streams.
use talk_sphere.Base.{ℕ, ◌<◌, ◌≡◌, true, false, List, [], ◌∷◌, length, arith, refl}
use talk_sphere.Base.NatMap.{contains, Entries}
use talk_sphere.Base.NatMap.Laws.{occurs-insert, insert-Above, length-insert, Entries-insert}
use talk_sphere.Transport.Api.{Event, StreamHandle, StreamOwner, Protocol, ConnectionId}
use talk_sphere.Transport.Stream.Ids.{StreamIds, accept, allocate, was_created}
use talk_sphere.Transport.Stream.Ids.History.{
  accept-IsHistory, allocate-IsHistory, accept_keeps, allocate_keeps, created_positive,
}
use talk_sphere.Transport.Session.State.{Session, StreamState}
use talk_sphere.Transport.Session.Requests.{install}
use talk_sphere.Transport.Session.Receive.{buffered}
use talk_sphere.Transport.Session.Ledger.{opens, closes, IsEntry, IsBalanced}
use talk_sphere.Transport.Session.Ledger.Events.{opens-append, closes-append, buffered-append}

Entries-grow :
    (c : ConnectionId) (x y : StreamIds) (m : List (ℕ × StreamState))
    → ((k : ℕ) → was_created x k ≡ true → was_created y k ≡ true)
    → Entries (IsEntry c x) m
    → Entries (IsEntry c y) m
Entries-grow c x y [] grow e = tt
Entries-grow c x y ((k, state) ∷ m) grow e = (
  record {
    wire_id = e.0.wire_id;
    own_connection = e.0.own_connection;
    created = grow k e.0.created;
  },
  Entries-grow c x y m grow e.1,
)

module _ (id a b : ℕ) where
  pub accept-IsBalanced :
      (k : ℕ) (s : Session)
      → IsBalanced id a b s
      → IsBalanced id a b (record s { ids = (accept s.ids k).0 })
  accept-IsBalanced k s g = record {
    history = accept-IsHistory s.ids k g.history;
    sorted = g.sorted;
    entries =
        Entries-grow s.handle s.ids _ s.streams (λ x h. accept_keeps s.ids k x g.history h)
          g.entries;
    within = g.within;
    balance = g.balance;
    bounded = g.bounded;
    idle = g.idle;
  }

  pub allocate-IsBalanced :
      (s : Session)
      → IsBalanced id a b s
      → IsBalanced id a b (record s { ids = (allocate s.ids).0 })
  allocate-IsBalanced s g = record {
    history = allocate-IsHistory s.ids g.history;
    sorted = g.sorted;
    entries =
        Entries-grow s.handle s.ids _ s.streams (λ x h. allocate_keeps s.ids x g.history h)
          g.entries;
    within = g.within;
    balance = g.balance;
    bounded = g.bounded;
    idle = g.idle;
  }

  pub install-IsBalanced :
      (k : ℕ) (owner : StreamOwner) (p : Protocol) (s : Session)
      → s.is_closed ≡ false
      → was_created s.ids k ≡ true
      → contains k s.streams ≡ false
      → length s.streams < s.resources.limits.streams_per_connection
      → IsBalanced id a b s
      → IsBalanced id a b (install k owner p s).0
  unfolding install opens closes buffered
  install-IsBalanced k owner p s alive created fresh room g =
      let stream : StreamHandle = record { connection = s.handle; owner = owner; wire_id = k } in
      let state : StreamState = record {
        handle = stream;
        local_open = true;
        remote_open = true;
        local_end_written = false;
      } in
      record {
        history = g.history;
        sorted = insert-Above k 0 state s.streams (created_positive s.ids k created) g.sorted;
        entries =
            Entries-insert (IsEntry s.handle s.ids) k state s.streams
              (record { wire_id = refl; own_connection = refl; created = created }) g.entries;
        within = omega (arith, room, length-insert k state s.streams);
        balance = ground (
          arith,
          g.balance,
          occurs-insert k id state s.streams fresh,
          opens-append id s.events (Event.stream_opened s.context stream p ∷ []),
          closes-append id s.events (Event.stream_opened s.context stream p ∷ []),
        );
        bounded = omega (
          arith,
          g.bounded,
          buffered-append id s.events (Event.stream_opened s.context stream p ∷ []),
        );
        idle = λ c. ground (arith, alive, c);
      }
