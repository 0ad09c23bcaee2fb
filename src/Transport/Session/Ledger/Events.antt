-- ===== src/Transport/Session/Ledger/Events.antt =====
-- Counting events.
use talk_sphere.Base.{ℕ, ◌+◌, ◌≡◌, refl, List, [], ◌∷◌, ◌++◌, arith, Option}
use talk_sphere.Base.NatMap.{Entries, occurs}
use talk_sphere.Transport.Api.{ConnectionId, Event, Failure}
use talk_sphere.Transport.Stream.Ids.{StreamIds}
use talk_sphere.Transport.Session.State.{StreamState, Probe}
use talk_sphere.Transport.Session.Lifecycle.{ping_events, stream_events}
use talk_sphere.Transport.Session.Receive.{buffered}
use talk_sphere.Transport.Session.Ledger.{opens, closes, IsEntry}

pub opens-append : (id : ℕ) (xs ys : List Event) → opens id (xs ++ ys) ≡ opens id xs + opens id ys
unfolding opens
opens-append id [] ys = omega arith
opens-append id (Event.stream_opened c s p ∷ xs) ys = omega (arith, opens-append id xs ys)
opens-append id (e ∷ xs) ys = opens-append id xs ys

pub closes-append :
    (id : ℕ) (xs ys : List Event) → closes id (xs ++ ys) ≡ closes id xs + closes id ys
unfolding closes
closes-append id [] ys = omega arith
closes-append id (Event.stream_closed s o ∷ xs) ys = omega (arith, closes-append id xs ys)
closes-append id (e ∷ xs) ys = closes-append id xs ys

pub buffered-append :
    (id : ℕ) (xs ys : List Event) → buffered id (xs ++ ys) ≡ buffered id xs + buffered id ys
unfolding buffered
buffered-append id [] ys = omega arith
buffered-append id (Event.received s b ∷ xs) ys = ground (arith, buffered-append id xs ys)
buffered-append id (e ∷ xs) ys = buffered-append id xs ys

ping_events_count :
    (id handle : ℕ) (f : Failure) (ps : List Probe)
    → (opens id (ping_events handle f ps) ≡ 0)
      × (closes id (ping_events handle f ps) ≡ 0)
      × (buffered id (ping_events handle f ps) ≡ 0)
unfolding opens closes buffered ping_events
ping_events_count id handle f [] = (refl, refl, refl)
ping_events_count id handle f (p ∷ ps) = ping_events_count id handle f ps

-- Closing the connection closes each stream of the table, once.
stream_events_count :
    (id : ℕ) (f : Failure) (connection : ConnectionId) (ids : StreamIds)
    (m : List (ℕ × StreamState))
    → Entries (IsEntry connection ids) m
    → (opens id (stream_events f m) ≡ 0)
      × (closes id (stream_events f m) ≡ occurs id m)
      × (buffered id (stream_events f m) ≡ 0)
unfolding opens closes buffered stream_events occurs
stream_events_count id f connection ids [] e = (refl, refl, refl)
stream_events_count id f connection ids ((k, state) ∷ m) e =
    let (o, c, r) = stream_events_count id f connection ids m e.1 in
    (o, rw (c, e.0.wire_id) refl, r)

-- The events of a closing connection, behind those already queued.
module _ (id handle : ℕ) (f : Failure) (cause : Option Failure) (connection : ConnectionId)
    (ids : StreamIds) (m : List (ℕ × StreamState)) (e : Entries (IsEntry connection ids) m)
    (xs : List Event) (ps : List Probe) where
  abbrev tail : List Event
  tail = stream_events f m ++ Event.connection_closed handle cause ∷ []

  pub closing_opens : opens id (xs ++ (ping_events handle f ps ++ tail)) ≡ opens id xs
  closing_opens = omega (
    arith,
    opens-append id xs (ping_events handle f ps ++ tail),
    opens-append id (ping_events handle f ps) tail,
    opens-append id (stream_events f m) (Event.connection_closed handle cause ∷ []),
    last_opens,
    ping_events_count id handle f ps,
    stream_events_count id f connection ids m e,
  )
    where
      last_opens : opens id (Event.connection_closed handle cause ∷ []) ≡ 0
      last_opens = unfold opens in refl

  pub closing_closes :
      closes id (xs ++ (ping_events handle f ps ++ tail)) ≡ closes id xs + occurs id m
  closing_closes = omega (
    arith,
    closes-append id xs (ping_events handle f ps ++ tail),
    closes-append id (ping_events handle f ps) tail,
    closes-append id (stream_events f m) (Event.connection_closed handle cause ∷ []),
    last_closes,
    ping_events_count id handle f ps,
    stream_events_count id f connection ids m e,
  )
    where
      last_closes : closes id (Event.connection_closed handle cause ∷ []) ≡ 0
      last_closes = unfold closes in refl

  pub closing_buffered : buffered id (xs ++ (ping_events handle f ps ++ tail)) ≡ buffered id xs
  closing_buffered = omega (
    arith,
    buffered-append id xs (ping_events handle f ps ++ tail),
    buffered-append id (ping_events handle f ps) tail,
    buffered-append id (stream_events f m) (Event.connection_closed handle cause ∷ []),
    last_buffered,
    ping_events_count id handle f ps,
    stream_events_count id f connection ids m e,
  )
    where
      last_buffered : buffered id (Event.connection_closed handle cause ∷ []) ≡ 0
      last_buffered = unfold buffered in refl
