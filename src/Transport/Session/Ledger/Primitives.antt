-- ===== src/Transport/Session/Ledger/Primitives.antt =====
-- The building blocks of the operations keep the ledger.
use talk_sphere.Base.{
  ℕ, ◌+◌, ◌≤◌, ◌≡◌, refl, ap, ◌∙◌, Bool, [], ◌∷◌, ◌++◌, Option, some, Option-cases, length, inl,
  inr, arith,
}
use talk_sphere.Base.NatMap.{lookup, remove, modify, occurs}
use talk_sphere.Base.NatMap.Laws.{
  occurs-remove, occurs-modify, remove-Above, modify-Above, length-remove, length-modify,
  Entries-lookup, Entries-remove, Entries-modify,
}
use talk_sphere.Transport.Api.{
  FailureCode, FailureOrigin, StreamHandle, Event, Failure, StreamOutcome,
}
use talk_sphere.Transport.Resources.{reserve}
use talk_sphere.Transport.Framing.{WireFrame}
use talk_sphere.Transport.Session.State.{Session, StreamState, push_event}
use talk_sphere.Transport.Session.Output.{queue, reserve_outbound, retain_outbound, clear_outbound}
use talk_sphere.Transport.Session.Lifecycle.{
  close_stream, terminate, close_work, option_or, failure_or, failure,
}
use talk_sphere.Transport.Session.Receive.{buffered}
use talk_sphere.Transport.Session.Ledger.{opens, closes, IsEntry, IsBalanced}
use talk_sphere.Transport.Session.Invariant.{Keeps, >>=-Keeps}
use talk_sphere.Transport.Session.Ledger.Events.{
  opens-append, closes-append, buffered-append, closing_opens, closing_closes, closing_buffered,
}

module _ (id a b : ℕ) where
  pub reserve_outbound-IsBalanced :
      (amount : ℕ) → Keeps (IsBalanced id a b) (reserve_outbound amount)
  unfolding reserve_outbound
  reserve_outbound-IsBalanced amount s g =
      elim (Option-cases (reserve s.resources.outbound amount)) [
        | inl e ↦ rw (e, reserve_outbound) g
        | inr (c, e) ↦ rw (e, reserve_outbound) g
      ]

  pub queue-IsBalanced : (f : WireFrame) → Keeps (IsBalanced id a b) (queue f)
  unfolding queue
  queue-IsBalanced f =
      >>=-Keeps (IsBalanced id a b) (reserve_outbound (length f.payload + 28)) _
        (reserve_outbound-IsBalanced (length f.payload + 28)) (λ _ s g. g)

  pub clear-IsBalanced : (s : Session) → IsBalanced id a b s → IsBalanced id a b (clear_outbound s)
  unfolding clear_outbound
  clear-IsBalanced s g = g

  pub retain-IsBalanced :
      (p : WireFrame → Bool) (s : Session)
      → IsBalanced id a b s
      → IsBalanced id a b (retain_outbound p s)
  unfolding retain_outbound
  retain-IsBalanced p s g = g

  -- An event that is neither an opening nor a closing.
  pub push_event-IsBalanced :
      (e : Event) (s : Session)
      → opens id (e ∷ []) ≡ 0
      → closes id (e ∷ []) ≡ 0
      → buffered id s.events + buffered id (e ∷ []) ≤ s.resources.limits.buffered_bytes_per_stream
      → IsBalanced id a b s
      → IsBalanced id a b (push_event e s)
  push_event-IsBalanced e s o c h g = record {
    history = g.history;
    sorted = g.sorted;
    entries = g.entries;
    within = g.within;
    balance =
        omega
          (arith, g.balance, opens-append id s.events (e ∷ []), closes-append id s.events (e ∷ []));
    bounded = omega (arith, h, buffered-append id s.events (e ∷ []));
    idle = g.idle;
  }

  close_stream_found :
      (k : ℕ) (outcome : StreamOutcome) (s : Session) (state : StreamState)
      → lookup k s.streams ≡ some state
      → IsBalanced id a b s
      → IsBalanced id a b (record s {
        streams = remove k s.streams;
        events = s.events ++ Event.stream_closed state.handle outcome ∷ [];
      })
  unfolding opens closes buffered remove
  close_stream_found k outcome s state e g =
      let entry = Entries-lookup (IsEntry s.handle s.ids) k s.streams state g.entries e in
      record {
        history = g.history;
        sorted = remove-Above k 0 s.streams g.sorted;
        entries = Entries-remove (IsEntry s.handle s.ids) k s.streams g.entries;
        within = omega (arith, g.within, length-remove k s.streams);
        balance = ground (
          arith,
          g.balance,
          entry.wire_id,
          occurs-remove k id s.streams state e,
          opens-append id s.events (Event.stream_closed state.handle outcome ∷ []),
          closes-append id s.events (Event.stream_closed state.handle outcome ∷ []),
        );
        bounded = omega (
          arith,
          g.bounded,
          buffered-append id s.events (Event.stream_closed state.handle outcome ∷ []),
        );
        idle = λ c. ap (remove k) (g.idle c);
      }

  pub close_stream-IsBalanced :
      (k : ℕ) (outcome : StreamOutcome) (s : Session)
      → IsBalanced id a b s
      → IsBalanced id a b (close_stream k outcome s)
  unfolding close_stream
  close_stream-IsBalanced k outcome s g = elim (Option-cases (lookup k s.streams)) [
    | inl e ↦ rw (e, close_stream) g
    | inr (state, e) ↦ rw (e, close_stream) (close_stream_found k outcome s state e g)
  ]

  pub terminate-IsBalanced :
      (k : ℕ) (outcome : StreamOutcome) (s : Session)
      → IsBalanced id a b s
      → IsBalanced id a b (terminate k outcome s)
  unfolding terminate
  terminate-IsBalanced k outcome s g = close_stream-IsBalanced k outcome _ (retain-IsBalanced _ s g)

  -- An assignment to the flags of one stream.
  pub modify-IsBalanced :
      (k : ℕ) (f : StreamState → StreamState) (s : Session)
      → ((state : StreamState) → (f state).handle ≡ state.handle)
      → IsBalanced id a b s
      → IsBalanced id a b (record s { streams = modify k f s.streams })
  unfolding modify
  modify-IsBalanced k f s same g = record {
    history = g.history;
    sorted = modify-Above k 0 f s.streams g.sorted;
    entries =
        Entries-modify (IsEntry s.handle s.ids) k f s.streams
          (λ j state v. record {
            wire_id = ap (λ (h : StreamHandle). h.wire_id) (same state) ∙ v.wire_id;
            own_connection =
                ap (λ (h : StreamHandle). h.connection) (same state) ∙ v.own_connection;
            created = v.created;
          })
          g.entries;
    within = omega (arith, g.within, length-modify k f s.streams);
    balance = omega (arith, g.balance, occurs-modify k id f s.streams);
    bounded = g.bounded;
    idle = λ c. ap (modify k f) (g.idle c);
  }

  pub close_work-IsBalanced :
      (cause : Option Failure) (s : Session)
      → IsBalanced id a b s
      → IsBalanced id a b (close_work cause s)
  unfolding close_work clear_outbound occurs
  close_work-IsBalanced cause s g =
      let failed : Option Failure = option_or cause s.drain_failure in
      let unfinished : Failure =
        failure_or failed (failure FailureOrigin.local FailureCode.connection_lost) in
      record {
        history = g.history;
        sorted = tt;
        entries = tt;
        within = omega arith;
        balance = omega (
          arith,
          g.balance,
          closing_opens id s.handle unfinished failed s.handle s.ids s.streams g.entries s.events
              s.pings,
          closing_closes id s.handle unfinished failed s.handle s.ids s.streams g.entries s.events
              s.pings,
        );
        bounded = omega (
          arith,
          g.bounded,
          closing_buffered id s.handle unfinished failed s.handle s.ids s.streams g.entries s.events
              s.pings,
        );
        idle = λ c. refl;
      }
