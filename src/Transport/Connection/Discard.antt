-- ===== src/Transport/Connection/Discard.antt =====
-- The loop by which a released connection discards its session's output.
use talk_sphere.Base.{
  ℕ, zero, suc, ◌≤◌, ◌≡◌, refl, ap, ◌∙◌, List, [], ◌∷◌, Option, none, some, length, empty_list,
  arith,
}
use talk_sphere.Transport.Connection.{discard_output}
use talk_sphere.Transport.Framing.{WireFrame}
use talk_sphere.Transport.Resources.{release}
use talk_sphere.Transport.Session.Output.{reserved_by}
use talk_sphere.Transport.Session.Scheduler.{choose, element_at, next_output, remove_at}
use talk_sphere.Transport.Session.Scheduler.Order.{next_output_first, next_output_progress}
use talk_sphere.Transport.Session.State.{Session}

-- The same session, but for its output and its budgets.
record IsSame (s t : Session) : Type 0 where
  same_closed : t.is_closed ≡ s.is_closed
  same_events : t.events ≡ s.events
  same_streams : t.streams ≡ s.streams
  same_ids : t.ids ≡ s.ids

length-remove_at :
    (i : ℕ) (f : WireFrame) (fs : List WireFrame)
    → element_at i fs ≡ some f
    → suc (length (remove_at i fs)) ≡ length fs
unfolding element_at remove_at
length-remove_at i f [] e = cc
length-remove_at zero f (x ∷ fs) e = omega arith
length-remove_at (suc i) f (x ∷ fs) e = omega (arith, length-remove_at i f fs e)

next_output-IsSame :
    (s : Session) → IsSame s (next_output s).0 × (s.outbound ≡ [] → (next_output s).0.outbound ≡ [])
unfolding next_output remove_at
next_output-IsSame s = go (choose s.last_output s.outbound)
  where
    go :
        (r : Option (ℕ × ℕ))
        → IsSame s
            (elim r as (λ x. Session × Option WireFrame) [
              | none ↦ (s, none)
              | some (id, index) ↦ (
                record s { last_output = some id; outbound = remove_at index s.outbound },
                element_at index s.outbound,
              )
            ]).0
          × (s.outbound ≡ []
              → (elim r as (λ x. Session × Option WireFrame) [
                | none ↦ (s, none)
                | some (id, index) ↦ (
                  record s { last_output = some id; outbound = remove_at index s.outbound },
                  element_at index s.outbound,
                )
              ]).0.outbound
                ≡ [])
    go none = (
      record { same_closed = refl; same_events = refl; same_streams = refl; same_ids = refl },
      λ e. e,
    )
    go (some (id, index)) = (
      record { same_closed = refl; same_events = refl; same_streams = refl; same_ids = refl },
      λ e. ap (remove_at index) e,
    )

IsSame-trans : (s t u : Session) → IsSame s t → IsSame t u → IsSame s u
IsSame-trans s t u a b = record {
  same_closed = b.same_closed ∙ a.same_closed;
  same_events = b.same_events ∙ a.same_events;
  same_streams = b.same_streams ∙ a.same_streams;
  same_ids = b.same_ids ∙ a.same_ids;
}

discard-IsSame :
    (n : ℕ) (s : Session)
    → length s.outbound ≤ n
    → ((discard_output n s).outbound ≡ []) × IsSame s (discard_output n s)
unfolding discard_output
discard-IsSame zero s h = (
  empty_list s.outbound (omega (arith, h)),
  record { same_closed = refl; same_events = refl; same_streams = refl; same_ids = refl },
)
discard-IsSame (suc n) s h = go (discard-IsSame n) (next_output s).1 refl
  where
    go :
        ((t : Session)
          → length t.outbound ≤ n
          → ((discard_output n t).outbound ≡ []) × IsSame t (discard_output n t))
        → (o : Option WireFrame) → (next_output s).1 ≡ o
        → let u : Session = elim o [
          | none ↦ (next_output s).0
          | some f ↦ discard_output n (record (next_output s).0 {
            resources = record (next_output s).0.resources {
              outbound = release (next_output s).0.resources.outbound (reserved_by f);
            };
          })
        ] in
          (u.outbound ≡ []) × IsSame s u
    go later none e =
        ((next_output-IsSame s).1 (next_output_progress s e), (next_output-IsSame s).0)
    go later (some f) e =
        let (index, here, _, kept, _) = next_output_first s f e in
        let t : Session = record (next_output s).0 {
          resources = record (next_output s).0.resources {
            outbound = release (next_output s).0.resources.outbound (reserved_by f);
          };
        } in
        let (empty, same) =
          later t (omega (arith, h, ap length kept, length-remove_at index f s.outbound here)) in
        let first = (next_output-IsSame s).0 in
        (
          empty,
          IsSame-trans s t _
              (record {
                same_closed = first.same_closed;
                same_events = first.same_events;
                same_streams = first.same_streams;
                same_ids = first.same_ids;
              })
              same,
        )

-- As many rounds as a session has frames in its queue empty the queue, and leave the events, the streams
-- and their numbers, and whether the session is closed.
pub discard_output_empties :
    (s : Session)
    → ((discard_output (length s.outbound) s).outbound ≡ [])
      × ((discard_output (length s.outbound) s).events ≡ s.events)
      × ((discard_output (length s.outbound) s).streams ≡ s.streams)
      × ((discard_output (length s.outbound) s).ids ≡ s.ids)
      × ((discard_output (length s.outbound) s).is_closed ≡ s.is_closed)
discard_output_empties s =
    let (empty, same) = discard-IsSame (length s.outbound) s (omega arith) in
    (empty, same.same_events, same.same_streams, same.same_ids, same.same_closed)
