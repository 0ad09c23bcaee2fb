-- ===== src/Transport/Connection/Guard/Rounds.antt =====
-- The rounds of a poll, and the delivery of events, keep the tie between a connection's session and its
-- handshake.
use talk_sphere.Base.{
  ℕ, zero, suc, Bool, not, ◌&&◌, ◌||◌, List, [], ◌∷◌, Option, none, some, is_some, leb,
}
use talk_sphere.Transport.Api.{Event, FailureCode}
use talk_sphere.Transport.Connection.{Connection, establish, pop_connection_event}
use talk_sphere.Transport.Connection.Driving.{
  finish, is_ready_to_close, poll, round, round_input, rounds, tick_session, write,
}
use talk_sphere.Transport.Failures.{local_failure}
use talk_sphere.Transport.Framing.Wire.{pending, ready}
use talk_sphere.Transport.Handshake.{Handshake}
use talk_sphere.Transport.Handshake.Keys.{Primitives}
use talk_sphere.Transport.Handshake.Transcripts.{Identity}
use talk_sphere.Transport.Integrity.{Cryptography}
use talk_sphere.Transport.Session.Scheduler.{pop_event}
use talk_sphere.Transport.Session.State.{Session}
use talk_sphere.Transport.Session.Ping.{tick}
use talk_sphere.Transport.Session.Ownership.{Reachable-IsOwned}
use talk_sphere.Transport.Session.Reachable.{Reachable}
use talk_sphere.Transport.Stream.Registry.{Registry}
use talk_sphere.Transport.Connection.Guard.{
  IsSession, IsGuarded, map-IsSession, step-IsSession, choose-IsGuarded, abort-IsGuarded,
  establish-IsGuarded, finish-IsGuarded,
}
use talk_sphere.Transport.Connection.Guard.Output.{
  choose_pair-IsGuarded, choose_poll, write-IsGuarded,
}
use talk_sphere.Transport.Connection.Guard.Input.{read-IsGuarded}

module _ {E S P K : Type 0} (identity : Identity) (crypto : Primitives E S P K)
    (cipher : Cryptography K) (latest : ℕ) (start : Handshake E K) where
  pub round_input-IsGuarded :
      (now : ℕ) (registry : Registry) (x : Connection E K × Bool)
      → IsGuarded identity crypto cipher latest start x.0
      → IsGuarded identity crypto cipher latest start
          (round_input identity crypto cipher latest now registry x).0
  unfolding round_input
  round_input-IsGuarded now registry (c, progressed) j =
      choose_pair-IsGuarded identity crypto cipher latest start c.closing (c, progressed) _ j
        (read-IsGuarded identity crypto cipher latest start now registry c j)

  pub round-IsGuarded :
      (now : ℕ) (registry : Registry) (c : Connection E K)
      → IsGuarded identity crypto cipher latest start c
      → IsGuarded identity crypto cipher latest start
          (round identity crypto cipher latest now registry c).0
  unfolding round
  round-IsGuarded now registry c j =
      let d = write identity crypto cipher latest now c in
      let e = establish d.0 in
      let f = round_input identity crypto cipher latest now registry (e, d.1) in
      let e_guarded =
        establish-IsGuarded identity crypto cipher latest start d.0
          (write-IsGuarded identity crypto cipher latest start now c j) in
      let f_guarded =
        establish-IsGuarded identity crypto cipher latest start f.0
          (round_input-IsGuarded now registry (e, d.1) e_guarded) in
      choose_pair-IsGuarded identity crypto cipher latest start (not (is_some e.socket)) (e, d.1) _
        e_guarded
        (choose-IsGuarded identity crypto cipher latest start (is_ready_to_close (establish f.0))
          (finish (establish f.0)) (establish f.0)
          (finish-IsGuarded identity crypto cipher latest start (establish f.0) f_guarded)
          f_guarded)

  pub rounds-IsGuarded :
      (n now : ℕ) (registry : Registry) (c : Connection E K)
      → IsGuarded identity crypto cipher latest start c
      → IsGuarded identity crypto cipher latest start
          (rounds identity crypto cipher latest n now registry c).0
  unfolding rounds
  rounds-IsGuarded zero now registry c j = j
  rounds-IsGuarded (suc n) now registry c j =
      let d = round identity crypto cipher latest now registry c in
      let k = round-IsGuarded now registry c j in
      choose_poll identity crypto cipher latest start (not (is_some d.0.socket)) (d.0, ready tt) _ k
        (choose_poll identity crypto cipher latest start (not d.1) (d.0, pending) _ k
          (rounds-IsGuarded n now registry d.0 k))

  pub poll-IsGuarded :
      (now : ℕ) (registry : Registry) (c : Connection E K)
      → IsGuarded identity crypto cipher latest start c
      → IsGuarded identity crypto cipher latest start
          (poll identity crypto cipher latest now registry c).0
  unfolding poll
  poll-IsGuarded now registry c (e, hand, session, keys) =
      choose_poll identity crypto cipher latest start (not (is_some c.socket)) (c, ready tt) _
        (e, hand, session, keys)
        (choose_poll identity crypto cipher latest start
          ((is_some c.handshake || c.closing) && leb c.deadline now) _ _
          (abort-IsGuarded identity crypto cipher latest start
            (local_failure FailureCode.deadline_exceeded none) c (e, hand, session, keys))
          (rounds-IsGuarded 32 now registry (tick_session identity crypto cipher latest now c) (
            e,
            hand,
            map-IsSession identity crypto cipher latest start (tick now)
                (λ x s g. Reachable-IsOwned x s g (Reachable.ticked now Reachable.begun)) e c.handle
                c.session session,
            keys,
          )))

  pub pop-IsGuarded :
      (c : Connection E K)
      → IsGuarded identity crypto cipher latest start c
      → IsGuarded identity crypto cipher latest start (pop_connection_event c).0
  unfolding pop_connection_event
  pop-IsGuarded c j = go c.events c.session j.2
    where
      go :
          (es : List Event) (o : Option Session)
          → IsSession identity crypto cipher latest start j.0 c.handle o
          → IsGuarded identity crypto cipher latest start
              (elim es as (λ x. Connection E K × Option Event) [
                | e ∷ rest ↦ (record c { events = rest }, some e)
                | [] ↦ elim o [
                  | none ↦ (c, none)
                  | some s ↦ (record c { session = some (pop_event s).0 }, (pop_event s).1)
                ]
              ]).0
      go (e ∷ es) o b = j
      go [] none b = j
      go [] (some s) b = (
        j.0,
        j.1,
        step-IsSession identity crypto cipher latest start s (pop_event s).0
            (λ x g. Reachable-IsOwned x s g (Reachable.event_popped Reachable.begun)) j.0 c.handle
            b,
        j.3,
      )
