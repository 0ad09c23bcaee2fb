-- ===== src/Transport/Connection/Closing.antt =====
-- How a connection ends.
use talk_sphere.Base.{
  ℕ, ◌≤◌, ◌≡◌, ◌⊎◌, inl, inr, refl, sym, ap, subst, Bool, true, false, not, ◌&&◌, ◌||◌, List, [],
  ◌∷◌, Option, none, some, is_some, leb, if◌then◌else◌, arith,
}
use talk_sphere.Transport.Api.{Event, FailureCode}
use talk_sphere.Transport.Connection.{
  Connection, Link, abort, close_connection, close_session, pop_connection_event, release_all,
  report_closed,
}
use talk_sphere.Transport.Connection.Authority.{
  ConnectionLife, begun, closed_by_owner, operated, polled, popped,
}
use talk_sphere.Transport.Connection.Driving.{poll}
use talk_sphere.Transport.Failures.{Disposition, local_failure}
use talk_sphere.Transport.Framing.Reader.{new_reader}
use talk_sphere.Transport.Framing.Wire.{Poll, ready}
use talk_sphere.Transport.Framing.Writer.{new_writer}
use talk_sphere.Transport.Handshake.Keys.{Primitives}
use talk_sphere.Transport.Handshake.Transcripts.{Identity}
use talk_sphere.Transport.Integrity.{Cryptography}
use talk_sphere.Transport.Session.Scheduler.{pop_event}
use talk_sphere.Transport.Session.State.{Session}
use talk_sphere.Transport.Stream.Registry.{Registry}

unless_some {ℓ} :
    {A : Type ℓ} (o : Option Link) (x y : A) → o ≡ none → (if not (is_some o) then x else y) ≡ x
unless_some none x y e = refl
unless_some (some link) x y e = cc

module _ {E K : Type 0} where
  -- Without a socket, secrets, buffers or admission.
  pub record IsReleased (c : Connection E K) : Type 0 where
    pub no_socket : c.socket ≡ none
    pub no_admission : c.admission ≡ none
    pub no_handshake : c.handshake ≡ none
    pub no_keys : c.integrity ≡ none
    pub no_output : c.handshake_output ≡ []
    pub no_input : c.reader ≡ new_reader
    pub no_frame : c.writer ≡ new_writer
    pub not_writing : c.writing ≡ none

  release_all-IsReleased : (c : Connection E K) → IsReleased (release_all c)
  unfolding release_all
  release_all-IsReleased c = record {
    no_socket = refl;
    no_admission = refl;
    no_handshake = refl;
    no_keys = refl;
    no_output = refl;
    no_input = refl;
    no_frame = refl;
    not_writing = refl;
  }

  abort-IsReleased :
      (d : Disposition) (c : Connection E K) → is_some c.socket ≡ true → IsReleased (abort d c)
  unfolding abort
  abort-IsReleased d c live = go (is_some c.socket) (is_some c.session) c.closing live
    where
      go :
          (o s k : Bool)
          → o ≡ true
          → IsReleased (
              if not o
              then c
              else if s
              then release_all (close_session (some d.failure) none c)
              else if not k
              then release_all (report_closed d.failure c)
              else release_all c)
      go false s k e = cc
      go true true k e = release_all-IsReleased (close_session (some d.failure) none c)
      go true false false e = release_all-IsReleased (report_closed d.failure c)
      go true false true e = release_all-IsReleased c

  abort_released : (d : Disposition) (c : Connection E K) → c.socket ≡ none → abort d c ≡ c
  unfolding abort
  abort_released d c e = unless_some c.socket _ _ e

  pop-IsReleased : (c : Connection E K) → IsReleased c → IsReleased (pop_connection_event c).0
  unfolding pop_connection_event
  pop-IsReleased c i = go c.events c.session
    where
      go :
          (es : List Event) (o : Option Session)
          → IsReleased
              (elim es as (λ x. Connection E K × Option Event) [
                | e ∷ rest ↦ (record c { events = rest }, some e)
                | [] ↦ elim o [
                  | none ↦ (c, none)
                  | some s ↦ (record c { session = some (pop_event s).0 }, (pop_event s).1)
                ]
              ]).0
      go (e ∷ es) o = record {
        no_socket = i.no_socket;
        no_admission = i.no_admission;
        no_handshake = i.no_handshake;
        no_keys = i.no_keys;
        no_output = i.no_output;
        no_input = i.no_input;
        no_frame = i.no_frame;
        not_writing = i.not_writing;
      }
      go [] none = i
      go [] (some s) = record {
        no_socket = i.no_socket;
        no_admission = i.no_admission;
        no_handshake = i.no_handshake;
        no_keys = i.no_keys;
        no_output = i.no_output;
        no_input = i.no_input;
        no_frame = i.no_frame;
        not_writing = i.not_writing;
      }

module _ {E S P K : Type 0} (identity : Identity) (crypto : Primitives E S P K)
    (cipher : Cryptography K) (latest : ℕ) where
  poll_released :
      (now : ℕ) (registry : Registry) (c : Connection E K)
      → c.socket ≡ none
      → poll identity crypto cipher latest now registry c ≡ (c, ready tt)
  unfolding poll
  poll_released now registry c e = unless_some c.socket _ _ e

  Life-IsReleased :
      {Uses : Session → Session → Type 0} {c later : Connection E K}
      → ConnectionLife identity crypto cipher latest Uses c later
      → IsReleased c
      → IsReleased later
  unfolding close_connection
  Life-IsReleased begun i = i
  Life-IsReleased (polled {c} now registry life) i =
      let j = Life-IsReleased life i in
      subst IsReleased
        (sym (
          ap (λ (x : Connection E K × Poll (Unit {0})). x.0)
            (poll_released now registry c j.no_socket)))
        j
  Life-IsReleased (closed_by_owner {c} life) i =
      let j = Life-IsReleased life i in
      subst IsReleased
        (sym (abort_released (local_failure FailureCode.connection_lost none) c j.no_socket)) j
  Life-IsReleased (popped {c} life) i = pop-IsReleased c (Life-IsReleased life i)
  Life-IsReleased (operated {c} s t life held used) i =
      let j = Life-IsReleased life i in
      record {
        no_socket = j.no_socket;
        no_admission = j.no_admission;
        no_handshake = j.no_handshake;
        no_keys = j.no_keys;
        no_output = j.no_output;
        no_input = j.no_input;
        no_frame = j.no_frame;
        not_writing = j.not_writing;
      }

  poll_deadline :
      (now : ℕ) (registry : Registry) (c : Connection E K)
      → is_some c.socket ≡ true
      → (is_some c.handshake || c.closing) ≡ true
      → c.deadline ≤ now
      → poll identity crypto cipher latest now registry c
        ≡ (abort (local_failure FailureCode.deadline_exceeded none) c, ready tt)
  unfolding poll
  poll_deadline now registry c live early late =
      go (is_some c.socket) (is_some c.handshake || c.closing) (leb c.deadline now) _ _ _ live early
        (ground arith)
    where
      go :
          (a b t : Bool) (x y z : Connection E K × Poll (Unit {0}))
          → a ≡ true
          → b ≡ true
          → t ≡ true
          → (if not a then x else if b && t then y else z) ≡ y
      go false b t x y z ea eb et = cc
      go true false t x y z ea eb et = cc
      go true true false x y z ea eb et = cc
      go true true true x y z ea eb et = refl

  -- A connection whose owner closes it, or that is polled at or after its deadline before it is
  -- authenticated or while it is closing, gives up its socket, secrets, buffers and admission at once and for
  -- good: in every later state it is without them, whatever its owner does with its session, and a poll is over at
  -- once and changes nothing.
  pub closed_is_final :
      (Uses : Session → Session → Type 0) (c later : Connection E K) (now later_now : ℕ)
      (registry : Registry)
      → is_some c.socket ≡ true
      → (ConnectionLife identity crypto cipher latest Uses (close_connection c) later
          ⊎ (((is_some c.handshake || c.closing) ≡ true)
              × (c.deadline ≤ now)
              × ConnectionLife identity crypto cipher latest Uses
                  (poll identity crypto cipher latest now registry c).0
                  later))
      → IsReleased later
        × (poll identity crypto cipher latest later_now registry later ≡ (later, ready tt))
  unfolding close_connection
  closed_is_final Uses c later now later_now registry live h =
      let i = go h in (i, poll_released later_now registry later i.no_socket)
    where
      go :
          ConnectionLife identity crypto cipher latest Uses (close_connection c) later
            ⊎ (((is_some c.handshake || c.closing) ≡ true)
                × (c.deadline ≤ now)
                × ConnectionLife identity crypto cipher latest Uses
                    (poll identity crypto cipher latest now registry c).0
                    later)
          → IsReleased later
      go (inl life) =
          Life-IsReleased life
            (abort-IsReleased (local_failure FailureCode.connection_lost none) c live)
      go (inr (early, late, life)) = Life-IsReleased life (
          subst (λ (x : Connection E K × Poll (Unit {0})). IsReleased x.0)
            (sym (poll_deadline now registry c live early late))
            (abort-IsReleased (local_failure FailureCode.deadline_exceeded none) c live))
