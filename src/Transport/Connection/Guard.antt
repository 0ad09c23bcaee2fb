-- ===== src/Transport/Connection/Guard.antt =====
-- What ties a connection's session and keys to its handshake, and the operations that release and fail.
pub mod Output
pub mod Input
pub mod Rounds
use talk_sphere.Base.{
  ℕ, zero, suc, ◌+◌, ◌≡◌, refl, ap, subst, Bool, true, false, not, ◌&&◌, ◌||◌, List, [], ◌∷◌, ◌++◌,
  Option, none, some, is_some, Result, ok, err, leb, if◌then◌else◌, length,
}
use talk_sphere.Transport.Api.{ConnectionId, Event, Failure, FailureCode, PeerContext}
use talk_sphere.Transport.Codec.Control.{ErrorCode}
use talk_sphere.Transport.Codec.Frames.{FrameProtection, FrameType}
use talk_sphere.Transport.Connection.{
  Connection, Link, abort, discard_output, add_timeout, close_connection, close_session,
  discard_session, establish, fail, hand_over, let_go, pop_connection_event, push_error,
  release_all, report_closed, respond_closing, shared, update_connections, update_outbound,
  with_shared, error_frame, is_safe,
}
use talk_sphere.Transport.Connection.Driving.{
  accept_frame, after_receive, close_if_drained, finish, flush_if, flush_output, flush_result,
  handshake_read, inbound_phase, lacks_keys, is_ready_to_close, lease_gone, next_frame,
  plain_reported, poll, push_auth, read, read_handshake, read_result, read_sealed, read_session,
  report_plain, report_sealed, report_session, report_written, round, round_input, rounds,
  seal_output, sealed_output, sealed_read, sealed_reported, start_output, started, take_output,
  tick_session, write,
}
use talk_sphere.Transport.Failures.{Disposition, HandshakeError, local_failure, with_safe_output}
use talk_sphere.Transport.Framing.{FramingError, WireFrame}
use talk_sphere.Transport.Framing.Reader.{ReadResult, poll_frame}
use talk_sphere.Transport.Framing.Wire.{Poll, pending, ready}
use talk_sphere.Transport.Framing.Writer.{
  FrameWriter, WriteResult, is_busy, poll_flush, start_frame,
}
use talk_sphere.Transport.Handshake.{Established, Handshake, receive, sent, take_established}
use talk_sphere.Transport.Handshake.Keys.{Primitives}
use talk_sphere.Transport.Handshake.Life.{Life, reported, received, taken}
use talk_sphere.Transport.Handshake.Transcripts.{Identity}
use talk_sphere.Transport.Integrity.{
  Cryptography, DirectionKeys, Integrity, IntegrityError, seal, sent_sealed, verify,
}
use talk_sphere.Transport.Resources.{Counter, Resources, reserve}
use talk_sphere.Transport.Session.Output.{drop_frames}
use talk_sphere.Transport.Session.Receive
use talk_sphere.Transport.Session.Scheduler.{next_output, pop_event}
use talk_sphere.Transport.Session.State.{Session}
use talk_sphere.Transport.Session.Lifecycle.{close}
use talk_sphere.Transport.Session.Ownership.{
  IsOwned, Reachable-IsOwned, discard_output-IsOwned, with_handle-IsOwned,
}
use talk_sphere.Transport.Session.Reachable.{begun, connection_closed}
use talk_sphere.Transport.Integrity.Held.{IsKeptFrom, new_integrity-IsKeptFrom}
use talk_sphere.Transport.Stream.Registry.{Registry}

module _ {E S P K : Type 0} (identity : Identity) (crypto : Primitives E S P K)
    (cipher : Cryptography K) (latest : ℕ) (start : Handshake E K) where
  -- The handshake has handed over the facts of the connection.
  abbrev pub IsAuthenticated : Type 0
  IsAuthenticated =
      (h : Handshake E K) × (facts : Established K) × Life identity crypto start h
      × ((take_established h).1 ≡ some facts)

  -- The context that the facts give to a connection.
  abbrev pub context_of : ConnectionId → Established K → PeerContext
  context_of handle facts = record {
    connection = handle;
    role = facts.role;
    local_identity = facts.local_identity;
    peer_identity = facts.peer_identity;
  }

  -- A session has the context of the facts.
  abbrev pub IsSession : Option IsAuthenticated → ConnectionId → Option Session → Type 0
  IsSession e handle none = Unit {0}
  IsSession none handle (some s) = ⊥
  IsSession (some e) handle (some s) = IsOwned (context_of handle e.1) s

  -- Keys are the keys of the facts.
  abbrev pub IsKeyed : Option IsAuthenticated → Option (Integrity K) → Type 0
  IsKeyed e none = Unit {0}
  IsKeyed none (some i) = ⊥
  IsKeyed (some e) (some i) = IsKeptFrom e.1.keys.send e.1.keys.receive i

  abbrev pub IsHand : Option (Handshake E K) → Type 0
  IsHand none = Unit {0}
  IsHand (some h) = Life identity crypto start h

  -- The session and the keys come from the same facts.
  abbrev pub IsGuarded : Connection E K → Type 0
  IsGuarded c =
      (e : Option IsAuthenticated) × IsHand c.handshake
      × IsSession e c.handle c.session
      × IsKeyed e c.integrity

  pub step-IsSession :
      (s t : Session)
      → ((x : PeerContext) → IsOwned x s → IsOwned x t)
      → (e : Option IsAuthenticated) (handle : ConnectionId) → IsSession e handle (some s)
      → IsSession e handle (some t)
  step-IsSession s t k none handle g = g
  step-IsSession s t k (some e) handle g = k (context_of handle e.1) g

  pub map-IsSession :
      (f : Session → Session)
      → ((x : PeerContext) (s : Session) → IsOwned x s → IsOwned x (f s))
      → (e : Option IsAuthenticated) (handle : ConnectionId) (o : Option Session)
      → IsSession e handle o
      → IsSession e handle (elim o [ none ↦ none | some s ↦ some (f s) ])
  map-IsSession f k e handle none g = tt
  map-IsSession f k e handle (some s) g = step-IsSession s (f s) (λ x. k x s) e handle g

  pub step-IsKeyed :
      (i j : Integrity K)
      → ((a b : DirectionKeys K) → IsKeptFrom a b i → IsKeptFrom a b j)
      → (e : Option IsAuthenticated) → IsKeyed e (some i)
      → IsKeyed e (some j)
  step-IsKeyed i j k none g = g
  step-IsKeyed i j k (some e) g = k e.1.keys.send e.1.keys.receive g

  pub with_shared-IsGuarded :
      (r : Resources) (o : Option Session) (c : Connection E K) (j : IsGuarded c)
      → IsSession j.0 c.handle o
      → IsGuarded (with_shared r o c)
  with_shared-IsGuarded r none c j b = j
  with_shared-IsGuarded r (some s) c (e, hand, session, keys) b =
      (e, hand, step-IsSession s (record s { resources = r }) (λ x g. g) e c.handle b, keys)

  pub outbound-IsGuarded :
      (f : Counter → Counter) (c : Connection E K) → IsGuarded c → IsGuarded (update_outbound f c)
  unfolding update_outbound
  outbound-IsGuarded f c j = with_shared-IsGuarded _ c.session c j j.2

  pub connections-IsGuarded :
      (f : Counter → Counter) (c : Connection E K)
      → IsGuarded c
      → IsGuarded (update_connections f c)
  unfolding update_connections
  connections-IsGuarded f c j = with_shared-IsGuarded _ c.session c j j.2

  pub close_session-IsGuarded :
      (cause : Option Failure) (response : Option ErrorCode) (c : Connection E K)
      → IsGuarded c
      → IsGuarded (close_session cause response c)
  close_session-IsGuarded cause response c (e, hand, session, keys) = (
    e,
    hand,
    map-IsSession (close cause response)
        (λ x s g. Reachable-IsOwned x s g (connection_closed cause response begun)) e c.handle
        c.session session,
    keys,
  )

  pub discard_session-IsGuarded : (c : Connection E K) → IsGuarded c → IsGuarded (discard_session c)
  discard_session-IsGuarded c (e, hand, session, keys) = (
    e,
    hand,
    map-IsSession (λ s. discard_output (length s.outbound) s)
        (λ x s. discard_output-IsOwned x (length s.outbound) s) e c.handle c.session session,
    keys,
  )

  pub release_all-IsGuarded : (c : Connection E K) → IsGuarded c → IsGuarded (release_all c)
  unfolding release_all
  release_all-IsGuarded c j =
      let admitted = update_connections (let_go c.admission) c in
      let cleared = update_outbound (drop_frames c.handshake_output) admitted in
      let discarded = discard_session cleared in
      let guarded = outbound-IsGuarded (let_go c.writer.lease) discarded (
        discard_session-IsGuarded cleared (
          outbound-IsGuarded (drop_frames c.handshake_output) admitted
            (connections-IsGuarded (let_go c.admission) c j))) in
      (guarded.0, tt, guarded.2, tt)

  pub choose-IsGuarded :
      (b : Bool) (c d : Connection E K) → IsGuarded c → IsGuarded d → IsGuarded (if b then c else d)
  choose-IsGuarded true c d j k = j
  choose-IsGuarded false c d j k = k

  pub abort-IsGuarded : (d : Disposition) (c : Connection E K) → IsGuarded c → IsGuarded (abort d c)
  unfolding abort
  abort-IsGuarded d c j = choose-IsGuarded (not (is_some c.socket)) _ _ j (
      choose-IsGuarded (is_some c.session) _ _
        (release_all-IsGuarded (close_session (some d.failure) none c)
          (close_session-IsGuarded (some d.failure) none c j))
        (choose-IsGuarded (not c.closing) _ _ (release_all-IsGuarded (report_closed d.failure c) j)
          (release_all-IsGuarded c j)))

  pub push_error-IsGuarded :
      (o : Option WireFrame) (c : Connection E K) → IsGuarded c → IsGuarded (push_error o c)
  push_error-IsGuarded none c j = j
  push_error-IsGuarded (some f) c j = go (reserve (shared c).outbound (length f.payload + 12))
    where
      go :
          (x : Option Counter)
          → IsGuarded (elim x [
            | none ↦ c
            | some counter ↦ record (update_outbound (λ _. counter) c) {
              handshake_output =
                  c.handshake_output
                  ++ (record f { reservation = some (length f.payload + 12) }) ∷ [];
            }
          ])
      go none = j
      go (some counter) = outbound-IsGuarded (λ _. counter) c j

  pub respond_closing-IsGuarded :
      (failure : Failure) (code : ErrorCode) (deadline : ℕ) (c : Connection E K)
      → IsGuarded c
      → IsGuarded (respond_closing failure code deadline c)
  unfolding respond_closing
  respond_closing-IsGuarded failure code deadline c j =
      let started : Connection E K = record (update_outbound (drop_frames c.handshake_output) c) {
        deadline = deadline;
        closing = true;
        handshake_output = [];
      } in
      let k = outbound-IsGuarded (drop_frames c.handshake_output) c j in
      choose-IsGuarded (is_some started.session) _ _
        (close_session-IsGuarded (some failure) (some code) started k)
        (push_error-IsGuarded (error_frame code) (report_closed failure started) k)

  pub fail-IsGuarded :
      (d : Disposition) (now : ℕ) (c : Connection E K)
      → IsGuarded c
      → IsGuarded (fail latest d now c)
  unfolding fail
  fail-IsGuarded d now c j =
      go (with_safe_output (is_safe c) d).response (add_timeout latest now c.timeout)
    where
      go :
          (o : Option ErrorCode) (t : Option ℕ)
          → IsGuarded (elim o [
            | none ↦ abort (with_safe_output (is_safe c) d) c
            | some code ↦ elim t [
              | none ↦ abort (with_safe_output (is_safe c) d) c
              | some deadline ↦
                  respond_closing (with_safe_output (is_safe c) d).failure code deadline c
            ]
          ])
      go none t = abort-IsGuarded _ c j
      go (some code) none = abort-IsGuarded _ c j
      go (some code) (some deadline) = respond_closing-IsGuarded _ code deadline c j

  pub hand_over-IsGuarded :
      (h : Handshake E K) (c : Connection E K)
      → Life identity crypto start h
      → IsGuarded c
      → IsGuarded (hand_over (take_established h) c)
  hand_over-IsGuarded h c life (own, hand, session, keys) =
      go (take_established h) refl (taken life)
    where
      go :
          (x : Handshake E K × Option (Established K))
          → take_established h ≡ x
          → Life identity crypto start (take_established h).0
          → IsGuarded (hand_over x c)
      go (g, none) e after = (
        own,
        subst (λ (x : Handshake E K × Option (Established K)). Life identity crypto start x.0) e
            after,
        session,
        keys,
      )
      go (g, some facts) e after =
          let evidence : IsAuthenticated =
            (h, facts, life, ap (λ (x : Handshake E K × Option (Established K)). x.1) e) in
          (
            some evidence,
            tt,
            with_handle-IsOwned c.handle facts.role facts.local_identity facts.peer_identity
                (shared c),
            new_integrity-IsKeptFrom facts.keys.send facts.keys.receive,
          )

  pub establish-IsGuarded : (c : Connection E K) → IsGuarded c → IsGuarded (establish c)
  unfolding establish
  establish-IsGuarded c j = go c.handshake j.1
    where
      go :
          (o : Option (Handshake E K))
          → IsHand o
          → IsGuarded (elim o [ none ↦ c | some h ↦ hand_over (take_established h) c ])
      go none life = j
      go (some h) life = hand_over-IsGuarded h c life j

  pub finish-IsGuarded : (c : Connection E K) → IsGuarded c → IsGuarded (finish c)
  finish-IsGuarded c j =
      release_all-IsGuarded (close_session none none c) (close_session-IsGuarded none none c j)
