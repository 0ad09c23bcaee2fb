-- ===== src/Transport/Connection/Guard/Input.antt =====
-- Reading keeps the tie between a connection's session and its handshake.
use talk_sphere.Base.{
  ℕ, ◌+◌, Bool, false, not, [], ◌∷◌, ◌++◌, Option, none, some, Result, ok, err, if◌then◌else◌,
  length,
}
use talk_sphere.Transport.Api.{FailureCode}
use talk_sphere.Transport.Connection.{Connection, Link, abort, shared, update_outbound}
use talk_sphere.Transport.Connection.Driving.{
  accept_frame, after_receive, finish, handshake_read, inbound_phase, lacks_keys, is_ready_to_close,
  push_auth, read, read_handshake, read_result, read_sealed, read_session, sealed_read,
}
use talk_sphere.Transport.Failures.{HandshakeError, local_failure}
use talk_sphere.Transport.Framing.{WireFrame}
use talk_sphere.Transport.Framing.Reader.{ReadResult, poll_frame}
use talk_sphere.Transport.Framing.Wire.{pending, ready}
use talk_sphere.Transport.Framing.Writer.{is_busy}
use talk_sphere.Transport.Handshake.{Handshake, receive}
use talk_sphere.Transport.Handshake.Keys.{Primitives}
use talk_sphere.Transport.Handshake.Life.{Life, received}
use talk_sphere.Transport.Handshake.Transcripts.{Identity}
use talk_sphere.Transport.Integrity.{Cryptography, Integrity, IntegrityError, verify}
use talk_sphere.Transport.Resources.{Counter, reserve}
use talk_sphere.Transport.Session.Receive
use talk_sphere.Transport.Session.State.{Session}
use talk_sphere.Transport.Session.Ownership.{Reachable-IsOwned}
use talk_sphere.Transport.Session.Reachable
use talk_sphere.Transport.Integrity.Held.{verify-IsKeptFrom}
use talk_sphere.Transport.Stream.Registry.{Registry}
use talk_sphere.Transport.Connection.Guard.{
  IsSession, IsKeyed, IsHand, IsGuarded, step-IsSession, step-IsKeyed, outbound-IsGuarded,
  release_all-IsGuarded, choose-IsGuarded, abort-IsGuarded, fail-IsGuarded, finish-IsGuarded,
}
use talk_sphere.Transport.Connection.Guard.Output.{choose_pair-IsGuarded}

module _ {E S P K : Type 0} (identity : Identity) (crypto : Primitives E S P K)
    (cipher : Cryptography K) (latest : ℕ) (start : Handshake E K) where
  pub push_auth-IsGuarded :
      (f : WireFrame) (c : Connection E K)
      → IsGuarded identity crypto cipher latest start c
      → IsGuarded identity crypto cipher latest start (push_auth identity crypto cipher latest f c)
  push_auth-IsGuarded f c j = go (reserve (shared c).outbound (length f.payload + 12))
    where
      go :
          (x : Option Counter)
          → IsGuarded identity crypto cipher latest start (elim x [
            | none ↦ abort (local_failure FailureCode.resource_limit none) c
            | some counter ↦ record (update_outbound (λ _. counter) c) {
              handshake_output =
                  c.handshake_output
                  ++ (record f { reservation = some (length f.payload + 12) }) ∷ [];
            }
          ])
      go none = abort-IsGuarded identity crypto cipher latest start _ c j
      go (some counter) = outbound-IsGuarded identity crypto cipher latest start (λ _. counter) c j

  pub read_handshake-IsGuarded :
      (now : ℕ) (f : WireFrame) (h : Handshake E K) (c : Connection E K)
      → Life identity crypto start h
      → IsGuarded identity crypto cipher latest start c
      → IsGuarded identity crypto cipher latest start
          (read_handshake identity crypto cipher latest now f h c)
  unfolding read_handshake
  read_handshake-IsGuarded now f h c life j = go (receive identity crypto h f) (received f life)
    where
      go :
          (x : Handshake E K × Result (Option WireFrame) HandshakeError)
          → Life identity crypto start x.0
          → IsGuarded identity crypto cipher latest start
              (handshake_read identity crypto cipher latest now c x)
      go (g, err e) after =
          fail-IsGuarded identity crypto cipher latest start _ now (record c { handshake = some g })
            (j.0, after, j.2, j.3)
      go (g, ok none) after = (j.0, after, j.2, j.3)
      go (g, ok (some auth)) after =
          push_auth-IsGuarded auth (record c { handshake = some g }) (j.0, after, j.2, j.3)

  pub after_receive-IsGuarded :
      (now : ℕ) (s : Session) (c : Connection E K)
      → IsGuarded identity crypto cipher latest start c
      → IsGuarded identity crypto cipher latest start
          (after_receive identity crypto cipher latest now s c)
  after_receive-IsGuarded now s c j =
      choose-IsGuarded identity crypto cipher latest start (not s.is_closed) _ _ j (
        choose-IsGuarded identity crypto cipher latest start (is_busy c.writer) _ _
          (release_all-IsGuarded identity crypto cipher latest start c j) j)

  pub read_session-IsGuarded :
      (now : ℕ) (registry : Registry) (f : WireFrame) (c : Connection E K)
      → IsGuarded identity crypto cipher latest start c
      → IsGuarded identity crypto cipher latest start
          (read_session identity crypto cipher latest now registry f c)
  unfolding read_session
  read_session-IsGuarded now registry f c j = go c.session j.2
    where
      go :
          (o : Option Session)
          → IsSession identity crypto cipher latest start j.0 c.handle o
          → IsGuarded identity crypto cipher latest start (elim o [
            | none ↦ c
            | some s ↦
                (let t = (Receive.receive f.header f.payload registry now s).0 in
                  after_receive identity crypto cipher latest now t (record c { session = some t }))
          ])
      go none b = j
      go (some s) b =
          let t = (Receive.receive f.header f.payload registry now s).0 in
          after_receive-IsGuarded now t (record c { session = some t })
            (
              j.0,
              j.1,
              step-IsSession identity crypto cipher latest start s t
                  (λ x g.
                    Reachable-IsOwned x s g
                      (Reachable.received f.header f.payload registry now Reachable.begun))
                  j.0 c.handle b,
              j.3,
            )

  pub read_sealed-IsGuarded :
      (now : ℕ) (registry : Registry) (f : WireFrame) (i : Integrity K) (c : Connection E K)
      (j : IsGuarded identity crypto cipher latest start c)
      → IsKeyed identity crypto cipher latest start j.0 (some i)
      → IsGuarded identity crypto cipher latest start
          (read_sealed identity crypto cipher latest now registry f i c)
  unfolding read_sealed
  read_sealed-IsGuarded now registry f i c j held = go (verify cipher f i) (
      step-IsKeyed identity crypto cipher latest start i (verify cipher f i).0
        (λ x y. verify-IsKeptFrom cipher f x y i) j.0 held)
    where
      go :
          (x : Integrity K × Result WireFrame IntegrityError)
          → IsKeyed identity crypto cipher latest start j.0 (some x.0)
          → IsGuarded identity crypto cipher latest start
              (sealed_read identity crypto cipher latest now registry c x)
      go (k, err e) kept =
          abort-IsGuarded identity crypto cipher latest start _ (record c { integrity = some k })
            (j.0, j.1, j.2, kept)
      go (k, ok g) kept =
          read_session-IsGuarded now registry g (record c { integrity = some k })
            (j.0, j.1, j.2, kept)

  pub accept_frame-IsGuarded :
      (now : ℕ) (registry : Registry) (f : WireFrame) (c : Connection E K)
      → IsGuarded identity crypto cipher latest start c
      → IsGuarded identity crypto cipher latest start
          (accept_frame identity crypto cipher latest now registry f c)
  unfolding accept_frame
  accept_frame-IsGuarded now registry f c j = go c.handshake c.integrity j.1 j.3
    where
      go :
          (o : Option (Handshake E K)) (i : Option (Integrity K))
          → IsHand identity crypto cipher latest start o
          → IsKeyed identity crypto cipher latest start j.0 i
          → IsGuarded identity crypto cipher latest start (elim o [
            | some h ↦ read_handshake identity crypto cipher latest now f h c
            | none ↦ elim i [
              | none ↦ c
              | some i ↦ read_sealed identity crypto cipher latest now registry f i c
            ]
          ])
      go none none life b = j
      go none (some i) life b = read_sealed-IsGuarded now registry f i c j b
      go (some h) i life b = read_handshake-IsGuarded now f h c life j

  pub read_result-IsGuarded :
      (now : ℕ) (registry : Registry) (x : ReadResult) (c : Connection E K)
      → IsGuarded identity crypto cipher latest start c
      → IsGuarded identity crypto cipher latest start
          (read_result identity crypto cipher latest now registry x c).0
  unfolding read_result
  read_result-IsGuarded now registry pending c j = j
  read_result-IsGuarded now registry (ready (err e)) c j =
      fail-IsGuarded identity crypto cipher latest start _ now c j
  read_result-IsGuarded now registry (ready (ok none)) c j =
      choose-IsGuarded identity crypto cipher latest start (is_ready_to_close c) (finish c) _
        (finish-IsGuarded identity crypto cipher latest start c j)
        (abort-IsGuarded identity crypto cipher latest start _ c j)
  read_result-IsGuarded now registry (ready (ok (some f))) c j =
      accept_frame-IsGuarded now registry f c j

  pub read-IsGuarded :
      (now : ℕ) (registry : Registry) (c : Connection E K)
      → IsGuarded identity crypto cipher latest start c
      → IsGuarded identity crypto cipher latest start
          (read identity crypto cipher latest now registry c).0
  unfolding read
  read-IsGuarded now registry c j = go c.socket
    where
      go :
          (o : Option Link)
          → IsGuarded identity crypto cipher latest start
              (if lacks_keys identity crypto cipher latest
                  (inbound_phase identity crypto cipher latest c)
                  c.integrity
                then (c, false)
                else elim o as (λ x. Connection E K × Bool) [
                  | none ↦ (c, false)
                  | some link ↦
                      (let (r, rest, result) =
                          poll_frame
                            (inbound_phase identity crypto cipher latest c)
                            c.reader
                            link.reads in
                        read_result identity crypto cipher latest now registry result
                          (record c { reader = r; socket = some (record link { reads = rest }) }))
                ]).0
      go none =
          choose_pair-IsGuarded identity crypto cipher latest start
            (lacks_keys identity crypto cipher latest
              (inbound_phase identity crypto cipher latest c) c.integrity)
            _ _ j j
      go (some link) =
          let (r, rest, result) =
            poll_frame (inbound_phase identity crypto cipher latest c) c.reader link.reads in
          choose_pair-IsGuarded identity crypto cipher latest start
            (lacks_keys identity crypto cipher latest
              (inbound_phase identity crypto cipher latest c) c.integrity)
            (c, false)
            (read_result identity crypto cipher latest now registry result
              (record c { reader = r; socket = some (record link { reads = rest }) }))
            j
            (read_result-IsGuarded now registry result
              (record c { reader = r; socket = some (record link { reads = rest }) }) j)
