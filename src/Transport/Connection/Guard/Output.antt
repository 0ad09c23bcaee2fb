-- ===== src/Transport/Connection/Guard/Output.antt =====
-- Writing keeps the tie between a connection's session and its handshake.
use talk_sphere.Base.{
  ℕ, Bool, true, false, not, List, [], ◌∷◌, ◌++◌, Option, none, some, is_some, Result, ok, err,
  if◌then◌else◌,
}
use talk_sphere.Transport.Codec.Frames.{FrameProtection, FrameType}
use talk_sphere.Transport.Connection.{Connection, Link, let_go, release_all, update_outbound}
use talk_sphere.Transport.Connection.Driving.{
  flush_if, flush_output, flush_result, lease_gone, next_frame, plain_reported, report_plain,
  report_sealed, report_session, report_written, seal_output, sealed_output, sealed_reported,
  start_output, started, take_output, write,
}
use talk_sphere.Transport.Failures.{HandshakeError}
use talk_sphere.Transport.Framing.{FramingError, WireFrame}
use talk_sphere.Transport.Framing.Wire.{Poll, pending, ready}
use talk_sphere.Transport.Framing.Writer.{
  FrameWriter, WriteResult, is_busy, poll_flush, start_frame,
}
use talk_sphere.Transport.Handshake.{Handshake, sent}
use talk_sphere.Transport.Handshake.Keys.{Primitives}
use talk_sphere.Transport.Handshake.Life.{Life, reported}
use talk_sphere.Transport.Handshake.Transcripts.{Identity}
use talk_sphere.Transport.Integrity.{Cryptography, Integrity, IntegrityError, seal, sent_sealed}
use talk_sphere.Transport.Session.Scheduler.{next_output}
use talk_sphere.Transport.Session.State.{Session}
use talk_sphere.Transport.Session.Lifecycle
use talk_sphere.Transport.Session.Ownership.{Reachable-IsOwned}
use talk_sphere.Transport.Session.Reachable.{begun, output_taken, output_written}
use talk_sphere.Transport.Integrity.Held.{seal-IsKeptFrom, sent_sealed-IsKeptFrom}
use talk_sphere.Transport.Connection.Guard.{
  IsSession, IsKeyed, IsHand, IsGuarded, map-IsSession, step-IsSession, step-IsKeyed,
  outbound-IsGuarded, release_all-IsGuarded, choose-IsGuarded, abort-IsGuarded, fail-IsGuarded,
}

module _ {E S P K : Type 0} (identity : Identity) (crypto : Primitives E S P K)
    (cipher : Cryptography K) (latest : ℕ) (start : Handshake E K) where
  pub take_output-IsGuarded :
      (c : Connection E K)
      → IsGuarded identity crypto cipher latest start c
      → IsGuarded identity crypto cipher latest start (take_output c).0
  unfolding take_output
  take_output-IsGuarded c (e, hand, session, keys) = go c.session c.handshake_output session
    where
      go :
          (o : Option Session) (fs : List WireFrame)
          → IsSession identity crypto cipher latest start e c.handle o
          → IsGuarded identity crypto cipher latest start
              (elim o as (λ x. Connection E K × Option WireFrame) [
                | some s ↦ (record c { session = some (next_output s).0 }, (next_output s).1)
                | none ↦ elim fs [
                  | [] ↦ (c, none)
                  | f ∷ rest ↦ (record c { handshake_output = rest }, some f)
                ]
              ]).0
      go none [] b = (e, hand, session, keys)
      go none (f ∷ fs) b = (e, hand, session, keys)
      go (some s) fs b = (
        e,
        hand,
        step-IsSession identity crypto cipher latest start s (next_output s).0
            (λ x g. Reachable-IsOwned x s g (output_taken begun)) e c.handle b,
        keys,
      )

  pub start_output-IsGuarded :
      (f : WireFrame) (phase : FrameProtection) (c : Connection E K)
      → IsGuarded identity crypto cipher latest start c
      → IsGuarded identity crypto cipher latest start (start_output f phase c).0
  unfolding start_output
  start_output-IsGuarded f phase c j = go (start_frame f phase c.writer)
    where
      go :
          (x : FrameWriter × Result (Unit {0}) FramingError)
          → IsGuarded identity crypto cipher latest start (started f phase c x).0
      go (w, err e) =
          abort-IsGuarded identity crypto cipher latest start _
            (update_outbound (let_go f.reservation) c)
            (outbound-IsGuarded identity crypto cipher latest start (let_go f.reservation) c j)
      go (w, ok u) = j

  pub report_session-IsGuarded :
      (kind : FrameType) (id : ℕ) (c : Connection E K)
      → IsGuarded identity crypto cipher latest start c
      → IsGuarded identity crypto cipher latest start (report_session kind id c)
  report_session-IsGuarded kind id c (e, hand, session, keys) = (
    e,
    hand,
    map-IsSession identity crypto cipher latest start (Lifecycle.sent kind id)
        (λ x s g. Reachable-IsOwned x s g (output_written kind id begun)) e c.handle c.session
        session,
    keys,
  )

  pub report_sealed-IsGuarded :
      (kind : FrameType) (id : ℕ) (c : Connection E K)
      → IsGuarded identity crypto cipher latest start c
      → IsGuarded identity crypto cipher latest start (report_sealed kind id c).0
  unfolding report_sealed
  report_sealed-IsGuarded kind id c j = go c.integrity j.3
    where
      stored :
          (x : Integrity K × Result (Unit {0}) IntegrityError)
          → IsKeyed identity crypto cipher latest start j.0 (some x.0)
          → IsGuarded identity crypto cipher latest start (sealed_reported kind id c x).0
      stored (i, err e) kept =
          abort-IsGuarded identity crypto cipher latest start _ (record c { integrity = some i })
            (j.0, j.1, j.2, kept)
      stored (i, ok u) kept =
          report_session-IsGuarded kind id (record c { integrity = some i }) (j.0, j.1, j.2, kept)

      go :
          (o : Option (Integrity K))
          → IsKeyed identity crypto cipher latest start j.0 o
          → IsGuarded identity crypto cipher latest start
              (elim o as (λ x. Connection E K × Bool) [
                | none ↦ (report_session kind id c, true)
                | some i ↦ sealed_reported kind id c (sent_sealed i)
              ]).0
      go none b = report_session-IsGuarded kind id c j
      go (some i) b = stored (sent_sealed i) (
          step-IsKeyed identity crypto cipher latest start i (sent_sealed i).0
            (λ x y. sent_sealed-IsKeptFrom x y i) j.0 b)

  pub report_plain-IsGuarded :
      (kind : FrameType) (id now : ℕ) (c : Connection E K)
      → IsGuarded identity crypto cipher latest start c
      → IsGuarded identity crypto cipher latest start (report_plain latest kind id now c).0
  unfolding report_plain
  report_plain-IsGuarded kind id now c j = go c.handshake c.closing j.1
    where
      stored :
          (x : Handshake E K × Result (Unit {0}) HandshakeError)
          → Life identity crypto start x.0
          → IsGuarded identity crypto cipher latest start (plain_reported latest kind id now c x).0
      stored (g, err e) life =
          fail-IsGuarded identity crypto cipher latest start _ now (record c { handshake = some g })
            (j.0, life, j.2, j.3)
      stored (g, ok u) life =
          report_session-IsGuarded kind id (record c { handshake = some g }) (j.0, life, j.2, j.3)

      go :
          (o : Option (Handshake E K)) (b : Bool)
          → IsHand identity crypto cipher latest start o
          → IsGuarded identity crypto cipher latest start
              (elim o as (λ x. Connection E K × Bool) [
                | none ↦ (report_session kind id c, true)
                | some h ↦
                    if b
                    then (report_session kind id c, true)
                    else plain_reported latest kind id now c (sent kind h)
              ]).0
      go none b life = report_session-IsGuarded kind id c j
      go (some h) true life = report_session-IsGuarded kind id c j
      go (some h) false life = stored (sent kind h) (reported kind life)

  pub report_written-IsGuarded :
      (now : ℕ) (c : Connection E K)
      → IsGuarded identity crypto cipher latest start c
      → IsGuarded identity crypto cipher latest start (report_written latest now c).0
  unfolding report_written
  report_written-IsGuarded now c j = go c.writing
    where
      go :
          (o : Option (FrameType × ℕ × FrameProtection))
          → IsGuarded identity crypto cipher latest start
              (elim o as (λ x. Connection E K × Bool) [
                | none ↦ (c, true)
                | some (kind, id, FrameProtection.tagged) ↦
                    report_sealed kind id (record c { writing = none })
                | some (kind, id, FrameProtection.untagged) ↦
                    report_plain latest kind id now (record c { writing = none })
              ]).0
      go none = j
      go (some (kind, id, FrameProtection.tagged)) =
          report_sealed-IsGuarded kind id (record c { writing = none }) j
      go (some (kind, id, FrameProtection.untagged)) =
          report_plain-IsGuarded kind id now (record c { writing = none }) j

  pub flush_result-IsGuarded :
      (now : ℕ) (x : WriteResult) (c : Connection E K)
      → IsGuarded identity crypto cipher latest start c
      → IsGuarded identity crypto cipher latest start (flush_result latest now x c).0
  unfolding flush_result
  flush_result-IsGuarded now pending c j = j
  flush_result-IsGuarded now (ready (err e)) c j =
      abort-IsGuarded identity crypto cipher latest start _ c j
  flush_result-IsGuarded now (ready (ok u)) c j = report_written-IsGuarded now c j

  pub flush_output-IsGuarded :
      (now : ℕ) (c : Connection E K)
      → IsGuarded identity crypto cipher latest start c
      → IsGuarded identity crypto cipher latest start (flush_output latest now c).0
  unfolding flush_output
  flush_output-IsGuarded now c j = go c.socket
    where
      go :
          (o : Option Link)
          → IsGuarded identity crypto cipher latest start
              (elim o as (λ x. Connection E K × Bool) [
                | none ↦ (c, false)
                | some link ↦
                    (let (w, rest, out, result) = poll_flush c.writer link.writes in
                      flush_result latest now result
                        (record (update_outbound (let_go (lease_gone c.writer w)) c) {
                          writer = w;
                          socket = some (record link { writes = rest; taken = link.taken ++ out });
                        }))
              ]).0
      go none = j
      go (some link) =
          let (w, rest, out, result) = poll_flush c.writer link.writes in
          flush_result-IsGuarded now result
            (record (update_outbound (let_go (lease_gone c.writer w)) c) {
              writer = w;
              socket = some (record link { writes = rest; taken = link.taken ++ out });
            })
            (outbound-IsGuarded identity crypto cipher latest start (let_go (lease_gone c.writer w))
              c j)

  pub seal_output-IsGuarded :
      (f : WireFrame) (c : Connection E K)
      → IsGuarded identity crypto cipher latest start c
      → IsGuarded identity crypto cipher latest start
          (seal_output identity crypto cipher latest f c).0
  unfolding seal_output
  seal_output-IsGuarded f c j = go c.integrity j.3
    where
      stored :
          (x : Integrity K × Result WireFrame IntegrityError)
          → IsKeyed identity crypto cipher latest start j.0 (some x.0)
          → IsGuarded identity crypto cipher latest start
              (sealed_output identity crypto cipher latest f c x).0
      stored (i, err e) kept =
          abort-IsGuarded identity crypto cipher latest start _
            (update_outbound (let_go f.reservation) (record c { integrity = some i }))
            (outbound-IsGuarded identity crypto cipher latest start (let_go f.reservation)
              (record c { integrity = some i }) (j.0, j.1, j.2, kept))
      stored (i, ok g) kept =
          start_output-IsGuarded g FrameProtection.tagged (record c { integrity = some i })
            (j.0, j.1, j.2, kept)

      go :
          (o : Option (Integrity K))
          → IsKeyed identity crypto cipher latest start j.0 o
          → IsGuarded identity crypto cipher latest start
              (elim o as (λ x. Connection E K × Bool) [
                | none ↦ start_output f FrameProtection.untagged c
                | some i ↦ sealed_output identity crypto cipher latest f c (seal cipher f i)
              ]).0
      go none b = start_output-IsGuarded f FrameProtection.untagged c j
      go (some i) b = stored (seal cipher f i) (
          step-IsKeyed identity crypto cipher latest start i (seal cipher f i).0
            (λ x y. seal-IsKeptFrom cipher f x y i) j.0 b)

  pub next_frame-IsGuarded :
      (x : Connection E K × Option WireFrame)
      → IsGuarded identity crypto cipher latest start x.0
      → IsGuarded identity crypto cipher latest start (next_frame identity crypto cipher latest x).0
  unfolding next_frame
  next_frame-IsGuarded (c, none) j =
      choose-IsGuarded identity crypto cipher latest start c.closing (release_all c) c
        (release_all-IsGuarded identity crypto cipher latest start c j) j
  next_frame-IsGuarded (c, some f) j = seal_output-IsGuarded f c j

  pub choose_pair-IsGuarded :
      (b : Bool) (x y : Connection E K × Bool)
      → IsGuarded identity crypto cipher latest start x.0
      → IsGuarded identity crypto cipher latest start y.0
      → IsGuarded identity crypto cipher latest start (if b then x else y).0
  choose_pair-IsGuarded true x y j k = j
  choose_pair-IsGuarded false x y j k = k

  pub choose_poll :
      (b : Bool) (x y : Connection E K × Poll (Unit {0}))
      → IsGuarded identity crypto cipher latest start x.0
      → IsGuarded identity crypto cipher latest start y.0
      → IsGuarded identity crypto cipher latest start (if b then x else y).0
  choose_poll true x y j k = j
  choose_poll false x y j k = k

  pub write-IsGuarded :
      (now : ℕ) (c : Connection E K)
      → IsGuarded identity crypto cipher latest start c
      → IsGuarded identity crypto cipher latest start (write identity crypto cipher latest now c).0
  unfolding write
  write-IsGuarded now c j = choose_pair-IsGuarded (not (is_some c.socket)) _ _ j (
      choose_pair-IsGuarded (is_busy c.writer) _ _ (flush_output-IsGuarded now c j) (
        go (next_frame identity crypto cipher latest (take_output c))
          (next_frame-IsGuarded (take_output c) (take_output-IsGuarded c j))))
    where
      go :
          (x : Connection E K × Bool)
          → IsGuarded identity crypto cipher latest start x.0
          → IsGuarded identity crypto cipher latest start (flush_if latest now x).0
      go (d, true) k = flush_output-IsGuarded now d k
      go (d, false) k = k
