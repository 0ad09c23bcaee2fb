-- ===== src/Transport/Connection/Driving.antt =====
-- Frame output and input of one connection, and the poll that drives them: connection/io.rs and
-- `Connection::poll`.
use talk_sphere.Base.{
  ℕ, zero, suc, ◌+◌, Bool, true, false, not, ◌&&◌, ◌||◌, [], ◌∷◌, ◌++◌, Option, none, some, is_some,
  Result, ok, err, leb, if◌then◌else◌, length,
}
use talk_sphere.Transport.Api.{FailureCode}
use talk_sphere.Transport.Codec.Frames.{FrameProtection, FrameType}
use talk_sphere.Transport.Connection.{
  Connection, abort, add_timeout, close_session, establish, fail, let_go, release_all, shared,
  update_outbound,
}
use talk_sphere.Transport.Failures.{
  HandshakeError, framing_disposition, handshake_disposition, integrity_disposition, local_failure,
}
use talk_sphere.Transport.Framing.{FramingError, WireFrame}
use talk_sphere.Transport.Framing.Reader.{ReadResult, poll_frame}
use talk_sphere.Transport.Framing.Wire.{Poll, pending, ready}
use talk_sphere.Transport.Framing.Writer.{
  FrameWriter, WriteResult, is_busy, poll_flush, start_frame,
}
use talk_sphere.Transport.Handshake.{Handshake, receive, receive_protection, sent}
use talk_sphere.Transport.Handshake.Keys.{Primitives}
use talk_sphere.Transport.Handshake.Transcripts.{Identity}
use talk_sphere.Transport.Integrity.{
  Cryptography, Integrity, IntegrityError, seal, sent_sealed, verify,
}
use talk_sphere.Transport.Resources.{reserve}
use talk_sphere.Transport.Session.Drain.{ready_to_close}
use talk_sphere.Transport.Session.Lifecycle
use talk_sphere.Transport.Session.Ping.{tick}
use talk_sphere.Transport.Session.Receive
use talk_sphere.Transport.Session.Scheduler.{next_output}
use talk_sphere.Transport.Session.State.{Session}
use talk_sphere.Transport.Stream.Registry.{Registry}

-- The lease that a writer has let go of.
abbrev pub lease_gone : FrameWriter → FrameWriter → Option ℕ
lease_gone before after = if is_some after.lease then none else before.lease

module _ {E K : Type 0} where
  -- The next frame to write, taken off its queue.
  unfoldable pub take_output : Connection E K → Connection E K × Option WireFrame
  take_output c = elim c.session [
    | some s ↦ (record c { session = some (next_output s).0 }, (next_output s).1)
    | none ↦ elim c.handshake_output [
      | [] ↦ (c, none)
      | f ∷ rest ↦ (record c { handshake_output = rest }, some f)
    ]
  ]

  abbrev pub is_ready_to_close : Connection E K → Bool
  is_ready_to_close c =
      elim c.session [ none ↦ false | some s ↦ ready_to_close s ] && not (is_busy c.writer)

  -- A drained session ends without a failure.
  abbrev pub finish : Connection E K → Connection E K
  finish c = release_all (close_session none none c)

  -- The frame is moved into the writer, or dropped.
  abbrev pub started :
      WireFrame
      → FrameProtection
      → Connection E K
      → FrameWriter × Result (Unit {0}) FramingError
      → Connection E K × Bool
  started f phase c (w, err e) =
      (abort (framing_disposition e) (update_outbound (let_go f.reservation) c), false)
  started f phase c (w, ok u) = (
    record c { writer = w; writing = some (f.header.frame_type, f.header.stream_id, phase) },
    true,
  )

  unfoldable pub start_output : WireFrame → FrameProtection → Connection E K → Connection E K × Bool
  start_output f phase c = started f phase c (start_frame f phase c.writer)

  -- What follows a frame that is completely written.
  abbrev pub report_session : FrameType → ℕ → Connection E K → Connection E K
  report_session kind id c = record c {
    session = elim c.session [ none ↦ none | some s ↦ some (Lifecycle.sent kind id s) ];
  }

  abbrev pub sealed_reported :
      FrameType
      → ℕ
      → Connection E K
      → Integrity K × Result (Unit {0}) IntegrityError
      → Connection E K × Bool
  sealed_reported kind id c (j, err e) =
      (abort (integrity_disposition e) (record c { integrity = some j }), false)
  sealed_reported kind id c (j, ok u) =
      (report_session kind id (record c { integrity = some j }), true)

  unfoldable pub report_sealed : FrameType → ℕ → Connection E K → Connection E K × Bool
  report_sealed kind id c = elim c.integrity [
    | none ↦ (report_session kind id c, true)
    | some i ↦ sealed_reported kind id c (sent_sealed i)
  ]

  abbrev pub plain_reported :
      ℕ
      → FrameType
      → ℕ
      → ℕ
      → Connection E K
      → Handshake E K × Result (Unit {0}) HandshakeError
      → Connection E K × Bool
  plain_reported latest kind id now c (g, err e) =
      (fail latest (handshake_disposition e) now (record c { handshake = some g }), false)
  plain_reported latest kind id now c (g, ok u) =
      (report_session kind id (record c { handshake = some g }), true)

  unfoldable pub report_plain : ℕ → FrameType → ℕ → ℕ → Connection E K → Connection E K × Bool
  report_plain latest kind id now c = elim c.handshake [
    | none ↦ (report_session kind id c, true)
    | some h ↦
        if c.closing
        then (report_session kind id c, true)
        else plain_reported latest kind id now c (sent kind h)
  ]

  unfoldable pub report_written : ℕ → ℕ → Connection E K → Connection E K × Bool
  report_written latest now c = elim c.writing [
    | none ↦ (c, true)
    | some (kind, id, FrameProtection.tagged) ↦ report_sealed kind id (record c { writing = none })
    | some (kind, id, FrameProtection.untagged) ↦
        report_plain latest kind id now (record c { writing = none })
  ]

  unfoldable pub flush_result : ℕ → ℕ → WriteResult → Connection E K → Connection E K × Bool
  flush_result latest now pending c = (c, false)
  flush_result latest now (ready (err e)) c = (abort (framing_disposition e) c, false)
  flush_result latest now (ready (ok u)) c = report_written latest now c

  unfoldable pub flush_output : ℕ → ℕ → Connection E K → Connection E K × Bool
  flush_output latest now c = elim c.socket [
    | none ↦ (c, false)
    | some link ↦
        (let (w, rest, out, result) = poll_flush c.writer link.writes in
          flush_result latest now result
            (record (update_outbound (let_go (lease_gone c.writer w)) c) {
              writer = w;
              socket = some (record link { writes = rest; taken = link.taken ++ out });
            }))
  ]

  abbrev pub flush_if : ℕ → ℕ → Connection E K × Bool → Connection E K × Bool
  flush_if latest now (c, true) = flush_output latest now c
  flush_if latest now (c, false) = (c, false)

module _ {E S P K : Type 0} (identity : Identity) (crypto : Primitives E S P K)
    (cipher : Cryptography K) (latest : ℕ) where
  abbrev pub sealed_output :
      WireFrame
      → Connection E K
      → Integrity K × Result WireFrame IntegrityError
      → Connection E K × Bool
  sealed_output f c (j, err e) = (
    abort (integrity_disposition e)
        (update_outbound (let_go f.reservation) (record c { integrity = some j })),
    false,
  )
  sealed_output f c (j, ok g) =
      start_output g FrameProtection.tagged (record c { integrity = some j })

  unfoldable pub seal_output : WireFrame → Connection E K → Connection E K × Bool
  seal_output f c = elim c.integrity [
    | none ↦ start_output f FrameProtection.untagged c
    | some i ↦ sealed_output f c (seal cipher f i)
  ]

  unfoldable pub next_frame : Connection E K × Option WireFrame → Connection E K × Bool
  next_frame (c, none) = (if c.closing then release_all c else c, false)
  next_frame (c, some f) = seal_output f c

  -- `Connection::write`
  unfoldable pub write : ℕ → Connection E K → Connection E K × Bool
  write now c =
      if not (is_some c.socket)
      then (c, false)
      else if is_busy c.writer
      then flush_output latest now c
      else flush_if latest now (next_frame (take_output c))

  -- The answer to a HELLO within the outbound budget.
  abbrev pub push_auth : WireFrame → Connection E K → Connection E K
  push_auth f c = elim (reserve (shared c).outbound (length f.payload + 12)) [
    | none ↦ abort (local_failure FailureCode.resource_limit none) c
    | some counter ↦ record (update_outbound (λ _. counter) c) {
      handshake_output =
          c.handshake_output ++ (record f { reservation = some (length f.payload + 12) }) ∷ [];
    }
  ]

  abbrev pub handshake_read :
      ℕ → Connection E K → Handshake E K × Result (Option WireFrame) HandshakeError → Connection E K
  handshake_read now c (g, err e) =
      fail latest (handshake_disposition e) now (record c { handshake = some g })
  handshake_read now c (g, ok none) = record c { handshake = some g }
  handshake_read now c (g, ok (some auth)) = push_auth auth (record c { handshake = some g })

  unfoldable pub read_handshake : ℕ → WireFrame → Handshake E K → Connection E K → Connection E K
  read_handshake now f h c = handshake_read now c (receive identity crypto h f)

  -- A session that the frame has closed ends the connection, after its last output where the writer is
  -- idle.
  abbrev pub after_receive : ℕ → Session → Connection E K → Connection E K
  after_receive now s c =
      if not s.is_closed then c else if is_busy c.writer then release_all c else record c {
        closing = true;
        deadline = elim (add_timeout latest now c.timeout) [ none ↦ now | some d ↦ d ];
      }

  unfoldable pub read_session : ℕ → Registry → WireFrame → Connection E K → Connection E K
  read_session now registry f c = elim c.session [
    | none ↦ c
    | some s ↦
        (let t = (Receive.receive f.header f.payload registry now s).0 in
          after_receive now t (record c { session = some t }))
  ]

  abbrev pub sealed_read :
      ℕ → Registry → Connection E K → Integrity K × Result WireFrame IntegrityError → Connection E K
  sealed_read now registry c (j, err e) =
      abort (integrity_disposition e) (record c { integrity = some j })
  sealed_read now registry c (j, ok g) =
      read_session now registry g (record c { integrity = some j })

  unfoldable pub read_sealed :
      ℕ → Registry → WireFrame → Integrity K → Connection E K → Connection E K
  read_sealed now registry f i c = sealed_read now registry c (verify cipher f i)

  unfoldable pub accept_frame : ℕ → Registry → WireFrame → Connection E K → Connection E K
  accept_frame now registry f c = elim c.handshake [
    | some h ↦ read_handshake now f h c
    | none ↦ elim c.integrity [ none ↦ c | some i ↦ read_sealed now registry f i c ]
  ]

  unfoldable pub read_result : ℕ → Registry → ReadResult → Connection E K → Connection E K × Bool
  read_result now registry pending c = (c, false)
  read_result now registry (ready (err e)) c = (fail latest (framing_disposition e) now c, true)
  read_result now registry (ready (ok none)) c = (
    if is_ready_to_close c
        then finish c
        else abort (local_failure FailureCode.connection_lost none) c,
    true,
  )
  read_result now registry (ready (ok (some f))) c = (accept_frame now registry f c, true)

  abbrev pub inbound_phase : Connection E K → FrameProtection
  inbound_phase c = elim c.handshake [
    | none ↦ FrameProtection.tagged
    | some h ↦ receive_protection h
  ]

  abbrev pub lacks_keys : FrameProtection → Option (Integrity K) → Bool
  lacks_keys FrameProtection.tagged none = true
  lacks_keys phase integrity = false

  -- `Connection::read`
  unfoldable pub read : ℕ → Registry → Connection E K → Connection E K × Bool
  read now registry c =
      if lacks_keys (inbound_phase c) c.integrity then (c, false) else elim c.socket [
        | none ↦ (c, false)
        | some link ↦
            (let (r, rest, result) = poll_frame (inbound_phase c) c.reader link.reads in
              read_result now registry result
                (record c { reader = r; socket = some (record link { reads = rest }) }))
      ]

  abbrev pub close_if_drained : Connection E K → Connection E K
  close_if_drained c = if is_ready_to_close c then finish c else c

  -- The part of a round that follows the output.
  unfoldable pub round_input : ℕ → Registry → Connection E K × Bool → Connection E K × Bool
  round_input now registry (c, progressed) =
      if c.closing
      then (c, progressed)
      else (let (d, more) = read now registry c in (d, progressed || more))

  unfoldable pub round : ℕ → Registry → Connection E K → Connection E K × Bool
  round now registry c =
      let (d, progressed) = write now c in
      let e = establish d in
      if not (is_some e.socket)
      then (e, progressed)
      else (let (f, more) = round_input now registry (e, progressed) in
          (close_if_drained (establish f), more))

  -- `for _ in 0..32`; past it the connection wakes its task and waits.
  unfoldable pub rounds : ℕ → ℕ → Registry → Connection E K → Connection E K × Poll (Unit {0})
  rounds zero now registry c = (c, pending)
  rounds (suc n) now registry c =
      let (d, progressed) = round now registry c in
      let rest = rounds n now registry d in
      if not (is_some d.socket)
      then (d, ready tt)
      else if not progressed
      then (d, pending)
      else rest

  abbrev pub tick_session : ℕ → Connection E K → Connection E K
  tick_session now c = record c {
    session = elim c.session [ none ↦ none | some s ↦ some (tick now s) ];
  }

  -- `Connection::poll`
  unfoldable pub poll : ℕ → Registry → Connection E K → Connection E K × Poll (Unit {0})
  poll now registry c =
      if not (is_some c.socket)
      then (c, ready tt)
      else if (is_some c.handshake || c.closing) && leb c.deadline now
      then (abort (local_failure FailureCode.deadline_exceeded none) c, ready tt)
      else rounds 32 now registry (tick_session now c)
