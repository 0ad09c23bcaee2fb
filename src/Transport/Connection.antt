-- ===== src/Transport/Connection.antt =====
-- One socket's connection: connection/mod.rs. It composes the reader and the writer of frames, the
-- handshake, the integrity session and the session of streams. Clones of `Resources` share their
-- counters, which stand in the session once there is one, and in the connection before. A socket is what
-- it still answers to reads and writes, with the bytes that it has taken. Instants are numbers, up to
-- the last one that the platform represents, the parameter `latest`.
pub mod Driving
pub mod Guard
pub mod Authority
pub mod Closing
pub mod Discard
use talk_sphere.Base.{
  ℕ, zero, suc, ◌+◌, Bool, true, false, not, ◌&&◌, ◌||◌, List, [], ◌∷◌, ◌++◌, Option, none, some,
  is_some, Result, ok, err, leb, if◌then◌else◌, length, ◌>>=◌, ◌%◌, ◌^◌,
}
use talk_sphere.Transport.Api.{
  ConnectionId, ConnectionRole, Event, ExpectedPeer, Failure, FailureCode,
}
use talk_sphere.Transport.Codec.Control.{ErrorCode, error_payload, error_encode}
use talk_sphere.Transport.Codec.Frames.{FrameProtection, FrameType, frame_header}
use talk_sphere.Transport.Config.{TransportConfig}
use talk_sphere.Transport.Failures.{
  Disposition, HandshakeError, handshake_disposition, local_failure, with_safe_output,
}
use talk_sphere.Transport.Framing.{FramingError, WireFrame, wire_frame}
use talk_sphere.Transport.Framing.Reader.{FrameReader, new_reader}
use talk_sphere.Transport.Framing.Wire.{SocketRead, SocketWrite}
use talk_sphere.Transport.Framing.Writer.{FrameWriter, is_busy, new_writer}
use talk_sphere.Transport.Handshake.{
  EphemeralKey, Established, Handshake, PublicIdentity, begin, send_protection, take_established,
}
use talk_sphere.Transport.Integrity.{DependencyError, Integrity, new_integrity}
use talk_sphere.Transport.Resources.{Counter, Resources, new_resources, release, reserve}
use talk_sphere.Transport.Session.Lifecycle.{close}
use talk_sphere.Transport.Session.Output.{drop_frames, reserved_by}
use talk_sphere.Transport.Session.Scheduler.{next_output, pop_event}
use talk_sphere.Transport.Session.Ping.{next_deadline}
use talk_sphere.Transport.Session.State.{Session, set_resources, with_handle}

pub record Link : Type 0 where
  pub reads : List SocketRead
  pub writes : List SocketWrite
  pub taken : List ℕ

pub record Connection (E K : Type 0) : Type 0 where
  pub resources : Resources
  pub admission : Option ℕ
  pub handle : ConnectionId
  pub socket : Option Link
  pub reader : FrameReader
  pub writer : FrameWriter
  pub handshake : Option (Handshake E K)
  pub integrity : Option (Integrity K)
  pub session : Option Session
  pub handshake_output : List WireFrame
  pub writing : Option (FrameType × ℕ × FrameProtection)
  pub events : List Event
  pub deadline : ℕ
  pub timeout : ℕ
  pub closing : Bool

-- `Instant::checked_add`
abbrev pub add_timeout : ℕ → ℕ → ℕ → Option ℕ
add_timeout latest now timeout = if leb (now + timeout) latest then some (now + timeout) else none

-- What a lease returns when it is dropped.
abbrev pub amount_of : Option ℕ → ℕ
amount_of none = 0
amount_of (some amount) = amount

abbrev pub let_go : Option ℕ → Counter → Counter
let_go none c = c
let_go (some amount) c = release c amount

-- `connection::error_frame`; an encoded payload never is longer than its length says.
unfoldable pub error_frame : ErrorCode → Option WireFrame
error_frame code = elim (error_payload code []) [
  | err e ↦ none
  | ok d ↦ elim (frame_header FrameType.error 0 (length (error_encode d) % 2 ^ 32)) [
    | err e ↦ none
    | ok header ↦ elim (wire_frame header (error_encode d) none) [ err e ↦ none | ok f ↦ some f ]
  ]
]

-- The loop of `release` over the session's output: `n` is the number of frames that it holds.
unfoldable pub discard_output : ℕ → Session → Session
discard_output zero s = s
discard_output (suc n) s =
    let t = (next_output s).0 in
    elim (next_output s).1 [
      | none ↦ t
      | some f ↦ discard_output n (record t {
        resources = record t.resources { outbound = release t.resources.outbound (reserved_by f) };
      })
    ]

module _ {E K : Type 0} where
  -- The counters that the clones of the budget share.
  abbrev pub shared : Connection E K → Resources
  shared c = elim c.session [ none ↦ c.resources | some s ↦ s.resources ]

  abbrev pub with_shared : Resources → Option Session → Connection E K → Connection E K
  with_shared r none c = record c { resources = r }
  with_shared r (some s) c = record c { session = some (record s { resources = r }) }

  unfoldable pub update_outbound : (Counter → Counter) → Connection E K → Connection E K
  update_outbound f c =
      with_shared (record (shared c) { outbound = f (shared c).outbound }) c.session c

  unfoldable pub update_connections : (Counter → Counter) → Connection E K → Connection E K
  update_connections f c =
      with_shared (record (shared c) { connections = f (shared c).connections }) c.session c

  abbrev pub close_session : Option Failure → Option ErrorCode → Connection E K → Connection E K
  close_session cause response c = record c {
    session = elim c.session [ none ↦ none | some s ↦ some (close cause response s) ];
  }

  abbrev pub discard_session : Connection E K → Connection E K
  discard_session c = record c {
    session = elim c.session [ none ↦ none | some s ↦ some (discard_output (length s.outbound) s) ];
  }

  -- `Connection::release`: the leases of the admission, the queued output and the writer go back.
  unfoldable pub release_all : Connection E K → Connection E K
  release_all c =
      let admitted = update_connections (let_go c.admission) c in
      let cleared = update_outbound (drop_frames c.handshake_output) admitted in
      let discarded = discard_session cleared in
      record (update_outbound (let_go c.writer.lease) discarded) {
        socket = none;
        admission = none;
        handshake = none;
        integrity = none;
        handshake_output = [];
        reader = new_reader;
        writer = new_writer;
        writing = none;
      }

  abbrev pub report_closed : Failure → Connection E K → Connection E K
  report_closed failure c = record c {
    events = c.events ++ Event.connection_closed c.handle (some failure) ∷ [];
  }

  unfoldable pub abort : Disposition → Connection E K → Connection E K
  abort d c =
      if not (is_some c.socket)
      then c
      else if is_some c.session
      then release_all (close_session (some d.failure) none c)
      else if not c.closing
      then release_all (report_closed d.failure c)
      else release_all c

  -- `let safe = …` of `fail`
  unfoldable pub is_safe : Connection E K → Bool
  is_safe c =
      not (is_busy c.writer)
      && (is_some c.integrity || elim c.handshake [
        | none ↦ false
        | some h ↦ elim (send_protection h) [
          | FrameProtection.untagged ↦ true
          | FrameProtection.tagged ↦ false
        ]
      ])

  -- The response before there is a session: an ERROR within the outbound budget.
  abbrev pub push_error : Option WireFrame → Connection E K → Connection E K
  push_error none c = c
  push_error (some f) c = elim (reserve (shared c).outbound (length f.payload + 12)) [
    | none ↦ c
    | some counter ↦ record (update_outbound (λ _. counter) c) {
      handshake_output =
          c.handshake_output ++ (record f { reservation = some (length f.payload + 12) }) ∷ [];
    }
  ]

  unfoldable pub respond_closing : Failure → ErrorCode → ℕ → Connection E K → Connection E K
  respond_closing failure code deadline c =
      let started : Connection E K = record (update_outbound (drop_frames c.handshake_output) c) {
        deadline = deadline;
        closing = true;
        handshake_output = [];
      } in
      if is_some started.session
      then close_session (some failure) (some code) started
      else push_error (error_frame code) (report_closed failure started)

  unfoldable pub fail : ℕ → Disposition → ℕ → Connection E K → Connection E K
  fail latest d now c =
      let answer = with_safe_output (is_safe c) d in
      elim answer.response [
        | none ↦ abort answer c
        | some code ↦ elim (add_timeout latest now c.timeout) [
          | none ↦ abort answer c
          | some deadline ↦ respond_closing answer.failure code deadline c
        ]
      ]

  -- `Connection::establish`
  abbrev pub hand_over : Handshake E K × Option (Established K) → Connection E K → Connection E K
  hand_over (h, none) c = record c { handshake = some h }
  hand_over (h, some facts) c = record c {
    session = some (
        set_resources (with_handle c.handle facts.role facts.local_identity facts.peer_identity)
          (shared c));
    integrity = some (new_integrity facts.keys.send facts.keys.receive);
    handshake = none;
  }

  unfoldable pub establish : Connection E K → Connection E K
  establish c = elim c.handshake [ none ↦ c | some h ↦ hand_over (take_established h) c ]

  -- `Ok(Self { … })` of `begin_shared`
  abbrev pub first_connection :
      Resources → ConnectionId → Link → ℕ → ℕ → Handshake E K → WireFrame → Connection E K
  first_connection resources handle link timeout deadline handshake hello = record {
    resources = resources;
    admission = some 1;
    handle = handle;
    socket = some link;
    reader = new_reader;
    writer = new_writer;
    handshake = some handshake;
    integrity = none;
    session = none;
    handshake_output = (record hello { reservation = some 112 }) ∷ [];
    writing = none;
    events = [];
    deadline = deadline;
    timeout = timeout;
    closing = false;
  }

  -- The steps of `begin_shared`: the admission, the HELLO's budget, the deadline and the handshake. What
  -- has been reserved before a step that fails goes back.
  abbrev pub begin_steps :
      Resources
      → ConnectionId
      → Link
      → ℕ
      → Option Counter
      → Option Counter
      → Option ℕ
      → Result (Handshake E K × WireFrame) HandshakeError
      → Resources × Result (Connection E K) Disposition
  begin_steps r handle link timeout none queued deadline handshake =
      (r, err (local_failure FailureCode.resource_limit none))
  begin_steps r handle link timeout (some admitted) none deadline handshake = (
    record r { connections = release admitted 1 },
    err (local_failure FailureCode.resource_limit none),
  )
  begin_steps r handle link timeout (some admitted) (some queued) none handshake = (
    record r { connections = release admitted 1; outbound = release queued 112 },
    err (local_failure FailureCode.internal none),
  )
  begin_steps r handle link timeout (some admitted) (some queued) (some deadline) (err e) = (
    record r { connections = release admitted 1; outbound = release queued 112 },
    err (handshake_disposition e),
  )
  begin_steps r handle link timeout (some admitted) (some queued) (some deadline) (ok (h, hello)) =
      (
        record r { connections = admitted; outbound = queued },
        ok (
            first_connection (record r { connections = admitted; outbound = queued }) handle link
              timeout deadline h hello),
      )

  -- `Connection::begin_shared`: the counters afterwards, and the connection. What the ports answer are the
  -- three arguments before the budget, the fresh handle and the socket.
  unfoldable pub begin_shared :
      ℕ
      → ConnectionRole
      → ExpectedPeer
      → TransportConfig
      → ℕ
      → Result PublicIdentity DependencyError
      → Result (EphemeralKey E) DependencyError
      → Result (List ℕ) DependencyError
      → Resources
      → ConnectionId
      → Link
      → Resources × Result (Connection E K) Disposition
  begin_shared latest role expected config now public key nonce resources handle link =
      begin_steps resources handle link config.handshake_timeout (reserve resources.connections 1)
        (reserve resources.outbound 112) (add_timeout latest now config.handshake_timeout)
        (begin role expected public key nonce)

  -- `Connection::begin`, with a budget of its own.
  unfoldable pub begin_connection :
      ℕ
      → ConnectionRole
      → ExpectedPeer
      → TransportConfig
      → ℕ
      → Result PublicIdentity DependencyError
      → Result (EphemeralKey E) DependencyError
      → Result (List ℕ) DependencyError
      → ConnectionId
      → Link
      → Resources × Result (Connection E K) Disposition
  begin_connection latest role expected config now public key nonce handle link =
      begin_shared latest role expected config now public key nonce (new_resources config.limits)
        handle link

  unfoldable pub set_handle : ConnectionId → Connection E K → Connection E K
  set_handle handle c = record c { handle = handle }

  -- `Connection::next_deadline`
  unfoldable pub connection_deadline : Connection E K → Option ℕ
  connection_deadline c =
      if not (is_some c.socket)
      then none
      else if is_some c.handshake || c.closing
      then some c.deadline
      else elim c.session [ none ↦ none | some s ↦ next_deadline s ]

  -- `Connection::close`
  unfoldable pub close_connection : Connection E K → Connection E K
  close_connection c = abort (local_failure FailureCode.connection_lost none) c

  unfoldable pub pop_connection_event : Connection E K → Connection E K × Option Event
  pop_connection_event c = elim c.events [
    | e ∷ rest ↦ (record c { events = rest }, some e)
    | [] ↦ elim c.session [
      | none ↦ (c, none)
      | some s ↦ (record c { session = some (pop_event s).0 }, (pop_event s).1)
    ]
  ]
