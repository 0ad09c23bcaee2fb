-- ===== src/Lib.antt =====
-- TalkSphere's Transport and the contracts of its Ledger, modelled from the Rust sources of
-- src/modules/transport and src/modules/ledger.
--
-- The Transport of the server carries streams of bytes between two authenticated peers. Frames have a
-- fixed header and a payload whose shape depends on the frame's type (codec). A session
-- (stream/session.rs) is one authenticated connection: it numbers streams, admits or refuses the peer's
-- OPENs by a registry of local protocols, buffers verified bytes as events for consumers, queues frames
-- for writing within shared budgets, answers probes, and drains by GOAWAY. The integrity layer tags
-- every frame under a nonce that counts the frames of its direction. A connection reads and writes frames
-- in pieces as its socket allows, runs the handshake, in which both peers sign the transcript of their
-- HELLOs and derive keys, and then hands verified frames to the session. The session does no input or
-- output: the connection feeds it verified frames and instants, takes frames for writing and reports what
-- was written. The Ledger's contracts grant and revoke local authority.
--
-- Which file models which part:
--   Transport/Codec/Frames      codec/mod.rs, error.rs, frame_type.rs, header.rs: FrameHeader::new,
--                               decode, encode, frame_len
--   Transport/Codec/Text        the UTF-8 validation that the payloads use
--   Transport/Codec/Control     codec/control: Diagnostic, ErrorPayload, GoAway, PingToken, ErrorCode
--   Transport/Codec/Hello       codec/handshake.rs: HELLO and AUTH payloads
--   Transport/Codec/Opening     codec/open.rs: OPEN payloads
--   Transport/Api               api.rs, handles.rs: events, failures, handles, StreamHandle::authorize
--   Transport/Resources         resources.rs: reserve, Lease::drop, and the limits of config.rs
--   Transport/Config            config.rs: TransportConfig::new
--   Transport/Framing           framing/mod.rs: WireFrame, FramingError. Reader and Writer have reader.rs and
--                               writer.rs, Wire what a socket of ports/io.rs answers to each call
--   Transport/Handshake         handshake/state.rs: begin, sent, receive, take_established, close; Keys has
--                               keys.rs and Transcripts transcript.rs
--   Transport/Integrity         integrity/mod.rs: seal, sent, verify, close, and nonce of
--                               handshake/keys.rs, over the cipher of ports/crypto.rs, a parameter
--   Transport/Failures          failure.rs: the dispositions of errors
--   Transport/Stream/Ids        stream/ids.rs: StreamIds
--   Transport/Stream/Registry   stream/registry.rs: Registry
--   Transport/Session           stream/session.rs and its children. State has the struct and how its
--                               methods run; Output the queue; Lifecycle end, cancel, sent, close,
--                               complete, fail_stream, terminate; Ping the probes; Drain GOAWAY;
--                               Receive the dispatch of frames; Requests open and send; Scheduler the
--                               order of output and of events
--   Transport/Connection        connection/mod.rs: begin_shared, establish, abort, fail, release, close; Driving
--                               has connection/io.rs (write, read) and poll
--   Transport/Examples          the theorems at concrete inputs
--   Ledger/Authority, Contract  ledger/authority.rs: grants and their checks; ledger/contract.rs: calls and
--                               limits; their examples in Ledger/Examples
--
-- A method on &mut self is a function that takes the state and returns the next one with its result; an
-- early return by ? keeps the writes made before it, as the source does. A child module named for a
-- property holds its proof. Session/Invariant names the elementary changes of a session's state,
-- Session/Closure shows that a predicate kept by each of them is kept by every operation, and
-- Session/Reachable is the step relation of a session's whole life. Session/Ledger instantiates them.
-- Session/Ownership follows a session's context and handle, and Integrity/Held its keys; Connection/Guard
-- carries both through every step of a connection, together with the facts of the handshake.
-- Handshake/Life and Connection/Authority are the step relations of a handshake and of a connection; what
-- the owner of a connection does with its session is a relation that the latter takes as an argument.
-- The witnesses stand in the children of Transport/Examples and in Ledger/Examples.
--
-- Numbers are naturals; u8, u16 and u32 values are bounded by predicates, a usize counter wraps
-- modulo 2 ^ 64, and casts keep their remainder. An instant is a number, and the last instant that
-- the platform represents is an argument of `ping` and of the connection. An Arc that the source
-- compares by pointer is a number that names its allocation, and a BTreeMap is an association list
-- sorted by its keys. A reservation is the amount that its lease returns; for a session on its own,
-- the frames that are being written and the other connections that share a budget change the counter
-- by a step of their own. The loops of 64 rounds of the reader and the writer and of 32 rounds of
-- the connection recurse on the rounds left, as the source counts them; what a socket answers to a
-- poll is a list of events, used in order. The loop that discards the output of a released session
-- recurses on the number of frames in its queue, and each round takes one of them. The operations of
-- the identity and cryptography ports are parameters, as functions of their arguments. Every other
-- recursion is structural, on lists, so no fuel is used.
--
-- Not modelled: tracing and the Display text of errors, which have no effect on a result; the driver
-- of all connections and its adapters, and the other modules of the server (board, cryptography,
-- identity, services, composition, command line).
pub mod Base
pub mod Transport
pub mod Ledger
