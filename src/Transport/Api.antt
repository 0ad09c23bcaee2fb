-- ===== src/Transport/Api.antt =====
-- The local contract: the types of src/modules/transport/api.rs and the capabilities of handles.rs.
-- An `Arc` compared by pointer is a number that names the allocation. Times are numbers of one unit.
use talk_sphere.Base.{ℕ, List, Option, ◌==◌, Result, ◌>>◌, ensure}

pub data ConnectionRole : Type 0 where
  initiator acceptor : ConnectionRole

abbrev pub IdentityId : Type 0
IdentityId = List ℕ

pub data ExpectedPeer : Type 0 where
  known : IdentityId → ExpectedPeer
  unpinned : ExpectedPeer

pub record Protocol : Type 0 where
  pub id : List ℕ
  pub version : ℕ

pub data CancellationReason : Type 0 where
  cancelled resource_limit internal_error : CancellationReason

pub data ShutdownReason : Type 0 where
  normal id_exhausted resource_limit internal_error : ShutdownReason

pub data Dependency : Type 0 where
  socket clock identity cryptography : Dependency

pub data FailureOrigin : Type 0 where
  local peer : FailureOrigin
  dependency : Dependency → FailureOrigin

pub data FailureCode : Type 0 where
  protocol_violation authentication_failed integrity_failed frame_too_large : FailureCode
  unsupported_protocol stream_state refused cancelled resource_limit id_exhausted : FailureCode
  sequence_exhausted truncated_frame connection_lost deadline_exceeded : FailureCode
  dependency_unavailable internal : FailureCode

pub record Failure : Type 0 where
  pub origin : FailureOrigin
  pub code : FailureCode

pub data StreamOutcome : Type 0 where
  completed : StreamOutcome
  cancelled : FailureOrigin → CancellationReason → StreamOutcome
  failed : Failure → StreamOutcome

abbrev pub ConnectionId : Type 0
ConnectionId = ℕ

abbrev pub StreamOwner : Type 0
StreamOwner = ℕ

pub record PeerContext : Type 0 where
  pub connection : ConnectionId
  pub role : ConnectionRole
  pub local_identity : IdentityId
  pub peer_identity : IdentityId

pub record StreamHandle : Type 0 where
  pub connection : ConnectionId
  pub owner : StreamOwner
  pub wire_id : ℕ

pub data AuthorityError : Type 0 where
  wrong_connection wrong_stream_owner : AuthorityError

-- `StreamHandle::authorize`.
unfoldable pub authorize :
    StreamHandle → ConnectionId → StreamOwner → Result (Unit {0}) AuthorityError
authorize s connection owner = do
  ensure (s.connection == connection) AuthorityError.wrong_connection
  ensure (s.owner == owner) AuthorityError.wrong_stream_owner

pub data Event : Type 0 where
  incoming_connection : ConnectionId → Event
  authenticated : PeerContext → Event
  stream_opened : PeerContext → StreamHandle → Protocol → Event
  received : StreamHandle → List ℕ → Event
  remote_end : StreamHandle → Event
  stream_closed : StreamHandle → StreamOutcome → Event
  ping_finished : ConnectionId → List ℕ → Result ℕ Failure → Event
  connection_closed : ConnectionId → Option Failure → Event
