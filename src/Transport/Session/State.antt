-- ===== src/Transport/Session/State.antt =====
-- The state of a session (session.rs), and how its methods run.
-- A method on `&mut self` takes the state and returns the next one with its result: an early return
-- by `?` keeps what was written before it. `handle` is the connection's allocation.
use talk_sphere.Base.{
  ℕ, ◌+◌, ◌*◌, Bool, true, false, List, [], ◌∷◌, ◌++◌, Option, none, Result, ok, err, leb,
  if◌then◌else◌,
}
use talk_sphere.Transport.Api.{
  ConnectionRole, IdentityId, ConnectionId, PeerContext, StreamHandle, Event, Failure,
  AuthorityError,
}
use talk_sphere.Transport.Resources.{Resources, new_resources}
use talk_sphere.Transport.Framing.{WireFrame, FramingError}
use talk_sphere.Transport.Codec.Frames.{max_payload_bytes, usize_max}
use talk_sphere.Transport.Stream.Ids.{StreamIds, IdError, new_ids}

pub data SessionError : Type 0 where
  id_error : IdError → SessionError
  no_owner closed draining : SessionError
  authority : AuthorityError → SessionError
  invalid_data capacity protocol_error : SessionError
  framing : FramingError → SessionError

pub record StreamState : Type 0 where
  pub handle : StreamHandle
  pub local_open : Bool
  pub remote_open : Bool
  pub local_end_written : Bool

-- A probe's token with its start and its deadline; the map is in the tokens' order.
pub record Probe : Type 0 where
  pub token : List ℕ
  pub started : ℕ
  pub deadline : ℕ

pub record Session : Type 0 where
  pub last_output : Option ℕ
  pub resources : Resources
  pub accepted_remote : ℕ
  pub peer_goaway : Option ℕ
  pub drain_failure : Option Failure
  pub goaway_sent : Bool
  pub goaway_written : Bool
  pub pings : List Probe
  pub now : Option ℕ
  pub is_closed : Bool
  pub handle : ConnectionId
  pub context : PeerContext
  pub ids : StreamIds
  pub streams : List (ℕ × StreamState)
  pub events : List Event
  pub outbound : List WireFrame

abbrev pub M : Type 0 → Type 0
M A = Session → Session × Result A SessionError

-- How the code after a `?` runs. The bind is shut, so that a `do` block keeps its shape in proofs.
unfoldable pub continue :
    {A B : Type 0} → Session × Result A SessionError → (A → M B) → Session × Result B SessionError
continue (s, ok a) f = f a s
continue (s, err e) f = (s, err e)

infixl 5 ◌>>=◌ ◌>>◌
unfoldable pub ◌>>=◌ : {A B : Type 0} → M A → (A → M B) → M B
unfolding continue
◌>>=◌ m f s = continue (m s) f

abbrev pub ◌>>◌ : {B : Type 0} → M (Unit {0}) → M B → M B
m >> k = m >>= λ _. k

abbrev pub pure : {A : Type 0} → A → M A
pure a s = (s, ok a)

abbrev pub throw : {A : Type 0} → SessionError → M A
throw e s = (s, err e)

-- A fallible computation that does not touch the state.
abbrev pub lift : {A : Type 0} → Result A SessionError → M A
lift r s = (s, r)

abbrev pub get : M Session
get s = (s, ok s)

abbrev pub update : (Session → Session) → M (Unit {0})
update f s = (f s, ok tt)

-- An early return unless the test holds.
abbrev pub require : Bool → SessionError → M (Unit {0})
require true e s = (s, ok tt)
require false e s = (s, err e)

-- `Session::with_handle`
unfoldable pub with_handle : ConnectionId → ConnectionRole → IdentityId → IdentityId → Session
with_handle handle role local_identity peer_identity =
    let context : PeerContext = record {
      connection = handle;
      role = role;
      local_identity = local_identity;
      peer_identity = peer_identity;
    } in
    record {
      last_output = none;
      resources = new_resources (record {
        connections = 1;
        streams_per_connection = 256;
        outbound_bytes = 4 * (max_payload_bytes + 28);
        buffered_bytes_per_stream = max_payload_bytes;
      });
      accepted_remote = 0;
      peer_goaway = none;
      drain_failure = none;
      goaway_sent = false;
      goaway_written = false;
      pings = [];
      now = none;
      is_closed = false;
      handle = handle;
      context = context;
      ids = new_ids role;
      streams = [];
      events = Event.authenticated context ∷ [];
      outbound = [];
    }

-- `set_resources`
unfoldable pub set_resources : Session → Resources → Session
set_resources s resources = record s { resources = resources }

abbrev pub saturating : ℕ → ℕ
saturating n = if leb n usize_max then n else usize_max

unfoldable pub event_limit : Session → ℕ
event_limit s = saturating (saturating (s.resources.limits.streams_per_connection * 4) + 130)

abbrev pub push_event : Event → Session → Session
push_event e s = record s { events = s.events ++ e ∷ [] }
