-- ===== src/Transport/Handshake.antt =====
-- The HELLO and AUTH sequence of one connection: handshake/state.rs. What the credentials and the
-- sources of randomness answer at its beginning (`public_identity`, `ephemeral_key`, `random_nonce`) are
-- arguments of `begin`; the other operations of the ports are the parameters `identity` and `crypto`, as
-- functions of their arguments. A secret that the handshake lets go of is `none`.
pub mod Transcripts
pub mod Keys
pub mod Domains
pub mod Life
pub mod Soundness
pub mod Authentication
pub mod Ending
pub mod Agreement
use talk_sphere.Base.{
  ℕ, ◌≡◌, Bool, true, false, not, ◌&&◌, ◌||◌, List, [], ◌∷◌, Option, none, some, is_some, Result,
  ok, err, map_err, ◌>>=◌, ◌>>◌, ensure, ◌==◌, bytes_eq, if◌then◌else◌, length, ◌%◌, ◌^◌,
}
use talk_sphere.Transport.Api.{ConnectionRole, ExpectedPeer, IdentityId}
use talk_sphere.Transport.Codec.Control.{error_decode}
use talk_sphere.Transport.Codec.Frames.{FrameHeader, FrameProtection, FrameType, frame_header}
use talk_sphere.Transport.Codec.Hello.{Hello, hello_encode, hello_decode, auth_decode}
use talk_sphere.Transport.Failures.{HandshakeError}
use talk_sphere.Transport.Framing.{FramingError, WireFrame, wire_frame}
use talk_sphere.Transport.Handshake.Keys.{Primitives, SessionKeys, derive_keys}
use talk_sphere.Transport.Handshake.Transcripts.{Identity, authentication, sign, transcript}
use talk_sphere.Transport.Integrity.{DependencyError}

pub record Established (K : Type 0) : Type 0 where
  pub role : ConnectionRole
  pub local_identity : IdentityId
  pub peer_identity : IdentityId
  pub keys : SessionKeys K

pub record Handshake (E K : Type 0) : Type 0 where
  pub role : ConnectionRole
  pub expected : ExpectedPeer
  pub local_identity : IdentityId
  pub local : Hello
  pub remote : Option (Hello × IdentityId)
  pub private : Option E
  pub keys : Option (SessionKeys K)
  pub hello_sent : Bool
  pub auth_sent : Bool
  pub peer_verified : Bool
  pub closed : Bool

pub record PublicIdentity : Type 0 where
  pub id : IdentityId
  pub signing_public_key : List ℕ

pub record EphemeralKey (E : Type 0) : Type 0 where
  pub public_key : List ℕ
  pub private_key : E

unfoldable pub raw_frame : FrameType → List ℕ → Result WireFrame HandshakeError
raw_frame kind payload = do
  header ←
      map_err (λ e. HandshakeError.framing (FramingError.bad_header e))
        (frame_header kind 0 (length payload % 2 ^ 32))
  map_err HandshakeError.framing (wire_frame header payload none)

abbrev pub other_role : ConnectionRole → ConnectionRole
other_role ConnectionRole.initiator = ConnectionRole.acceptor
other_role ConnectionRole.acceptor = ConnectionRole.initiator

-- `matches!(self.expected, ExpectedPeer::Known(expected) if expected != id)`, negated
abbrev pub is_expected : ExpectedPeer → IdentityId → Bool
is_expected ExpectedPeer.unpinned id = true
is_expected (ExpectedPeer.known expected) id = bytes_eq expected id

-- `Handshake::transcript`
unfoldable pub ordered : ConnectionRole → Hello → Hello → List ℕ
ordered ConnectionRole.initiator local remote = transcript local remote
ordered ConnectionRole.acceptor local remote = transcript remote local

module _ {E K : Type 0} where
  unfoldable pub close_handshake : Handshake E K → Handshake E K
  close_handshake h = record h { closed = true; private = none; keys = none }

  unfoldable pub begin :
      ConnectionRole
      → ExpectedPeer
      → Result PublicIdentity DependencyError
      → Result (EphemeralKey E) DependencyError
      → Result (List ℕ) DependencyError
      → Result (Handshake E K × WireFrame) HandshakeError
  begin role expected public_identity ephemeral_key random_nonce = do
    public ← map_err HandshakeError.dependency public_identity
    ephemeral ← map_err HandshakeError.dependency ephemeral_key
    nonce ← map_err HandshakeError.dependency random_nonce
    let local : Hello = record {
      identity_public_key = public.signing_public_key;
      ephemeral_public_key = ephemeral.public_key;
      nonce = nonce;
    }
    frame ← raw_frame FrameType.hello (hello_encode local)
    ok (
      record {
        role = role;
        expected = expected;
        local_identity = public.id;
        local = local;
        remote = none;
        private = some ephemeral.private_key;
        keys = none;
        hello_sent = false;
        auth_sent = false;
        peer_verified = false;
        closed = false;
      },
      frame,
    )

  unfoldable pub sent : FrameType → Handshake E K → Handshake E K × Result (Unit {0}) HandshakeError
  sent FrameType.hello h =
      if not h.closed && not h.hello_sent
      then (record h { hello_sent = true }, ok tt)
      else (close_handshake h, err HandshakeError.order)
  sent FrameType.auth h =
      if not h.closed && (h.hello_sent && (not h.auth_sent && is_some h.remote))
      then (record h { auth_sent = true }, ok tt)
      else (close_handshake h, err HandshakeError.order)
  sent kind h = (close_handshake h, err HandshakeError.order)

  unfoldable pub send_protection : Handshake E K → FrameProtection
  send_protection h = if h.auth_sent then FrameProtection.tagged else FrameProtection.untagged

  unfoldable pub receive_protection : Handshake E K → FrameProtection
  receive_protection h =
      if h.peer_verified then FrameProtection.tagged else FrameProtection.untagged

  unfoldable pub is_authenticated : Handshake E K → Bool
  is_authenticated h = not h.closed && (h.auth_sent && h.peer_verified)

  abbrev pub established_with :
      Handshake E K
      → Option (Hello × IdentityId)
      → Option (SessionKeys K)
      → Handshake E K × Option (Established K)
  established_with h none keys = (h, none)
  established_with h (some remote) none = (h, none)
  established_with h (some (hello, id)) (some keys) = (
    record h { keys = none },
    some (record {
      role = h.role;
      local_identity = h.local_identity;
      peer_identity = id;
      keys = keys;
    }),
  )

  unfoldable pub take_established : Handshake E K → Handshake E K × Option (Established K)
  take_established h =
      if not (is_authenticated h) then (h, none) else established_with h h.remote h.keys

  -- `if result.is_err() { self.close(); }`
  unfoldable pub settled :
      Handshake E K × Result (Option WireFrame) HandshakeError
      → Handshake E K × Result (Option WireFrame) HandshakeError
  settled (h, ok out) = (h, ok out)
  settled (h, err e) = (close_handshake h, err e)

  unfoldable pub accept_hello :
      Handshake E K
      → Result (Hello × IdentityId × List ℕ) HandshakeError
      → Handshake E K × Result (Option WireFrame) HandshakeError
  accept_hello h (err e) = (h, err e)
  accept_hello h (ok (remote, id, auth)) = (
    record h { remote = some (remote, id) },
    (raw_frame FrameType.auth auth >>= λ f. ok (some f)),
  )

  abbrev pub accept_keys :
      Handshake E K
      → Result (SessionKeys K) DependencyError
      → Handshake E K × Result (Option WireFrame) HandshakeError
  accept_keys h (err e) = (record h { private = none }, err (HandshakeError.dependency e))
  accept_keys h (ok keys) =
      (record h { private = none; keys = some keys; peer_verified = true }, ok none)

module _ {E S P K : Type 0} (identity : Identity) (crypto : Primitives E S P K) where
  -- What a peer's HELLO gives before the state changes: its fields, its identity and the local proof.
  unfoldable pub hello_facts :
      Handshake E K → List ℕ → Result (Hello × IdentityId × List ℕ) HandshakeError
  hello_facts h payload = do
    remote ← map_err HandshakeError.payload (hello_decode payload)
    id ← map_err HandshakeError.dependency (identity.identify remote.identity_public_key)
    ensure (is_expected h.expected id) HandshakeError.unexpected_identity
    auth ← map_err HandshakeError.dependency (sign identity h.role (ordered h.role h.local remote))
    ok (remote, id, auth)

  -- The check of a peer's AUTH, before a secret is consumed.
  unfoldable pub proof_check : Handshake E K → Hello → List ℕ → Result (Unit {0}) HandshakeError
  proof_check h remote payload = do
    auth ← map_err HandshakeError.payload (auth_decode payload)
    map_err HandshakeError.dependency (
        crypto.verify_signature remote.identity_public_key
          (authentication (other_role h.role) (ordered h.role h.local remote)) auth)

  unfoldable pub accept_auth :
      Handshake E K
      → Hello
      → Option E
      → Result (Unit {0}) HandshakeError
      → Handshake E K × Result (Option WireFrame) HandshakeError
  accept_auth h remote private (err e) = (h, err e)
  accept_auth h remote none (ok u) = (h, err HandshakeError.order)
  accept_auth h remote (some private) (ok u) = accept_keys h (
      derive_keys crypto h.role private remote.ephemeral_public_key (ordered h.role h.local remote))

  unfoldable pub process_kind :
      Handshake E K
      → WireFrame
      → FrameType
      → Option (Hello × IdentityId)
      → Handshake E K × Result (Option WireFrame) HandshakeError
  process_kind h f FrameType.error remote = (
    h,
    elim (error_decode f.payload) [
      | err e ↦ err HandshakeError.order
      | ok d ↦ err (HandshakeError.peer d.code)
    ],
  )
  process_kind h f FrameType.hello none = accept_hello h (hello_facts h f.payload)
  process_kind h f FrameType.auth (some (remote, id)) =
      accept_auth h remote h.private (proof_check h remote f.payload)
  process_kind h f kind remote = (h, err HandshakeError.order)

  unfoldable pub process :
      Handshake E K → WireFrame → Handshake E K × Result (Option WireFrame) HandshakeError
  process h f =
      if h.closed || (h.peer_verified || (not (f.header.stream_id == 0) || is_some f.tag))
      then (h, err HandshakeError.order)
      else process_kind h f f.header.frame_type h.remote

  unfoldable pub receive :
      Handshake E K → WireFrame → Handshake E K × Result (Option WireFrame) HandshakeError
  receive h f = settled (process h f)
