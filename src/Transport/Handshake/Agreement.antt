-- ===== src/Transport/Handshake/Agreement.antt =====
-- A whole handshake between two peers.
use talk_sphere.Base.{
  ℕ, ◌≡◌, refl, ap, ◌∙◌, Bool, true, false, List, Option, none, some, Result, ok, err, ◌>>=◌,
  length,
}
use talk_sphere.Transport.Api.{ConnectionRole, ExpectedPeer, IdentityId}
use talk_sphere.Transport.Codec.Frames.{FrameType, frame_header}
use talk_sphere.Transport.Codec.Hello.{Hello, IsHello, hello_encode, auth_decode}
use talk_sphere.Transport.Codec.Hello.RoundTrip.{hello_decode-encode}
use talk_sphere.Transport.Failures.{HandshakeError}
use talk_sphere.Transport.Framing.{WireFrame, wire_frame}
use talk_sphere.Transport.Integrity.{DependencyError, DirectionKeys}
use talk_sphere.Transport.Handshake.Keys.{
  Primitives, SessionKeys, derive_keys, direction_keys, oriented,
}
use talk_sphere.Transport.Handshake.Transcripts.{Identity, authentication, transcript, sign}
use talk_sphere.Transport.Handshake.Domains.{hello_encode_width}
use talk_sphere.Transport.Handshake.{
  EphemeralKey, Established, Handshake, PublicIdentity, begin, sent, take_established,
  is_authenticated, receive, process, process_kind, settled, hello_facts, proof_check, accept_hello,
  accept_auth, is_expected, other_role, ordered, raw_frame,
}

abbrev swapped : {K : Type 0} → SessionKeys K → SessionKeys K
swapped k = record { send = k.receive; receive = k.send }

abbrev map_ok {ℓ κ} : {A B : Type ℓ} {E : Type κ} → (A → B) → Result A E → Result B E
map_ok s (ok a) = ok (s a)
map_ok s (err e) = err e

-- Of an agreed secret and one transcript, both roles derive the same keys, with sending and receiving
-- exchanged; where one derivation fails, so does the other.
pub derive_keys_mirrored :
    {E S P K : Type 0} (crypto : Primitives E S P K) (a b : E) (to_a to_b t : List ℕ)
    → crypto.agree a to_b ≡ crypto.agree b to_a
    → derive_keys crypto ConnectionRole.acceptor b to_a t
      ≡ map_ok swapped (derive_keys crypto ConnectionRole.initiator a to_b t)
unfolding derive_keys direction_keys oriented
derive_keys_mirrored {K} crypto a b to_a to_b t agreed =
    go (direction_keys crypto b to_a t) (direction_keys crypto a to_b t) (rw agreed)
  where
    go :
        (x y : Result (DirectionKeys K × DirectionKeys K) DependencyError)
        → y ≡ x
        → (x >>= λ keys. ok (oriented ConnectionRole.acceptor keys.0 keys.1))
          ≡ map_ok swapped (y >>= λ keys. ok (oriented ConnectionRole.initiator keys.0 keys.1))
    go x y e = rw e (same x)
      where
        same :
            (x : Result (DirectionKeys K × DirectionKeys K) DependencyError)
            → (x >>= λ keys. ok (oriented ConnectionRole.acceptor keys.0 keys.1))
              ≡ map_ok swapped (x >>= λ keys. ok (oriented ConnectionRole.initiator keys.0 keys.1))
        same (ok keys) = refl
        same (err e) = refl

-- The frame that carries a handshake payload.
abbrev handshake_frame : FrameType → List ℕ → WireFrame
handshake_frame kind payload = record {
  reservation = none;
  header = record { frame_type = kind; stream_id = 0; payload_len = length payload };
  payload = payload;
  tag = none;
}

hello_frame_lem :
    (h : Hello)
    → IsHello h
    → raw_frame FrameType.hello (hello_encode h)
      ≡ ok (handshake_frame FrameType.hello (hello_encode h))
unfolding raw_frame frame_header hello_encode wire_frame
hello_frame_lem h w = rw (hello_encode_width h w)

auth_frame_lem :
    (p : List ℕ)
    → length p ≡ 64
    → raw_frame FrameType.auth p ≡ ok (handshake_frame FrameType.auth p)
unfolding raw_frame frame_header wire_frame
auth_frame_lem p w = rw w

abbrev pub hello_of : {E : Type 0} → PublicIdentity → EphemeralKey E → List ℕ → Hello
hello_of public key nonce = record {
  identity_public_key = public.signing_public_key;
  ephemeral_public_key = key.public_key;
  nonce = nonce;
}

module _ {E S P K : Type 0} (identity : Identity) (crypto : Primitives E S P K) where
  -- After its HELLO is written and the peer's HELLO comes in.
  abbrev pub answered :
      Handshake E K → WireFrame → Handshake E K × Result (Option WireFrame) HandshakeError
  answered start hello = receive identity crypto (sent FrameType.hello start).0 hello

  -- After its AUTH is written too and the peer's AUTH comes in.
  abbrev pub finished :
      Handshake E K → WireFrame → WireFrame → Handshake E K × Option (Established K)
  finished start hello auth =
      take_established
        (receive identity crypto (sent FrameType.auth (answered start hello).0).0 auth).0

  module _ (role : ConnectionRole) (expected : ExpectedPeer) (public : PublicIdentity)
      (key : EphemeralKey E) (nonce : List ℕ) where
    abbrev started : Bool → Bool → Option (Hello × IdentityId) → Handshake E K
    started hello auth remote = record {
      role = role;
      expected = expected;
      local_identity = public.id;
      local = hello_of public key nonce;
      remote = remote;
      private = some key.private_key;
      keys = none;
      hello_sent = hello;
      auth_sent = auth;
      peer_verified = false;
      closed = false;
    }

    begin_lem :
        IsHello (hello_of public key nonce)
        → begin role expected (ok public) (ok key) (ok nonce)
          ≡ ok (
            started false false none,
            handshake_frame FrameType.hello (hello_encode (hello_of public key nonce)),
          )
    unfolding begin
    begin_lem w = rw (hello_frame_lem (hello_of public key nonce) w)

    -- What the handshake needs of the two sides' ports.
    pub record IsReady (remote : Hello) (id : IdentityId) (auth proof : List ℕ)
        (keys : SessionKeys K) : Type 0 where
      pub remote_width : IsHello remote
      pub known : identity.identify remote.identity_public_key ≡ ok id
      pub pinned : is_expected expected id ≡ true
      pub signs :
          identity.sign_authentication
            (authentication role (ordered role (hello_of public key nonce) remote))
          ≡ ok auth
      pub auth_width : length auth ≡ 64
      pub proof_width : length proof ≡ 64
      pub verifies :
          crypto.verify_signature remote.identity_public_key
            (authentication (other_role role) (ordered role (hello_of public key nonce) remote))
            proof
          ≡ ok tt
      pub derives :
          derive_keys crypto role key.private_key remote.ephemeral_public_key
            (ordered role (hello_of public key nonce) remote)
          ≡ ok keys

    module _ (remote : Hello) (id : IdentityId) (auth proof : List ℕ) (keys : SessionKeys K)
        (r : IsReady remote id auth proof keys) where
      hello_facts_lem :
          hello_facts identity crypto (started true false none) (hello_encode remote)
          ≡ ok (remote, id, auth)
      unfolding hello_facts sign
      hello_facts_lem =
          rw (hello_decode-encode remote r.remote_width) (rw r.known (rw r.pinned (rw r.signs)))

      proof_check_lem :
          proof_check identity crypto (started true true (some (remote, id))) remote proof ≡ ok tt
      unfolding proof_check auth_decode
      proof_check_lem = rw r.proof_width (rw r.verifies)

      answered_lem :
          answered
            (started false false none)
            (handshake_frame FrameType.hello (hello_encode remote))
          ≡ (
            started true false (some (remote, id)),
            ok (some (handshake_frame FrameType.auth auth)),
          )
      unfolding receive process process_kind settled accept_hello sent
      answered_lem = rw hello_facts_lem (rw (auth_frame_lem auth r.auth_width))

      verified_lem :
          (take_established
            (receive identity crypto
              (sent FrameType.auth (started true false (some (remote, id)))).0
              (handshake_frame FrameType.auth proof)).0).1
          ≡ some
              (record { role = role; local_identity = public.id; peer_identity = id; keys = keys })
      unfolding receive process process_kind settled accept_auth sent take_established
          is_authenticated
      verified_lem = rw proof_check_lem (rw r.derives)

      pub finished_lem :
          (finished
            (started false false none)
            (handshake_frame FrameType.hello (hello_encode remote))
            (handshake_frame FrameType.auth proof)).1
          ≡ some
              (record { role = role; local_identity = public.id; peer_identity = id; keys = keys })
      finished_lem =
          ap
            (λ (x : Handshake E K × Result (Option WireFrame) HandshakeError).
              (take_established
                (receive identity crypto (sent FrameType.auth x.0).0
                  (handshake_frame FrameType.auth proof)).0).1)
            answered_lem
          ∙ verified_lem

-- One side of a connection: its ports and what it begins with.
pub record Side (E : Type 0) : Type 0 where
  pub ports : Identity
  pub expected : ExpectedPeer
  pub public : PublicIdentity
  pub key : EphemeralKey E
  pub nonce : List ℕ

abbrev pub side_hello : {E : Type 0} → Side E → Hello
side_hello s = hello_of s.public s.key s.nonce

-- The ports of a side work: it identifies the peer, as it expects, and it signs the transcript in its
-- role with a signature that its key verifies.
pub record IsWorking {E S P K : Type 0} (crypto : Primitives E S P K) (role : ConnectionRole)
    (self other : Side E) (t proof : List ℕ) : Type 0 where
  pub width : IsHello (side_hello self)
  pub knows : self.ports.identify other.public.signing_public_key ≡ ok other.public.id
  pub accepts : is_expected self.expected other.public.id ≡ true
  pub signs : self.ports.sign_authentication (authentication role t) ≡ ok proof
  pub proof_width : length proof ≡ 64
  pub verified :
      crypto.verify_signature self.public.signing_public_key (authentication role t) proof ≡ ok tt

-- Two sides, an initiator and an acceptor, whose ports work and whose secrets agree: each begins with a
-- HELLO, answers the other's HELLO with an AUTH, and on the other's AUTH hands over the facts of the
-- connection, with the other's identity. What one of them sends under, the other receives under.
pub both_established :
    {E S P K : Type 0} (crypto : Primitives E S P K) (a b : Side E) (proof_a proof_b : List ℕ)
    (keys : SessionKeys K)
    → IsWorking crypto ConnectionRole.initiator a b
        (transcript (side_hello a) (side_hello b))
        proof_a
    → IsWorking crypto ConnectionRole.acceptor b a
        (transcript (side_hello a) (side_hello b))
        proof_b
    → crypto.agree a.key.private_key b.key.public_key
      ≡ crypto.agree b.key.private_key a.key.public_key
    → derive_keys crypto ConnectionRole.initiator a.key.private_key b.key.public_key
        (transcript (side_hello a) (side_hello b))
      ≡ ok keys
    → (start_a : Handshake E K) × (start_b : Handshake E K) × (hello_a : WireFrame)
      × (hello_b : WireFrame) × (auth_a : WireFrame) × (auth_b : WireFrame) × (facts_a : Established
          K)
      × (facts_b : Established K) × (begin ConnectionRole.initiator a.expected
            (ok a.public)
            (ok a.key)
            (ok a.nonce)
          ≡ ok (start_a, hello_a))
      × (begin ConnectionRole.acceptor b.expected (ok b.public) (ok b.key) (ok b.nonce)
          ≡ ok (start_b, hello_b))
      × ((answered a.ports crypto start_a hello_b).1 ≡ ok (some auth_a))
      × ((answered b.ports crypto start_b hello_a).1 ≡ ok (some auth_b))
      × ((finished a.ports crypto start_a hello_b auth_b).1 ≡ some facts_a)
      × ((finished b.ports crypto start_b hello_a auth_a).1 ≡ some facts_b)
      × (facts_a.peer_identity ≡ b.public.id)
      × (facts_b.peer_identity ≡ a.public.id)
      × (facts_a.keys.send ≡ facts_b.keys.receive)
      × (facts_a.keys.receive ≡ facts_b.keys.send)
unfolding ordered
both_established crypto a b proof_a proof_b keys wa wb agreed derived =
    let ra : IsReady a.ports crypto ConnectionRole.initiator a.expected a.public a.key a.nonce
        (side_hello b) b.public.id proof_a proof_b keys =
      record {
        remote_width = wb.width;
        known = wa.knows;
        pinned = wa.accepts;
        signs = wa.signs;
        auth_width = wa.proof_width;
        proof_width = wb.proof_width;
        verifies = wb.verified;
        derives = derived;
      } in
    let rb : IsReady b.ports crypto ConnectionRole.acceptor b.expected b.public b.key b.nonce
        (side_hello a) a.public.id proof_b proof_a (swapped keys) =
      record {
        remote_width = wa.width;
        known = wb.knows;
        pinned = wb.accepts;
        signs = wb.signs;
        auth_width = wb.proof_width;
        proof_width = wa.proof_width;
        verifies = wa.verified;
        derives =
            derive_keys_mirrored crypto a.key.private_key b.key.private_key a.key.public_key
              b.key.public_key (transcript (side_hello a) (side_hello b)) agreed
            ∙ ap (map_ok swapped) derived;
      } in
    (
      _,
      _,
      _,
      _,
      _,
      _,
      _,
      _,
      begin_lem a.ports crypto ConnectionRole.initiator a.expected a.public a.key a.nonce wa.width,
      begin_lem b.ports crypto ConnectionRole.acceptor b.expected b.public b.key b.nonce wb.width,
      ap (λ x. x.1)
          (answered_lem a.ports crypto ConnectionRole.initiator a.expected a.public a.key a.nonce
            (side_hello b) b.public.id proof_a proof_b keys ra),
      ap (λ x. x.1)
          (answered_lem b.ports crypto ConnectionRole.acceptor b.expected b.public b.key b.nonce
            (side_hello a) a.public.id proof_b proof_a (swapped keys) rb),
      finished_lem a.ports crypto ConnectionRole.initiator a.expected a.public a.key a.nonce
          (side_hello b) b.public.id proof_a proof_b keys ra,
      finished_lem b.ports crypto ConnectionRole.acceptor b.expected b.public b.key b.nonce
          (side_hello a) a.public.id proof_b proof_a (swapped keys) rb,
      refl,
      refl,
      refl,
      refl,
    )
