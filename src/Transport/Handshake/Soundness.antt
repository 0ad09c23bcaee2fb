-- ===== src/Transport/Handshake/Soundness.antt =====
-- What every state of a handshake has checked of the peer, and where its keys come from.
use talk_sphere.Base.{
  ℕ, ◌≡◌, refl, sym, ap, subst, ◌∙◌, Bool, true, false, not, List, Option, none, some, Result, ok,
  err, map_err, ◌>>=◌, if◌then◌else◌, arith, ok-injective, some-injective,
}
use talk_sphere.Transport.Api.{ConnectionRole, ExpectedPeer, IdentityId}
use talk_sphere.Transport.Codec.Frames.{FrameType}
use talk_sphere.Transport.Codec.Hello.{Hello, HandshakePayloadError, hello_encode, auth_decode}
use talk_sphere.Transport.Failures.{HandshakeError}
use talk_sphere.Transport.Framing.{WireFrame}
use talk_sphere.Transport.Handshake.Keys.{Primitives, SessionKeys, derive_keys}
use talk_sphere.Transport.Handshake.Transcripts.{Identity, authentication}
use talk_sphere.Transport.Handshake.{
  Established, EphemeralKey, Handshake, PublicIdentity, begin, close_handshake, sent,
  take_established, established_with, is_authenticated, receive, hello_facts, proof_check,
  is_expected, other_role, ordered, raw_frame,
}
use talk_sphere.Transport.Handshake.Life.{sent-keeps, receive-keeps}

module _ {E S P K : Type 0} (identity : Identity) (crypto : Primitives E S P K) where
  -- The peer has signed the transcript in its own role, with the key of its HELLO.
  abbrev pub IsProven : ConnectionRole → Hello → Hello → Type 0
  IsProven role local remote =
      (proof : List ℕ) × (crypto.verify_signature remote.identity_public_key
          (authentication (other_role role) (ordered role local remote)) proof
        ≡ ok tt)

  -- What holds of the peer and the keys, given what the handshake began with.
  abbrev pub IsPeer :
      Handshake E K
      → Handshake E K
      → Option (Hello × IdentityId)
      → Option (SessionKeys K)
      → Bool
      → Type 0
  IsPeer start h none keys verified = (keys ≡ none) × (verified ≡ false)
  IsPeer start h (some (remote, id)) keys verified =
      (identity.identify remote.identity_public_key ≡ ok id)
      × (is_expected h.expected id ≡ true)
      × (verified ≡ true → IsProven h.role h.local remote)
      × ((k : SessionKeys K)
          → keys ≡ some k
          → (private : E) × (start.private ≡ some private)
            × (derive_keys crypto h.role private remote.ephemeral_public_key
                  (ordered h.role h.local remote)
                ≡ ok k))

  pub record IsSound (start h : Handshake E K) : Type 0 where
    pub role_kept : h.role ≡ start.role
    pub expected_kept : h.expected ≡ start.expected
    pub identity_kept : h.local_identity ≡ start.local_identity
    pub local_kept : h.local ≡ start.local
    pub secret : (e : E) → h.private ≡ some e → start.private ≡ some e
    pub peer : IsPeer start h h.remote h.keys h.peer_verified
    pub order : h.auth_sent ≡ true → h.hello_sent ≡ true

  no_keys :
      (start h : Handshake E K) (remote : Option (Hello × IdentityId))
      (keys : Option (SessionKeys K)) (v : Bool)
      → IsPeer start h remote keys v
      → IsPeer start h remote none v
  no_keys start h none keys v (k, e) = (refl, e)
  no_keys start h (some (remote, id)) keys v (known, pinned, proven, keyed) =
      (known, pinned, proven, λ k e. cc)

  pub close-IsSound :
      (start h : Handshake E K) → IsSound start h → IsSound start (close_handshake h)
  unfolding close_handshake
  close-IsSound start h i = record {
    role_kept = i.role_kept;
    expected_kept = i.expected_kept;
    identity_kept = i.identity_kept;
    local_kept = i.local_kept;
    secret = λ e h. cc;
    peer = no_keys start h h.remote h.keys h.peer_verified i.peer;
    order = i.order;
  }

  pub sent-IsSound :
      (start h : Handshake E K) (kind : FrameType) → IsSound start h → IsSound start (sent kind h).0
  sent-IsSound start h kind i =
      sent-keeps (IsSound start) h kind (close-IsSound start h i)
        (λ _. record {
          role_kept = i.role_kept;
          expected_kept = i.expected_kept;
          identity_kept = i.identity_kept;
          local_kept = i.local_kept;
          secret = i.secret;
          peer = i.peer;
          order = λ _. refl;
        })
        (λ _ hello _. record {
          role_kept = i.role_kept;
          expected_kept = i.expected_kept;
          identity_kept = i.identity_kept;
          local_kept = i.local_kept;
          secret = i.secret;
          peer = i.peer;
          order = λ _. hello;
        })

  hello_facts_known :
      (h : Handshake E K) (payload : List ℕ) (remote : Hello) (id : IdentityId) (auth : List ℕ)
      → hello_facts identity crypto h payload ≡ ok (remote, id, auth)
      → (identity.identify remote.identity_public_key ≡ ok id) × (is_expected h.expected id ≡ true)
  unfolding hello_facts
  hello_facts_known h payload remote id auth e = ground arith

  proof_check-IsProven :
      (h : Handshake E K) (remote : Hello) (payload : List ℕ)
      → proof_check identity crypto h remote payload ≡ ok tt
      → IsProven h.role h.local remote
  unfolding proof_check
  proof_check-IsProven h remote payload e = go (auth_decode payload) e
    where
      go :
          (x : Result (List ℕ) HandshakePayloadError)
          → (do
            auth ← map_err HandshakeError.payload x
            map_err HandshakeError.dependency (
                crypto.verify_signature remote.identity_public_key
                  (authentication (other_role h.role) (ordered h.role h.local remote))
                  auth))
            ≡ ok tt
          → IsProven h.role h.local remote
      go (ok proof) e = (proof, ground arith)
      go (err x) e = cc

  remote_IsSound :
      (start h : Handshake E K) (remote : Hello) (id : IdentityId)
      → IsSound start h
      → h.remote ≡ none
      → (identity.identify remote.identity_public_key ≡ ok id) × (is_expected h.expected id ≡ true)
      → IsSound start (record h { remote = some (remote, id) })
  remote_IsSound start h remote id i new (known, pinned) =
      let (no_key, unverified) = subst (λ r. IsPeer start h r h.keys h.peer_verified) new i.peer in
      record {
        role_kept = i.role_kept;
        expected_kept = i.expected_kept;
        identity_kept = i.identity_kept;
        local_kept = i.local_kept;
        secret = i.secret;
        peer = (known, pinned, λ v. cc, λ k e. cc);
        order = i.order;
      }

  pub receive-IsSound :
      (start h : Handshake E K) (f : WireFrame)
      → IsSound start h
      → IsSound start (receive identity crypto h f).0
  receive-IsSound start h f i =
      receive-keeps identity crypto (IsSound start) h f (close-IsSound start h i)
        (λ remote id auth new facts.
          let known = hello_facts_known h f.payload remote id auth facts in
          let i' = remote_IsSound start h remote id i new known in (i', close-IsSound start _ i'))
        (λ remote id private keys _ _ met holds proof derived. record {
          role_kept = i.role_kept;
          expected_kept = i.expected_kept;
          identity_kept = i.identity_kept;
          local_kept = i.local_kept;
          secret = λ e h. cc;
          peer =
              let (known, pinned, _, _) =
                subst (λ r. IsPeer start h r h.keys h.peer_verified) met i.peer in
              subst (λ r. IsPeer start h r (some keys) true) (sym met)
                (
                  known,
                  pinned,
                  λ _. proof_check-IsProven h remote f.payload proof,
                  λ k e. (private, i.secret private holds, derived ∙ ap ok (some-injective e)),
                );
          order = i.order;
        })

  pub take-IsSound :
      (start h : Handshake E K) → IsSound start h → IsSound start (take_established h).0
  unfolding take_established
  take-IsSound start h i = go (not (is_authenticated h)) h.remote h.keys
    where
      go :
          (b : Bool) (remote : Option (Hello × IdentityId)) (keys : Option (SessionKeys K))
          → IsSound start
              (if◌then◌else◌ {A = Handshake E K × Option (Established K)} b
                (h, none)
                (established_with h remote keys)).0
      go true remote keys = i
      go false none keys = i
      go false (some remote) none = i
      go false (some (hello, id)) (some keys) = record {
        role_kept = i.role_kept;
        expected_kept = i.expected_kept;
        identity_kept = i.identity_kept;
        local_kept = i.local_kept;
        secret = i.secret;
        peer = no_keys start h h.remote h.keys h.peer_verified i.peer;
        order = i.order;
      }

  pub begin-IsSound :
      (role : ConnectionRole) (expected : ExpectedPeer) (public : PublicIdentity)
      (key : EphemeralKey E) (nonce : List ℕ) (start : Handshake E K) (f : WireFrame)
      → begin role expected (ok public) (ok key) (ok nonce) ≡ ok (start, f)
      → IsSound start start
        × (start.role ≡ role)
        × (start.expected ≡ expected)
        × (start.local_identity ≡ public.id)
        × (start.private ≡ some key.private_key)
  unfolding begin
  begin-IsSound role expected public key nonce start f e =
      go (raw_frame FrameType.hello (hello_encode local)) e
    where
      local : Hello
      local = record {
        identity_public_key = public.signing_public_key;
        ephemeral_public_key = key.public_key;
        nonce = nonce;
      }

      first : Handshake E K
      first = record {
        role = role;
        expected = expected;
        local_identity = public.id;
        local = local;
        remote = none;
        private = some key.private_key;
        keys = none;
        hello_sent = false;
        auth_sent = false;
        peer_verified = false;
        closed = false;
      }

      IsFirst : Handshake E K → Type 0
      IsFirst start =
          IsSound start start
          × (start.role ≡ role)
          × (start.expected ≡ expected)
          × (start.local_identity ≡ public.id)
          × (start.private ≡ some key.private_key)

      first_lem : IsFirst first
      first_lem = (
        record {
          role_kept = refl;
          expected_kept = refl;
          identity_kept = refl;
          local_kept = refl;
          secret = λ e h. h;
          peer = (refl, refl);
          order = λ h. cc;
        },
        refl,
        refl,
        refl,
        refl,
      )

      go :
          (x : Result WireFrame HandshakeError)
          → ◌>>=◌ {B = Handshake E K × WireFrame} x (λ frame. ok (first, frame)) ≡ ok (start, f)
          → IsFirst start
      go (err x) e = cc
      go (ok frame) e =
          subst IsFirst
            (ap (λ (r : Handshake E K × WireFrame). r.0) (ok-injective (first, frame) (start, f) e))
            first_lem
