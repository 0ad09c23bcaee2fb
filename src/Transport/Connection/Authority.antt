-- ===== src/Transport/Connection/Authority.antt =====
-- Streams and keys exist only after authentication.
use talk_sphere.Base.{
  ℕ, ◌≡◌, ◌⊎◌, inl, inr, ok-injective, refl, subst, true, List, Option, none, some, Result, ok, err,
}
use talk_sphere.Transport.Api.{ConnectionId, ConnectionRole, ExpectedPeer, Event}
use talk_sphere.Transport.Connection.{
  Connection, Link, begin_shared, begin_steps, add_timeout, close_connection, pop_connection_event,
}
use talk_sphere.Transport.Connection.Driving.{poll}
use talk_sphere.Transport.Failures.{HandshakeError}
use talk_sphere.Transport.Framing.{WireFrame}
use talk_sphere.Transport.Handshake.{
  Established, Handshake, EphemeralKey, PublicIdentity, begin, is_expected, ordered,
}
use talk_sphere.Transport.Handshake.Authentication.{established_sound}
use talk_sphere.Transport.Handshake.Soundness.{IsProven}
use talk_sphere.Transport.Handshake.Keys.{Primitives, derive_keys}
use talk_sphere.Transport.Config.{TransportConfig}
use talk_sphere.Transport.Codec.Hello.{Hello}
use talk_sphere.Transport.Handshake.Life.{Life}
use talk_sphere.Transport.Handshake.Transcripts.{Identity}
use talk_sphere.Transport.Integrity.{Cryptography, Integrity}
use talk_sphere.Transport.Resources.{Counter, Resources, reserve}
use talk_sphere.Transport.Session.State.{Session}
use talk_sphere.Transport.Session.Ownership.{Reachable-IsOwned}
use talk_sphere.Transport.Session.Reachable.{Reachable}
use talk_sphere.Transport.Integrity.Held.{IsKeptFrom}
use talk_sphere.Transport.Stream.Registry.{Registry}
use talk_sphere.Transport.Connection.Guard.{
  IsAuthenticated, IsSession, IsKeyed, IsGuarded, step-IsSession, abort-IsGuarded,
}
use talk_sphere.Transport.Connection.Guard.Rounds.{poll-IsGuarded, pop-IsGuarded}

-- The life of a connection: polls, the owner's close, events that are delivered, and what its owner does
-- with the session that `session()` lends, as the relation `Uses` says.
pub data ConnectionLife {E S P K : Type 0} (identity : Identity) (crypto : Primitives E S P K)
    (cipher : Cryptography K) (latest : ℕ) (Uses : Session → Session → Type 0)
    (first : Connection E K) : Connection E K → Type 0 where
  begun : ConnectionLife identity crypto cipher latest Uses first first
  polled :
      {c : Connection E K} (now : ℕ) (registry : Registry)
      → ConnectionLife identity crypto cipher latest Uses first c
      → ConnectionLife identity crypto cipher latest Uses first
          (poll identity crypto cipher latest now registry c).0
  closed_by_owner :
      {c : Connection E K}
      → ConnectionLife identity crypto cipher latest Uses first c
      → ConnectionLife identity crypto cipher latest Uses first (close_connection c)
  popped :
      {c : Connection E K}
      → ConnectionLife identity crypto cipher latest Uses first c
      → ConnectionLife identity crypto cipher latest Uses first (pop_connection_event c).0
  operated :
      {c : Connection E K} (s t : Session)
      → ConnectionLife identity crypto cipher latest Uses first c
      → c.session ≡ some s
      → Uses s t
      → ConnectionLife identity crypto cipher latest Uses first (record c { session = some t })

-- Any number of the session's operations.
abbrev pub IsOperated : Session → Session → Type 0
IsOperated s t = (ds : List Event) × Reachable s ds t

module _ {E S P K : Type 0} (identity : Identity) (crypto : Primitives E S P K)
    (cipher : Cryptography K) (latest : ℕ) where
  ConnectionLife-IsGuarded :
      (start : Handshake E K) {first c : Connection E K}
      → ConnectionLife identity crypto cipher latest IsOperated first c
      → IsGuarded identity crypto cipher latest start first
      → IsGuarded identity crypto cipher latest start c
  unfolding close_connection
  ConnectionLife-IsGuarded start begun j = j
  ConnectionLife-IsGuarded start (polled {c} now registry life) j =
      poll-IsGuarded identity crypto cipher latest start now registry c
        (ConnectionLife-IsGuarded start life j)
  ConnectionLife-IsGuarded start (closed_by_owner {c} life) j =
      abort-IsGuarded identity crypto cipher latest start _ c
        (ConnectionLife-IsGuarded start life j)
  ConnectionLife-IsGuarded start (popped {c} life) j =
      pop-IsGuarded identity crypto cipher latest start c (ConnectionLife-IsGuarded start life j)
  ConnectionLife-IsGuarded start (operated {c} s t life held (ds, steps)) j =
      let (e, hand, session, keys) = ConnectionLife-IsGuarded start life j in
      (
        e,
        hand,
        step-IsSession identity crypto cipher latest start s t
            (λ x g. Reachable-IsOwned x s g steps) e c.handle
            (subst (IsSession identity crypto cipher latest start e c.handle) held session),
        keys,
      )

  -- A connection that has begun.
  IsBegun :
      ConnectionRole
      → ExpectedPeer
      → PublicIdentity
      → EphemeralKey E
      → List ℕ
      → Connection E K
      → Type 0
  IsBegun role expected public key nonce first =
      (start : Handshake E K) × (f : WireFrame) × (begin role expected (ok public) (ok key)
          (ok nonce)
        ≡ ok (start, f))
      × IsGuarded identity crypto cipher latest start first

  begin_shared-IsBegun :
      (role : ConnectionRole) (expected : ExpectedPeer) (config : TransportConfig) (now : ℕ)
      (public : PublicIdentity) (key : EphemeralKey E) (nonce : List ℕ) (resources : Resources)
      (handle : ConnectionId) (link : Link) (first : Connection E K)
      → (begin_shared latest role expected config now
          (ok public)
          (ok key)
          (ok nonce)
          resources
          handle
          link).1
        ≡ ok first
      → IsBegun role expected public key nonce first
  unfolding begin_shared IsBegun
  begin_shared-IsBegun role expected config now public key nonce resources handle link first e =
      go (reserve resources.connections 1) (reserve resources.outbound 112)
        (add_timeout latest now config.handshake_timeout)
        (begin role expected (ok public) (ok key) (ok nonce)) refl e
    where
      go :
          (a q : Option Counter) (d : Option ℕ)
          (b : Result (Handshake E K × WireFrame) HandshakeError)
          → begin role expected (ok public) (ok key) (ok nonce) ≡ b
          → (begin_steps resources handle link config.handshake_timeout a q d b).1 ≡ ok first
          → IsBegun role expected public key nonce first
      go none q d b begins e = cc
      go (some a) none d b begins e = cc
      go (some a) (some q) none b begins e = cc
      go (some a) (some q) (some d) (err x) begins e = cc
      go (some a) (some q) (some d) (ok (h, hello)) begins e = (
        h,
        hello,
        begins,
        subst (IsGuarded identity crypto cipher latest h) (ok-injective _ _ e)
            (none, Life.begun, tt, tt),
      )

  -- What the handshake has checked before it handed over the facts.
  abbrev pub IsPeerProven :
      ConnectionRole → ExpectedPeer → PublicIdentity → EphemeralKey E → Established K → Type 0
  IsPeerProven role expected public key facts =
      (facts.role ≡ role)
      × (facts.local_identity ≡ public.id)
      × ((local : Hello) × (remote : Hello) × (identity.identify remote.identity_public_key
            ≡ ok facts.peer_identity)
          × (is_expected expected facts.peer_identity ≡ true)
          × IsProven identity crypto role local remote
          × (derive_keys crypto role key.private_key remote.ephemeral_public_key
                (ordered role local remote)
              ≡ ok facts.keys))

  -- A session speaks for the connection, with the role and the identities of the facts.
  abbrev pub IsContextOf : ConnectionId → Established K → Option Session → Type 0
  IsContextOf handle facts none = Unit {0}
  IsContextOf handle facts (some s) =
      (s.context ≡ record {
        connection = handle;
        role = facts.role;
        local_identity = facts.local_identity;
        peer_identity = facts.peer_identity;
      })
      × (s.handle ≡ handle)

  -- Frames are sealed only with the send keys of the facts, and verified only with their receive keys.
  abbrev pub IsKeysOf : Established K → Option (Integrity K) → Type 0
  IsKeysOf facts none = Unit {0}
  IsKeysOf facts (some i) = IsKeptFrom facts.keys.send facts.keys.receive i

  peer_proven :
      (role : ConnectionRole) (expected : ExpectedPeer) (public : PublicIdentity)
      (key : EphemeralKey E) (nonce : List ℕ) (start : Handshake E K) (f : WireFrame)
      → begin role expected (ok public) (ok key) (ok nonce) ≡ ok (start, f)
      → (e : IsAuthenticated identity crypto cipher latest start)
      → IsPeerProven role expected public key e.1
  peer_proven role expected public key nonce start f begins (h, facts, life, given) =
      let (_, _, own_role, own_identity, (remote, known, pinned, proven, derived)) =
        established_sound identity crypto role expected public key nonce start h f facts begins life
          given in
      (own_role, own_identity, (start.local, remote, known, pinned, proven, derived))

  -- In any state that a connection reaches, by polls with any frames of the peer and any operations of
  -- its owner, it has no session and no keys, or the peer has been authenticated: there are facts, with
  -- the connection's own role and identity, and a HELLO of its own side and one of the peer, whose key
  -- gives the identity of the peer in the facts (the expected one, where one is expected) and signs, in
  -- the peer's role, the transcript of both, and the keys in the facts are derived from the connection's
  -- fresh secret. The session then has the connection's handle, and as its context that handle with the
  -- role and the identities of these facts, and the keys that the connection still holds for sending and
  -- for receiving are those of these facts.
  pub authenticated_first :
      (role : ConnectionRole) (expected : ExpectedPeer) (config : TransportConfig) (now : ℕ)
      (public : PublicIdentity) (key : EphemeralKey E) (nonce : List ℕ) (resources : Resources)
      (handle : ConnectionId) (link : Link) (first c : Connection E K)
      → (begin_shared latest role expected config now
          (ok public)
          (ok key)
          (ok nonce)
          resources
          handle
          link).1
        ≡ ok first
      → ConnectionLife identity crypto cipher latest IsOperated first c
      → ((c.session ≡ none) × (c.integrity ≡ none))
        ⊎ ((facts : Established K) × IsPeerProven role expected public key facts
            × IsContextOf c.handle facts c.session
            × IsKeysOf facts c.integrity)
  unfolding IsBegun
  authenticated_first role expected config now public key nonce resources handle link first c e
        life =
      let (start, f, begins, guarded) =
        begin_shared-IsBegun role expected config now public key nonce resources handle link first
          e in
      let (own, _, session, keys) = ConnectionLife-IsGuarded start life guarded in
      go start f begins own c.session c.integrity session keys
    where
      context :
          (start : Handshake E K) (own : IsAuthenticated identity crypto cipher latest start)
          (s : Option Session)
          → IsSession identity crypto cipher latest start (some own) c.handle s
          → IsContextOf c.handle own.1 s
      context start own none g = tt
      context start own (some s) g = (g.0, g.1)

      held :
          (start : Handshake E K) (own : IsAuthenticated identity crypto cipher latest start)
          (i : Option (Integrity K))
          → IsKeyed identity crypto cipher latest start (some own) i
          → IsKeysOf own.1 i
      held start own none g = tt
      held start own (some i) g = g

      go :
          (start : Handshake E K) (f : WireFrame)
          → begin role expected (ok public) (ok key) (ok nonce) ≡ ok (start, f)
          → (own : Option (IsAuthenticated identity crypto cipher latest start))
            (s : Option Session) (i : Option (Integrity K))
          → IsSession identity crypto cipher latest start own c.handle s
          → IsKeyed identity crypto cipher latest start own i
          → ((s ≡ none) × (i ≡ none))
            ⊎ ((facts : Established K) × IsPeerProven role expected public key facts
                × IsContextOf c.handle facts s
                × IsKeysOf facts i)
      go start f begins none none none a b = inl (refl, refl)
      go start f begins none (some s) i a b = elim a [ ]
      go start f begins none none (some i) a b = elim b [ ]
      go start f begins (some own) s i a b = inr (
        own.1,
        peer_proven role expected public key nonce start f begins own,
        context start own s a,
        held start own i b,
      )
