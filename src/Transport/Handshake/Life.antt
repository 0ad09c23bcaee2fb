-- ===== src/Transport/Handshake/Life.antt =====
-- The whole life of one handshake, as steps.
use talk_sphere.Base.{
  ℕ, ◌≡◌, refl, Bool, true, false, not, ◌&&◌, ◌||◌, List, Option, none, some, is_some, Result, ok,
  err, ◌>>=◌, if◌then◌else◌, ◌==◌,
}
use talk_sphere.Transport.Api.{IdentityId}
use talk_sphere.Transport.Codec.Control.{Diagnostic, PayloadError, error_decode}
use talk_sphere.Transport.Codec.Frames.{FrameType}
use talk_sphere.Transport.Codec.Hello.{Hello}
use talk_sphere.Transport.Failures.{HandshakeError}
use talk_sphere.Transport.Framing.{WireFrame}
use talk_sphere.Transport.Integrity.{DependencyError}
use talk_sphere.Transport.Handshake.Keys.{Primitives, SessionKeys, derive_keys}
use talk_sphere.Transport.Handshake.Transcripts.{Identity}
use talk_sphere.Transport.Handshake.{
  Handshake, close_handshake, raw_frame, sent, take_established, receive, process, process_kind,
  hello_facts, proof_check, accept_hello, accept_auth, accept_keys, settled, ordered,
}

module _ {E K : Type 0} where
  -- The calls that a state refuses leave it or close it.
  pub sent-keeps {ℓ} :
      (Q : Handshake E K → Type ℓ) (h : Handshake E K) (kind : FrameType)
      → Q (close_handshake h)
      → (h.closed ≡ false → Q (record h { hello_sent = true }))
      → (h.closed ≡ false
          → h.hello_sent ≡ true
          → is_some h.remote ≡ true
          → Q (record h { auth_sent = true }))
      → Q (sent kind h).0
  unfolding sent
  sent-keeps Q h FrameType.hello stop hello auth = go h.closed h.hello_sent hello
    where
      go :
          (c s : Bool)
          → (c ≡ false → Q (record h { hello_sent = true }))
          → Q
              (if◌then◌else◌ {A = Handshake E K × Result (Unit {0}) HandshakeError}
                (not c && not s)
                (record h { hello_sent = true }, ok tt)
                (close_handshake h, err HandshakeError.order)).0
      go false false k = k refl
      go false true k = stop
      go true s k = stop
  sent-keeps Q h FrameType.auth stop hello auth =
      go h.closed h.hello_sent h.auth_sent (is_some h.remote) auth
    where
      go :
          (c s a r : Bool)
          → (c ≡ false → s ≡ true → r ≡ true → Q (record h { auth_sent = true }))
          → Q
              (if◌then◌else◌ {A = Handshake E K × Result (Unit {0}) HandshakeError}
                (not c && (s && (not a && r)))
                (record h { auth_sent = true }, ok tt)
                (close_handshake h, err HandshakeError.order)).0
      go false true false true k = k refl refl refl
      go false true false false k = stop
      go false true true r k = stop
      go false false a r k = stop
      go true s a r k = stop
  sent-keeps Q h FrameType.ping stop hello auth = stop
  sent-keeps Q h FrameType.pong stop hello auth = stop
  sent-keeps Q h FrameType.go_away stop hello auth = stop
  sent-keeps Q h FrameType.error stop hello auth = stop
  sent-keeps Q h FrameType.open_frame stop hello auth = stop
  sent-keeps Q h FrameType.data_frame stop hello auth = stop
  sent-keeps Q h FrameType.end stop hello auth = stop
  sent-keeps Q h FrameType.cancel stop hello auth = stop

module _ {E S P K : Type 0} (identity : Identity) (crypto : Primitives E S P K) where
  -- From a state, the states that the calls of the owner lead to.
  pub data Life (h : Handshake E K) : Handshake E K → Type 0 where
    begun : Life h h
    reported : {now : Handshake E K} (kind : FrameType) → Life h now → Life h (sent kind now).0
    received :
        {now : Handshake E K} (f : WireFrame)
        → Life h now
        → Life h (receive identity crypto now f).0
    taken : {now : Handshake E K} → Life h now → Life h (take_established now).0
    shut : {now : Handshake E K} → Life h now → Life h (close_handshake now)

  -- What every call keeps is kept for life.
  pub Life-keeps {ℓ} :
      (Q : Handshake E K → Type ℓ)
      → ((h : Handshake E K) (kind : FrameType) → Q h → Q (sent kind h).0)
      → ((h : Handshake E K) (f : WireFrame) → Q h → Q (receive identity crypto h f).0)
      → ((h : Handshake E K) → Q h → Q (take_established h).0)
      → ((h : Handshake E K) → Q h → Q (close_handshake h))
      → {h now : Handshake E K} → Life h now
      → Q h
      → Q now
  Life-keeps Q a b c d begun q = q
  Life-keeps Q a b c d (reported {now} kind life) q = a now kind (Life-keeps Q a b c d life q)
  Life-keeps Q a b c d (received {now} f life) q = b now f (Life-keeps Q a b c d life q)
  Life-keeps Q a b c d (taken {now} life) q = c now (Life-keeps Q a b c d life q)
  Life-keeps Q a b c d (shut {now} life) q = d now (Life-keeps Q a b c d life q)

  module _ {ℓ} (Q : Handshake E K → Type ℓ) (h : Handshake E K) (f : WireFrame)
      (stop : Q (close_handshake h)) where
    -- What a HELLO that is accepted leaves.
    abbrev IsHelloKept : Type ℓ
    IsHelloKept =
        (remote : Hello) (id : IdentityId) (auth : List ℕ)
        → h.remote ≡ none
        → hello_facts identity crypto h f.payload ≡ ok (remote, id, auth)
        → Q (record h { remote = some (remote, id) })
          × Q (close_handshake (record h { remote = some (remote, id) }))

    -- What an AUTH that is accepted leaves.
    abbrev IsAuthKept : Type ℓ
    IsAuthKept =
        (remote : Hello) (id : IdentityId) (private : E) (keys : SessionKeys K)
        → h.closed ≡ false
        → h.peer_verified ≡ false
        → h.remote ≡ some (remote, id)
        → h.private ≡ some private
        → proof_check identity crypto h remote f.payload ≡ ok tt
        → derive_keys crypto h.role private remote.ephemeral_public_key
            (ordered h.role h.local remote)
          ≡ ok keys
        → Q (record h { private = none; keys = some keys; peer_verified = true })

    hello-keeps :
        (x : Result (Hello × IdentityId × List ℕ) HandshakeError)
        → hello_facts identity crypto h f.payload ≡ x
        → h.remote ≡ none
        → IsHelloKept
        → Q (settled (accept_hello h x)).0
    unfolding accept_hello settled
    hello-keeps (err e) facts new kept = stop
    hello-keeps (ok (remote, id, auth)) facts new kept =
        go (raw_frame FrameType.auth auth) (kept remote id auth new facts)
      where
        go :
            (x : Result WireFrame HandshakeError)
            → Q (record h { remote = some (remote, id) })
              × Q (close_handshake (record h { remote = some (remote, id) }))
            → Q (settled (record h { remote = some (remote, id) }, (x >>= λ f. ok (some f)))).0
        go (ok f) q = q.0
        go (err e) q = q.1

    auth-keeps :
        (remote : Hello) (id : IdentityId) (private : Option E)
        (x : Result (Unit {0}) HandshakeError)
        → h.closed ≡ false
        → h.peer_verified ≡ false
        → h.remote ≡ some (remote, id)
        → h.private ≡ private
        → proof_check identity crypto h remote f.payload ≡ x
        → IsAuthKept
        → Q (settled (accept_auth identity crypto h remote private x)).0
    unfolding accept_auth settled close_handshake
    auth-keeps remote id private (err e) ec ev er ep proof kept = stop
    auth-keeps remote id none (ok u) ec ev er ep proof kept = stop
    auth-keeps remote id (some private) (ok u) ec ev er ep proof kept =
        go
          (derive_keys crypto h.role private remote.ephemeral_public_key
            (ordered h.role h.local remote))
          refl
      where
        go :
            (x : Result (SessionKeys K) DependencyError)
            → derive_keys crypto h.role private remote.ephemeral_public_key
                (ordered h.role h.local remote)
              ≡ x
            → Q (settled (accept_keys h x)).0
        go (err e) d = stop
        go (ok keys) d = kept remote id private keys ec ev er ep proof d

    kind-keeps :
        (kind : FrameType) (remote : Option (Hello × IdentityId))
        → h.closed ≡ false
        → h.peer_verified ≡ false
        → h.remote ≡ remote
        → IsHelloKept
        → IsAuthKept
        → Q (settled (process_kind identity crypto h f kind remote)).0
    unfolding process_kind settled
    kind-keeps FrameType.hello none ec ev er hello auth =
        hello-keeps (hello_facts identity crypto h f.payload) refl er hello
    kind-keeps FrameType.auth (some (remote, id)) ec ev er hello auth =
        auth-keeps remote id h.private (proof_check identity crypto h remote f.payload) ec ev er
          refl refl auth
    kind-keeps FrameType.error remote ec ev er hello auth = go (error_decode f.payload)
      where
        go :
            (x : Result Diagnostic PayloadError)
            → Q
                (settled (
                  h,
                  elim x [
                    | err e ↦ err HandshakeError.order
                    | ok d ↦ err (HandshakeError.peer d.code)
                  ],
                )).0
        go (ok d) = stop
        go (err e) = stop
    kind-keeps FrameType.hello (some r) ec ev er hello auth = stop
    kind-keeps FrameType.auth none ec ev er hello auth = stop
    kind-keeps FrameType.ping remote ec ev er hello auth = stop
    kind-keeps FrameType.pong remote ec ev er hello auth = stop
    kind-keeps FrameType.go_away remote ec ev er hello auth = stop
    kind-keeps FrameType.open_frame remote ec ev er hello auth = stop
    kind-keeps FrameType.data_frame remote ec ev er hello auth = stop
    kind-keeps FrameType.end remote ec ev er hello auth = stop
    kind-keeps FrameType.cancel remote ec ev er hello auth = stop

    -- A frame closes the state, or is a HELLO or an AUTH that has passed its checks.
    pub receive-keeps : IsHelloKept → IsAuthKept → Q (receive identity crypto h f).0
    unfolding receive process settled
    receive-keeps hello auth =
        go h.closed h.peer_verified (not (f.header.stream_id == 0)) (is_some f.tag) refl refl
      where
        go :
            (c v s t : Bool)
            → h.closed ≡ c
            → h.peer_verified ≡ v
            → Q
                (settled (
                  if c || (v || (s || t))
                  then (h, err HandshakeError.order)
                  else process_kind identity crypto h f f.header.frame_type h.remote)).0
        go false false false false ec ev =
            kind-keeps f.header.frame_type h.remote ec ev refl hello auth
        go true v s t ec ev = stop
        go false true s t ec ev = stop
        go false false true t ec ev = stop
        go false false false true ec ev = stop
