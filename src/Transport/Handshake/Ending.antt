-- ===== src/Transport/Handshake/Ending.antt =====
-- How a handshake ends: with a failure, or with the transfer of its keys.
use talk_sphere.Base.{
  ◌≡◌, refl, Bool, true, false, not, ◌&&◌, Option, none, some, Result, ok, err, if◌then◌else◌,
}
use talk_sphere.Transport.Api.{IdentityId}
use talk_sphere.Transport.Codec.Frames.{FrameType}
use talk_sphere.Transport.Codec.Hello.{Hello}
use talk_sphere.Transport.Failures.{HandshakeError}
use talk_sphere.Transport.Framing.{WireFrame}
use talk_sphere.Transport.Handshake.Keys.{Primitives, SessionKeys}
use talk_sphere.Transport.Handshake.Transcripts.{Identity}
use talk_sphere.Transport.Handshake.{
  Established, Handshake, close_handshake, sent, take_established, established_with,
  is_authenticated, receive, process, settled,
}
use talk_sphere.Transport.Handshake.Life.{Life, Life-keeps, sent-keeps, receive-keeps}

module _ {E K : Type 0} where
  -- Closed, without a secret.
  pub record IsOver (h : Handshake E K) : Type 0 where
    pub closed : h.closed ≡ true
    pub no_private : h.private ≡ none
    pub no_keys : h.keys ≡ none

  -- Verified, with its keys handed over or released.
  record IsSpent (h : Handshake E K) : Type 0 where
    verified : h.peer_verified ≡ true
    no_keys : h.keys ≡ none

  close-IsOver : (h : Handshake E K) → IsOver (close_handshake h)
  unfolding close_handshake
  close-IsOver h = record { closed = refl; no_private = refl; no_keys = refl }

  close-IsSpent : (h : Handshake E K) → IsSpent h → IsSpent (close_handshake h)
  unfolding close_handshake
  close-IsSpent h i = record { verified = i.verified; no_keys = refl }

  take-IsOver : (h : Handshake E K) → IsOver h → take_established h ≡ (h, none)
  unfolding take_established is_authenticated
  take-IsOver h i = rw i.closed

  no_keys_none : (h : Handshake E K) → h.keys ≡ none → (take_established h).1 ≡ none
  unfolding take_established
  no_keys_none h e = go (not (is_authenticated h)) h.remote h.keys e
    where
      go :
          (b : Bool) (remote : Option (Hello × IdentityId)) (keys : Option (SessionKeys K))
          → keys ≡ none
          → (if◌then◌else◌ {A = Handshake E K × Option (Established K)} b
              (h, none)
              (established_with h remote keys)).1
            ≡ none
      go true remote keys e = refl
      go false none keys e = refl
      go false (some remote) none e = refl
      go false (some remote) (some k) e = cc

  -- What a call that hands over facts leaves.
  take-IsSpent :
      (h : Handshake E K) (facts : Established K)
      → (take_established h).1 ≡ some facts
      → IsSpent (take_established h).0
  unfolding take_established is_authenticated
  take-IsSpent h facts e = go h.closed h.auth_sent h.peer_verified h.remote h.keys refl e
    where
      go :
          (c a v : Bool) (remote : Option (Hello × IdentityId)) (keys : Option (SessionKeys K))
          → h.peer_verified ≡ v
          → (if◌then◌else◌ {A = Handshake E K × Option (Established K)}
              (not (not c && (a && v)))
              (h, none)
              (established_with h remote keys)).1
            ≡ some facts
          → IsSpent
              (if◌then◌else◌ {A = Handshake E K × Option (Established K)}
                (not (not c && (a && v)))
                (h, none)
                (established_with h remote keys)).0
      go true a v remote keys ev t = cc
      go false false v remote keys ev t = cc
      go false true false remote keys ev t = cc
      go false true true none keys ev t = cc
      go false true true (some remote) none ev t = cc
      go false true true (some (remote, id)) (some keys) ev t = record {
        verified = ev;
        no_keys = refl;
      }

  settled-IsOver :
      (x : Handshake E K × Result (Option WireFrame) HandshakeError) (e : HandshakeError)
      → (settled x).1 ≡ err e
      → IsOver (settled x).0
  unfolding settled
  settled-IsOver (h, err x) e r = close-IsOver h
  settled-IsOver (h, ok out) e r = cc

  sent_over :
      (h : Handshake E K) (kind : FrameType)
      → h.closed ≡ true
      → (sent kind h).1 ≡ err HandshakeError.order
  unfolding sent
  sent_over h FrameType.hello e = rw e
  sent_over h FrameType.auth e = rw e
  sent_over h FrameType.ping e = refl
  sent_over h FrameType.pong e = refl
  sent_over h FrameType.go_away e = refl
  sent_over h FrameType.error e = refl
  sent_over h FrameType.open_frame e = refl
  sent_over h FrameType.data_frame e = refl
  sent_over h FrameType.end e = refl
  sent_over h FrameType.cancel e = refl

  take-keeps {ℓ} :
      (Q : Handshake E K → Type ℓ) (h : Handshake E K)
      → Q h
      → Q (record h { keys = none })
      → Q (take_established h).0
  unfolding take_established
  take-keeps Q h q without = go (not (is_authenticated h)) h.remote h.keys
    where
      go :
          (b : Bool) (remote : Option (Hello × IdentityId)) (keys : Option (SessionKeys K))
          → Q
              (if◌then◌else◌ {A = Handshake E K × Option (Established K)} b
                (h, none)
                (established_with h remote keys)).0
      go true remote keys = q
      go false none keys = q
      go false (some remote) none = q
      go false (some remote) (some k) = without

module _ {E S P K : Type 0} (identity : Identity) (crypto : Primitives E S P K) where
  receive_over :
      (h : Handshake E K) (f : WireFrame)
      → h.closed ≡ true
      → (receive identity crypto h f).1 ≡ err HandshakeError.order
  unfolding receive process settled
  receive_over h f e = rw e

  Life-IsOver : {h later : Handshake E K} → Life identity crypto h later → IsOver h → IsOver later
  Life-IsOver =
      Life-keeps identity crypto IsOver
        (λ h kind i. sent-keeps IsOver h kind (close-IsOver h) (λ e. cc) (λ e _ _. cc))
        (λ h f i.
          receive-keeps identity crypto IsOver h f (close-IsOver h)
            (λ remote id auth _ _. (
              record { closed = i.closed; no_private = i.no_private; no_keys = i.no_keys },
              close-IsOver _,
            ))
            (λ remote id private keys e _ _ _ _ _. cc))
        (λ h i.
          take-keeps IsOver h i
            (record { closed = i.closed; no_private = i.no_private; no_keys = refl }))
        (λ h i. close-IsOver h)

  Life-IsSpent :
      {h later : Handshake E K} → Life identity crypto h later → IsSpent h → IsSpent later
  unfolding close_handshake
  Life-IsSpent =
      Life-keeps identity crypto IsSpent
        (λ h kind i.
          sent-keeps IsSpent h kind (close-IsSpent h i)
            (λ e. record { verified = i.verified; no_keys = i.no_keys })
            (λ e _ _. record { verified = i.verified; no_keys = i.no_keys }))
        (λ h f i.
          receive-keeps identity crypto IsSpent h f (close-IsSpent h i)
            (λ remote id auth _ _. (
              record { verified = i.verified; no_keys = i.no_keys },
              record { verified = i.verified; no_keys = refl },
            ))
            (λ remote id private keys _ e _ _ _ _. cc))
        (λ h i. take-keeps IsSpent h i (record { verified = i.verified; no_keys = refl }))
        (λ h i. close-IsSpent h i)

  -- Once a handshake has handed over a connection's facts and keys, it never does so again, whatever is
  -- called and whatever the peer sends.
  pub released_once :
      (h later : Handshake E K) (facts : Established K)
      → (take_established h).1 ≡ some facts
      → Life identity crypto (take_established h).0 later
      → (take_established later).1 ≡ none
  released_once h later facts e life =
      no_keys_none later (Life-IsSpent life (take-IsSpent h facts e)).no_keys

  -- A frame that the handshake refuses closes it for good: whatever follows, it holds no secret and no
  -- keys, it hands over nothing, and it refuses every frame and every report of output as out of order.
  pub refused_is_final :
      (h later : Handshake E K) (f : WireFrame) (e : HandshakeError)
      → (receive identity crypto h f).1 ≡ err e
      → Life identity crypto (receive identity crypto h f).0 later
      → IsOver later
        × (take_established later ≡ (later, none))
        × ((g : WireFrame) → (receive identity crypto later g).1 ≡ err HandshakeError.order)
        × ((kind : FrameType) → (sent kind later).1 ≡ err HandshakeError.order)
  unfolding receive
  refused_is_final h later f e refused life =
      let over = Life-IsOver life (settled-IsOver (process identity crypto h f) e refused) in
      (
        over,
        take-IsOver later over,
        (λ g. receive_over later g over.closed),
        (λ kind. sent_over later kind over.closed),
      )
