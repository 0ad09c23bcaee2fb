-- ===== src/Transport/Handshake/Authentication.antt =====
-- What a handshake has checked by the time that it hands over a connection's facts.
use talk_sphere.Base.{
  ℕ, ◌≡◌, refl, sym, subst, ◌∙◌, Bool, true, false, not, ◌&&◌, List, Option, none, some, ok,
  if◌then◌else◌, some-injective,
}
use talk_sphere.Transport.Api.{ConnectionRole, ExpectedPeer, IdentityId}
use talk_sphere.Transport.Codec.Hello.{Hello}
use talk_sphere.Transport.Framing.{WireFrame}
use talk_sphere.Transport.Handshake.Keys.{Primitives, SessionKeys, derive_keys}
use talk_sphere.Transport.Handshake.Transcripts.{Identity}
use talk_sphere.Transport.Handshake.{
  Established, EphemeralKey, Handshake, PublicIdentity, begin, take_established, established_with,
  is_authenticated, is_expected, ordered,
}
use talk_sphere.Transport.Handshake.Life.{Life, Life-keeps}
use talk_sphere.Transport.Handshake.Soundness.{
  IsPeer, IsProven, IsSound, begin-IsSound, close-IsSound, receive-IsSound, sent-IsSound,
  take-IsSound,
}

module _ {E S P K : Type 0} (identity : Identity) (crypto : Primitives E S P K) where
  -- What a state has checked when it hands over facts.
  abbrev IsChecked : ConnectionRole → ExpectedPeer → IdentityId → Hello → E → Established K → Type 0
  IsChecked role expected local_identity local private facts =
      (facts.role ≡ role)
      × (facts.local_identity ≡ local_identity)
      × ((remote : Hello) × (identity.identify remote.identity_public_key ≡ ok facts.peer_identity)
          × (is_expected expected facts.peer_identity ≡ true)
          × IsProven identity crypto role local remote
          × (derive_keys crypto role private remote.ephemeral_public_key (ordered role local remote)
              ≡ ok facts.keys))

  at_taking :
      (start h : Handshake E K) (private : E) (facts : Established K)
      → IsSound identity crypto start h
      → start.private ≡ some private
      → (take_established h).1 ≡ some facts
      → (h.hello_sent ≡ true)
        × (h.auth_sent ≡ true)
        × IsChecked h.role h.expected h.local_identity h.local private facts
  unfolding take_established is_authenticated
  at_taking start h private facts i fresh taken =
      go h.closed h.auth_sent h.peer_verified h.remote h.keys refl refl i.peer taken
    where
      go :
          (c a v : Bool) (remote : Option (Hello × IdentityId)) (keys : Option (SessionKeys K))
          → h.auth_sent ≡ a
          → h.keys ≡ keys
          → IsPeer identity crypto start h remote keys v
          → (if◌then◌else◌ {A = Handshake E K × Option (Established K)}
              (not (not c && (a && v)))
              (h, none)
              (established_with h remote keys)).1
            ≡ some facts
          → (h.hello_sent ≡ true)
            × (h.auth_sent ≡ true)
            × IsChecked h.role h.expected h.local_identity h.local private facts
      go true a v remote keys ea ek p t = cc
      go false false v remote keys ea ek p t = cc
      go false true false remote keys ea ek p t = cc
      go false true true none keys ea ek p t = cc
      go false true true (some remote) none ea ek p t = cc
      go false true true (some (remote, id)) (some keys) ea ek (known, pinned, proven, keyed) t =
          let (own, held, derived) = keyed keys refl in
          let same : own ≡ private = some-injective (sym held ∙ fresh) in
          (
            i.order ea,
            ea,
            subst (IsChecked h.role h.expected h.local_identity h.local private) (some-injective t)
                (
                  refl,
                  refl,
                  (
                    remote,
                    known,
                    pinned,
                    proven refl,
                    subst
                        (λ e.
                          derive_keys crypto h.role e remote.ephemeral_public_key
                            (ordered h.role h.local remote)
                          ≡ ok keys)
                        same derived,
                  ),
                ),
          )

  -- Where a handshake that has begun with an identity and a fresh key hands over a connection's facts,
  -- after any calls and any frames of the peer, its HELLO and its AUTH have been written, the facts are
  -- its own role and identity, and there is a HELLO of the peer whose key identifies the peer (and the
  -- expected one, where one is expected) and signs, in the peer's role, the transcript of both HELLOs,
  -- and from which with the fresh key the keys are derived.
  pub established_sound :
      (role : ConnectionRole) (expected : ExpectedPeer) (public : PublicIdentity)
      (key : EphemeralKey E) (nonce : List ℕ) (start h : Handshake E K) (f : WireFrame)
      (facts : Established K)
      → begin role expected (ok public) (ok key) (ok nonce) ≡ ok (start, f)
      → Life identity crypto start h
      → (take_established h).1 ≡ some facts
      → (h.hello_sent ≡ true)
        × (h.auth_sent ≡ true)
        × (facts.role ≡ role)
        × (facts.local_identity ≡ public.id)
        × ((remote : Hello) × (identity.identify remote.identity_public_key
              ≡ ok facts.peer_identity)
            × (is_expected expected facts.peer_identity ≡ true)
            × IsProven identity crypto role start.local remote
            × (derive_keys crypto role key.private_key remote.ephemeral_public_key
                  (ordered role start.local remote)
                ≡ ok facts.keys))
  established_sound role expected public key nonce start h f facts begins life taken =
      let (first, role_first, expected_first, identity_first, fresh) =
        begin-IsSound identity crypto role expected public key nonce start f begins in
      let i =
        Life-keeps identity crypto (IsSound identity crypto start)
          (sent-IsSound identity crypto start) (receive-IsSound identity crypto start)
          (take-IsSound identity crypto start) (close-IsSound identity crypto start) life first in
      let (hello, auth, checked) = at_taking start h key.private_key facts i fresh taken in
      let (own_role, own_identity, peer) =
        subst (λ r. IsChecked r expected public.id start.local key.private_key facts)
          (i.role_kept ∙ role_first)
          (subst (λ x. IsChecked h.role x public.id start.local key.private_key facts)
            (i.expected_kept ∙ expected_first)
            (subst (λ x. IsChecked h.role h.expected x start.local key.private_key facts)
              (i.identity_kept ∙ identity_first)
              (subst (λ x. IsChecked h.role h.expected h.local_identity x key.private_key facts)
                i.local_kept checked))) in
      (hello, auth, own_role, own_identity, peer)
