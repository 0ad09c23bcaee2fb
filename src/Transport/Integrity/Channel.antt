-- ===== src/Transport/Integrity/Channel.antt =====
-- A sender and a receiver that hold the same keys.
use talk_sphere.Base.{
  ℕ, ◌+◌, ◌<◌, ◌≡◌, ◌^◌, refl, sym, ap, ◌∙◌, true, false, ◌==◌, ◌-◌, List, some, Result, ok, arith,
}
use talk_sphere.Base.Bytes.{IsU64}
use talk_sphere.Transport.Framing.{WireFrame, wire_frame}
use talk_sphere.Transport.Integrity.{
  Cryptography, DirectionKeys, Integrity, IntegrityError, nonce, authenticated_data, seal,
  seal_with, sealed_frame, sent_sealed, verify, verify_with, fail,
}

module _ {K : Type 0} (crypto : Cryptography K) where
  -- One direction of a connection, between its two ends.
  pub record IsPaired (a b : Integrity K) : Type 0 where
    pub keys : DirectionKeys K
    pub sends : a.send ≡ some keys
    pub receives : b.receive ≡ some keys
    pub same_sequence : a.send_sequence ≡ b.receive_sequence

  -- The guards that a successful seal has passed.
  pub seal_reaches :
      (f g : WireFrame) (s : Integrity K) (d : DirectionKeys K)
      → s.send ≡ some d
      → (seal crypto f s).1 ≡ ok g
      → (s.pending_send ≡ false)
        × ((s.send_sequence == 2 ^ 64 - 1) ≡ false)
        × (seal crypto f s ≡ seal_with crypto f d s)
  unfolding seal fail
  seal_reaches f g s d h e = ground (arith, h, e)

  pub seal_with-eq_ok :
      (f g : WireFrame) (s : Integrity K) (d : DirectionKeys K)
      → (seal_with crypto f d s).1 ≡ ok g
      → (t : List ℕ) × (crypto.make_tag d.key
            (nonce d.nonce_prefix s.send_sequence)
            (authenticated_data f)
          ≡ ok t)
        × (g ≡ record f { tag = some t })
        × ((seal_with crypto f d s).0 ≡ record s { pending_send = true })
  unfolding seal_with sealed_frame wire_frame fail
  seal_with-eq_ok f g s d e = ground (arith, e)

  verify-eq_ok :
      (f : WireFrame) (t : List ℕ) (b : Integrity K) (d : DirectionKeys K)
      → b.receive ≡ some d
      → f.tag ≡ some t
      → crypto.verify_tag d.key (nonce d.nonce_prefix b.receive_sequence) (authenticated_data f) t
        ≡ ok tt
      → b.receive_sequence + 1 < 2 ^ 64
      → verify crypto f b ≡ (record b { receive_sequence = b.receive_sequence + 1 }, ok f)
  unfolding verify verify_with fail
  verify-eq_ok f t b d h i v room = ground (arith, h, i, v, room)

  sent_sealed-eq_ok :
      (s : Integrity K) (d : DirectionKeys K)
      → s.send ≡ some d
      → s.pending_send ≡ true
      → s.send_sequence + 1 < 2 ^ 64
      → sent_sealed s
        ≡ (record s { send_sequence = s.send_sequence + 1; pending_send = false }, ok tt)
  unfolding sent_sealed fail
  sent_sealed-eq_ok s d h p room = ground (arith, h, p, room)

  authenticated_data-tagged :
      (f : WireFrame) (t : List ℕ)
      → authenticated_data (record f { tag = some t }) ≡ authenticated_data f
  unfolding authenticated_data
  authenticated_data-tagged f t = refl

  -- Where the cipher verifies the tags that it makes, and two ends hold the same keys at the same sequence
  -- number: a frame that one end seals is delivered unchanged by the other, the write completes, each end is
  -- at the sequence number after the one it had, and the ends hold the same keys at the same number again.
  pub seal-verify :
      (f g : WireFrame) (a b : Integrity K)
      → ((k : K) (n aad t : List ℕ)
          → crypto.make_tag k n aad ≡ ok t
          → crypto.verify_tag k n aad t ≡ ok tt)
      → IsPaired a b
      → IsU64 a.send_sequence
      → (seal crypto f a).1 ≡ ok g
      → (g.header ≡ f.header)
        × (g.payload ≡ f.payload)
        × ((sent_sealed (seal crypto f a).0).1 ≡ ok tt)
        × ((verify crypto g b).1 ≡ ok g)
        × ((sent_sealed (seal crypto f a).0).0.send_sequence ≡ a.send_sequence + 1)
        × ((verify crypto g b).0.receive_sequence ≡ b.receive_sequence + 1)
        × IsPaired (sent_sealed (seal crypto f a).0).0 (verify crypto g b).0
  unfolding verify verify_with sent_sealed fail
  seal-verify f g a b law pair fits e =
      let (idle, room, same) = seal_reaches f g a pair.keys pair.sends e in
      let (t, made, shape, next) =
        seal_with-eq_ok f g a pair.keys
          (ap (λ (r : Integrity K × Result WireFrame IntegrityError). r.1) (sym same) ∙ e) in
      let sealed_state : (seal crypto f a).0 ≡ record a { pending_send = true } =
        ap (λ (r : Integrity K × Result WireFrame IntegrityError). r.0) same ∙ next in
      let below : a.send_sequence + 1 < 2 ^ 64 = ground (arith, room, fits) in
      let checked =
        law pair.keys.key (nonce pair.keys.nonce_prefix a.send_sequence) (authenticated_data f) t
          made in
      rw (shape, sealed_state)
        (rw
          (
            sent_sealed-eq_ok (record a { pending_send = true }) pair.keys pair.sends refl below,
            verify-eq_ok (record f { tag = some t }) t b pair.keys pair.receives refl
                (rw (sym pair.same_sequence, authenticated_data-tagged f t) checked)
                (rw (sym pair.same_sequence) below),
          )
          ((
            refl,
            refl,
            refl,
            refl,
            refl,
            refl,
            record {
              keys = pair.keys;
              sends = pair.sends;
              receives = pair.receives;
              same_sequence = rw pair.same_sequence refl;
            },
          )))
