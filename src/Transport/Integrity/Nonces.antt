-- ===== src/Transport/Integrity/Nonces.antt =====
-- The nonces that one end of a connection uses.
use talk_sphere.Base.{
  ℕ, ◌+◌, ◌<◌, ◌≡◌, ◌≢◌, refl, sym, ap, Option-cases, inl, inr, ◌∙◌, ◌≤◌, true, List, [], ◌∷◌, none,
  some, is_some, Result, ok, err, All, arith, bit,
}
use talk_sphere.Base.Bytes.{IsU64}
use talk_sphere.Transport.Framing.{WireFrame}
use talk_sphere.Transport.Integrity.{
  Cryptography, DirectionKeys, Integrity, IntegrityError, nonce, authenticated_data, seal,
  seal_with, sealed_frame, sent_sealed, verify, verify_with, fail, close_keys,
}
use talk_sphere.Transport.Integrity.Channel.{seal_reaches, seal_with-eq_ok}

-- Different sequence numbers give different nonces.
nonce-injective : (p : List ℕ) (m n : ℕ) → IsU64 m → IsU64 n → nonce p m ≡ nonce p n → m ≡ n
unfolding nonce
nonce-injective [] m n hm hn e = ground (arith, hm, hn, e)
nonce-injective (x ∷ p) m n hm hn e = nonce-injective p m n hm hn (ground (arith, e))

-- A frame that was given to seal, the frame that came out, and the number that it was sealed at.
pub record Sealing : Type 0 where
  pub given : WireFrame
  pub made : WireFrame
  pub number : ℕ

-- The life of one end, with the frames that it has sealed, the last one first.
pub data Run {K : Type 0} (crypto : Cryptography K) (start : Integrity K)
    : List Sealing → Integrity K → Type 0 where
  begun : Run crypto start [] start
  sealed :
      (f g : WireFrame) {us : List Sealing} {s : Integrity K}
      → Run crypto start us s
      → (seal crypto f s).1 ≡ ok g
      → Run crypto start
          (record { given = f; made = g; number = s.send_sequence } ∷ us)
          (seal crypto f s).0
  refused :
      (f : WireFrame) (e : IntegrityError) {us : List Sealing} {s : Integrity K}
      → Run crypto start us s
      → (seal crypto f s).1 ≡ err e
      → Run crypto start us (seal crypto f s).0
  written :
      {us : List Sealing} {s : Integrity K}
      → Run crypto start us s
      → Run crypto start us (sent_sealed s).0
  verified :
      (f : WireFrame) {us : List Sealing} {s : Integrity K}
      → Run crypto start us s
      → Run crypto start us (verify crypto f s).0
  closed_keys :
      {us : List Sealing} {s : Integrity K}
      → Run crypto start us s
      → Run crypto start us (close_keys s)

-- The tag that a sealed frame carries is the one made over the given frame under the nonce of its number.
abbrev pub IsTagged : {K : Type 0} → Cryptography K → DirectionKeys K → Sealing → Type 0
IsTagged crypto d u =
    (t : List ℕ) × (u.made.tag ≡ some t)
    × (crypto.make_tag d.key (nonce d.nonce_prefix u.number) (authenticated_data u.given) ≡ ok t)

module _ {K : Type 0} (crypto : Cryptography K) where
  -- While the keys are held, the used numbers are below the next one and the tags are made under them.
  record IsUnused (us : List Sealing) (s : Integrity K) : Type 0 where
    fits : IsU64 s.send_sequence
    below : is_some s.send ≡ true → All (λ u. u.number < s.send_sequence + bit s.pending_send) us
    tagged : (d : DirectionKeys K) → s.send ≡ some d → All (IsTagged crypto d) us

  All-below :
      (a b : ℕ) (us : List Sealing)
      → a ≤ b
      → All (λ u. u.number < a) us
      → All (λ u. u.number < b) us
  All-below a b [] h v = tt
  All-below a b (u ∷ us) h v = (omega (arith, h, v.0), All-below a b us h v.1)

  -- What a step leaves: if it keeps the keys, the next unused number does not fall.
  abbrev IsAdvance : Integrity K → Integrity K → Type 0
  IsAdvance s t =
      (IsU64 s.send_sequence → IsU64 t.send_sequence)
      × (is_some t.send ≡ true
          → (is_some s.send ≡ true)
            × (s.send_sequence + bit s.pending_send ≤ t.send_sequence + bit t.pending_send))
      × ((d : DirectionKeys K) → t.send ≡ some d → s.send ≡ some d)

  IsAdvance-IsUnused :
      (us : List Sealing) (s t : Integrity K) → IsAdvance s t → IsUnused us s → IsUnused us t
  IsAdvance-IsUnused us s t a v = record {
    fits = a.0 v.fits;
    below = λ h. All-below _ _ us (a.1 h).1 (v.below (a.1 h).0);
    tagged = λ d h. v.tagged d (a.2 d h);
  }

  sent_sealed-IsAdvance : (s : Integrity K) → IsAdvance s (sent_sealed s).0
  unfolding sent_sealed fail close_keys
  sent_sealed-IsAdvance s = (ground arith, ground arith, λ d k. ground (arith, k))

  refused-IsAdvance :
      (f : WireFrame) (e : IntegrityError) (s : Integrity K)
      → (seal crypto f s).1 ≡ err e
      → IsAdvance s (seal crypto f s).0
  unfolding seal seal_with sealed_frame fail close_keys
  refused-IsAdvance f e s h = (ground (arith, h), ground (arith, h), λ d k. ground (arith, h, k))

  verify-IsAdvance : (f : WireFrame) (s : Integrity K) → IsAdvance s (verify crypto f s).0
  unfolding verify verify_with fail close_keys
  verify-IsAdvance f s = (ground arith, ground arith, λ d k. ground (arith, k))

  close_keys-IsAdvance : (s : Integrity K) → IsAdvance s (close_keys s)
  unfolding close_keys
  close_keys-IsAdvance s = (ground arith, ground arith, λ d k. ground (arith, k))

  seal-closed : (f g : WireFrame) (s : Integrity K) → s.send ≡ none → (seal crypto f s).1 ≢ ok g
  unfolding seal
  seal-closed f g s h e = ground (arith, h, e)

  seal-IsTagged :
      (f g : WireFrame) (s : Integrity K) (d : DirectionKeys K)
      → s.send ≡ some d
      → (seal crypto f s).1 ≡ ok g
      → IsTagged crypto d (record { given = f; made = g; number = s.send_sequence })
  seal-IsTagged f g s d h e =
      let (idle, room, same) = seal_reaches crypto f g s d h e in
      let (t, made, shape, next) =
        seal_with-eq_ok crypto f g s d
          (ap (λ (r : Integrity K × Result WireFrame IntegrityError). r.1) (sym same) ∙ e) in
      (t, ap (λ (w : WireFrame). w.tag) shape, made)

  sealed-IsUnused :
      (f g : WireFrame) (us : List Sealing) (s : Integrity K)
      → IsUnused us s
      → (seal crypto f s).1 ≡ ok g
      → IsUnused (record { given = f; made = g; number = s.send_sequence } ∷ us) (seal crypto f s).0
  sealed-IsUnused f g us s v e = elim (Option-cases s.send) [
    | inl h ↦ elim (seal-closed f g s h e) [ ]
    | inr (d, h) ↦
        let (idle, room, same) = seal_reaches crypto f g s d h e in
        let (t, made, shape, next) =
          seal_with-eq_ok crypto f g s d
            (ap (λ (r : Integrity K × Result WireFrame IntegrityError). r.1) (sym same) ∙ e) in
        let after : (seal crypto f s).0 ≡ record s { pending_send = true } =
          ap (λ (r : Integrity K × Result WireFrame IntegrityError). r.0) same ∙ next in
        let idle_bit : bit s.pending_send ≡ 0 = rw idle refl in
        rw after (record {
          fits = v.fits;
          below = λ k. (omega arith, All-below _ _ us (omega (arith, idle_bit)) (v.below k));
          tagged = λ c k. (seal-IsTagged f g s c k e, v.tagged c k);
        })
  ]

  module _ (start : Integrity K) (initial : IsU64 start.send_sequence) where
    Run-IsUnused : (us : List Sealing) (s : Integrity K) → Run crypto start us s → IsUnused us s
    Run-IsUnused us s begun = record { fits = initial; below = λ h. tt; tagged = λ d h. tt }
    Run-IsUnused us s (sealed f g r e) = sealed-IsUnused f g _ _ (Run-IsUnused _ _ r) e
    Run-IsUnused us s (refused f e r h) =
        IsAdvance-IsUnused us _ _ (refused-IsAdvance f e _ h) (Run-IsUnused _ _ r)
    Run-IsUnused us s (written r) =
        IsAdvance-IsUnused us _ _ (sent_sealed-IsAdvance _) (Run-IsUnused _ _ r)
    Run-IsUnused us s (verified f r) =
        IsAdvance-IsUnused us _ _ (verify-IsAdvance f _) (Run-IsUnused _ _ r)
    Run-IsUnused us s (closed_keys r) =
        IsAdvance-IsUnused us _ _ (close_keys-IsAdvance _) (Run-IsUnused _ _ r)

    nonces_differ :
        (d : DirectionKeys K) (b : ℕ) (us : List Sealing)
        → IsU64 b
        → All (λ u. u.number < b) us
        → All (IsTagged crypto d) us
        → All
            (λ u. IsTagged crypto d u × (nonce d.nonce_prefix u.number ≢ nonce d.nonce_prefix b))
            us
    nonces_differ d b [] h v w = tt
    nonces_differ d b (u ∷ us) h v w = (
      (
        w.0,
        λ e.
            ground
              (arith, v.0, nonce-injective d.nonce_prefix u.number b (omega (arith, v.0, h)) h e),
      ),
      nonces_differ d b us h v.1 w.1,
    )

    -- At any point of the life of an end whose sequence number began as a uint64, under any order of seals,
    -- completed writes, verifications and closes: a frame that it seals carries the tag that the cipher makes
    -- over it under the nonce of the send sequence number, every frame sealed before carries the tag made
    -- under the nonce of its own number with the same key, and none of those nonces is the new one.
    pub nonce_is_fresh :
        (us : List Sealing) (s : Integrity K) (f g : WireFrame) (d : DirectionKeys K)
        → Run crypto start us s
        → s.send ≡ some d
        → (seal crypto f s).1 ≡ ok g
        → IsTagged crypto d (record { given = f; made = g; number = s.send_sequence })
          × All
              (λ u.
                IsTagged crypto d u
                × (nonce d.nonce_prefix u.number ≢ nonce d.nonce_prefix s.send_sequence))
              us
    nonce_is_fresh us s f g d r h e =
        let v = Run-IsUnused us s r in
        let (idle, room, same) = seal_reaches crypto f g s d h e in
        let idle_bit : bit s.pending_send ≡ 0 = rw idle refl in
        (
          seal-IsTagged f g s d h e,
          nonces_differ d s.send_sequence us v.fits
              (All-below _ _ us (omega (arith, idle_bit)) (v.below (ground (arith, h))))
              (v.tagged d h),
        )
