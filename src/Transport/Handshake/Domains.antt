-- ===== src/Transport/Handshake/Domains.antt =====
-- What is signed and what keys are derived from determines the role and both HELLOs.
use talk_sphere.Base.{
  ℕ, ◌≡◌, ◌≢◌, refl, sym, ap, ◌∙◌, List, ◌∷◌, ◌++◌, length, length-append, append_injective, drop,
  get_or, arith, ok-injective,
}
use talk_sphere.Transport.Api.{ConnectionRole}
use talk_sphere.Transport.Codec.Hello.{Hello, IsHello, hello_decode, hello_encode}
use talk_sphere.Transport.Codec.Hello.RoundTrip.{hello_decode-encode}
use talk_sphere.Transport.Handshake.Keys.{salt_input}
use talk_sphere.Transport.Handshake.Transcripts.{authentication, role_byte, transcript}

pub hello_encode_width : (h : Hello) → IsHello h → length (hello_encode h) ≡ 100
unfolding hello_encode
hello_encode_width h w = omega (
  arith,
  w.identity_width,
  w.ephemeral_width,
  w.nonce_width,
  length-append h.identity_public_key (1 ∷ (h.ephemeral_public_key ++ h.nonce)),
  length-append h.ephemeral_public_key h.nonce,
)

role_byte_injective : (r s : ConnectionRole) → role_byte r ≡ role_byte s → r ≡ s
role_byte_injective ConnectionRole.initiator ConnectionRole.initiator e = refl
role_byte_injective ConnectionRole.initiator ConnectionRole.acceptor e = absurd (omega arith)
role_byte_injective ConnectionRole.acceptor ConnectionRole.initiator e = absurd (omega arith)
role_byte_injective ConnectionRole.acceptor ConnectionRole.acceptor e = refl

hello_encode_injective :
    (g h : Hello) → IsHello g → IsHello h → hello_encode g ≡ hello_encode h → g ≡ h
hello_encode_injective g h v w e =
    ok-injective g h (sym (hello_decode-encode g v) ∙ (ap hello_decode e ∙ hello_decode-encode h w))

transcript_injective :
    (a b c d : Hello)
    → IsHello a
    → IsHello b
    → IsHello c
    → IsHello d
    → transcript a b ≡ transcript c d
    → (a ≡ c) × (b ≡ d)
unfolding transcript
transcript_injective a b c d wa wb wc wd e =
    let (first, rest) =
      append_injective 100 (hello_encode a) (hello_encode c) _ _ (hello_encode_width a wa)
        (hello_encode_width c wc) (ap (drop 4) e) in
    (hello_encode_injective a c wa wc first, hello_encode_injective b d wb wd (ap (drop 4) rest))

-- A message that is signed for authentication belongs to one role and one ordered pair of HELLOs, and
-- it is never the input from which the salt of the keys is computed.
pub authentication_injective :
    (r s : ConnectionRole) (a b c d : Hello) (t : List ℕ)
    → IsHello a
    → IsHello b
    → IsHello c
    → IsHello d
    → (authentication r (transcript a b) ≡ authentication s (transcript c d)
        → (r ≡ s) × (a ≡ c) × (b ≡ d))
      × (authentication r (transcript a b) ≢ salt_input t)
unfolding authentication
authentication_injective r s a b c d t wa wb wc wd = (
  (λ e.
      let (first, second) = transcript_injective a b c d wa wb wc wd (ap (drop 23) e) in
      (role_byte_injective r s (ap (λ m. get_or m 22 0) e), first, second)),
  (λ e. absurd (omega (arith, ap (λ m. get_or m 14 0) e))),
)
