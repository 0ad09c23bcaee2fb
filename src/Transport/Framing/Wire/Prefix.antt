-- ===== src/Transport/Framing/Wire/Prefix.antt =====
-- Frames delimit themselves.
use talk_sphere.Base.{
  ℕ, ◌≡◌, refl, sym, ap, ◌∙◌, List, ◌++◌, none, some, length, append_injective, append_assoc,
  Option, ok-injective,
}
use talk_sphere.Transport.Codec.Frames.{FrameHeader, FrameProtection, IsValid, decode, encode}
use talk_sphere.Transport.Codec.Frames.RoundTrip.{decode-encode}
use talk_sphere.Transport.Framing.{WireFrame}
use talk_sphere.Transport.Framing.Wire.{serialize, IsShaped, IsTag, tag_of}

pub length-encode : (h : FrameHeader) → length (encode h) ≡ 12
unfolding encode
length-encode h = refl

same_header : (g h : FrameHeader) → IsValid g → IsValid h → encode g ≡ encode h → g ≡ h
same_header g h v w e =
    ok-injective g h (sym (decode-encode g v) ∙ (ap decode e ∙ decode-encode h w))

same_tag :
    (p : FrameProtection) (f g : WireFrame) (x y : List ℕ)
    → IsTag p f.tag
    → IsTag p g.tag
    → tag_of f.tag ++ x ≡ tag_of g.tag ++ y
    → (f.tag ≡ g.tag) × (x ≡ y)
same_tag p f g x y h k e = go p f.tag g.tag h k e
  where
    go :
        (p : FrameProtection) (a b : Option (List ℕ))
        → IsTag p a
        → IsTag p b
        → tag_of a ++ x ≡ tag_of b ++ y
        → (a ≡ b) × (x ≡ y)
    go FrameProtection.untagged none none h k e = (refl, e)
    go FrameProtection.untagged none (some t) h k e = elim k [ ]
    go FrameProtection.untagged (some t) b h k e = elim h [ ]
    go FrameProtection.tagged none b h k e = elim h [ ]
    go FrameProtection.tagged (some t) none h k e = elim k [ ]
    go FrameProtection.tagged (some t) (some u) h k e =
        let (same, rest) = append_injective 16 t u x y h k e in (ap some same, rest)

-- In one phase, the bytes of two frames that stand before any other bytes agree only where the frames
-- have the same header, payload and tag: no frame is a prefix of another, or of one with more bytes.
pub serialize_prefix_free :
    (p : FrameProtection) (f g : WireFrame) (x y : List ℕ)
    → IsShaped p f
    → IsShaped p g
    → serialize f ++ x ≡ serialize g ++ y
    → (f.header ≡ g.header) × (f.payload ≡ g.payload) × (f.tag ≡ g.tag) × (x ≡ y)
unfolding serialize
serialize_prefix_free p f g x y v w e =
    let regroup = λ (a : WireFrame) (z : List ℕ).
      append_assoc (encode a.header) (a.payload ++ tag_of a.tag) z
      ∙ ap (λ r. encode a.header ++ r) (append_assoc a.payload (tag_of a.tag) z) in
    let (headers, rest) =
      append_injective 12 (encode f.header) (encode g.header) _ _ (length-encode f.header)
        (length-encode g.header) (sym (regroup f x) ∙ (e ∙ regroup g y)) in
    let header = same_header f.header g.header v.valid w.valid headers in
    let (payload, tags) =
      append_injective f.header.payload_len f.payload g.payload _ _ v.payload_length
        (w.payload_length ∙ ap (λ (h : FrameHeader). h.payload_len) (sym header)) rest in
    let (tag, same) = same_tag p f g x y v.tag_length w.tag_length tags in
    (header, payload, tag, same)
