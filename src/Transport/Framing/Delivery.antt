-- ===== src/Transport/Framing/Delivery.antt =====
-- From the writer of one side to the reader of the other: framing/writer.rs and framing/reader.rs.
use talk_sphere.Base.{◌≡◌, sym, ap, append_assoc, subst, ◌∙◌, List, ◌++◌, some, ok, ℕ, All}
use talk_sphere.Base.Bytes.{IsByte}
use talk_sphere.Transport.Codec.Frames.{FrameProtection}
use talk_sphere.Transport.Framing.{WireFrame}
use talk_sphere.Transport.Framing.Wire.{ready, SocketRead, serialize, IsShaped}
use talk_sphere.Transport.Framing.Wire.Prefix.{serialize_prefix_free}
use talk_sphere.Transport.Framing.Reader.{FrameReader, poll_frame}
use talk_sphere.Transport.Framing.Reader.Outcome.{bytes_in, IsAt, IsOutcome}
use talk_sphere.Transport.Framing.Reader.Progress.{bytes_in-append, poll_frame_sound}

-- A frame that the writer has written, with more bytes after it, comes in at the reader of the same
-- phase: where the poll returns a frame, it is this frame, and the bytes that are left are those after it.
pub poll_frame-serialize :
    (p : FrameProtection) (f g : WireFrame) (got more : List ℕ) (r r' : FrameReader)
    (script rest : List SocketRead)
    → IsAt p got r
    → All IsByte (bytes_in script)
    → IsShaped p f
    → got ++ bytes_in script ≡ serialize f ++ more
    → poll_frame p r script ≡ (r', rest, ready (ok (some g)))
    → ((g.header ≡ f.header) × (g.payload ≡ f.payload) × (g.tag ≡ f.tag)) × (bytes_in rest ≡ more)
poll_frame-serialize p f g got more r r' script rest at bs shape sent e =
    let (used, split, (whole, shaped, _)) =
      subst (IsOutcome p got script) e (poll_frame_sound p got r script at bs) in
    let arrived : serialize g ++ bytes_in rest ≡ serialize f ++ more =
      ap (λ x. x ++ bytes_in rest) (sym whole)
      ∙ (append_assoc got (bytes_in used) (bytes_in rest)
          ∙ (ap (λ x. got ++ x) (sym (ap bytes_in split ∙ bytes_in-append used rest)) ∙ sent)) in
    let (header, payload, tag, left) =
      serialize_prefix_free p g f (bytes_in rest) more shaped shape arrived in
    ((header, payload, tag), left)
