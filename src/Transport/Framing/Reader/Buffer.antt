-- ===== src/Transport/Framing/Reader/Buffer.antt =====
-- The reader's buffer.
use talk_sphere.Base.{
  ℕ, zero, suc, ◌+◌, ◌-◌, ◌≤◌, ◌≡◌, refl, sym, ap, ◌∙◌, List, [], ◌∷◌, ◌++◌, length, take, drop,
  replicate, length-replicate, length-append, length-take, length-drop, take-append,
  take-append_of_le, take-take, take-append-drop, append_assoc, append-nil, arith, All, ok,
}
use talk_sphere.Base.Bytes.{IsByte}
use talk_sphere.Transport.Codec.Frames.{FrameHeader, FrameProtection, decode, encode, tag_bytes}
use talk_sphere.Transport.Codec.Frames.RoundTrip.{decode_iff}
use talk_sphere.Transport.Framing.Reader.{filled, resized, split_frame}
use talk_sphere.Transport.Framing.Wire.{serialize, IsShaped}

pub take-filled :
    (o : ℕ) (c b : List ℕ)
    → o + length c ≤ length b
    → take (o + length c) (filled o c b) ≡ take o b ++ c
unfolding filled
take-filled o c b h =
    ap (take (o + length c)) (sym (append_assoc (take o b) c (drop (o + length c) b)))
    ∙ take-append (o + length c) (take o b ++ c) (drop (o + length c) b)
        (omega (arith, h, length-append (take o b) c, length-take o b))

pub length-filled :
    (o : ℕ) (c b : List ℕ) → o + length c ≤ length b → length (filled o c b) ≡ length b
unfolding filled
length-filled o c b h = omega (
  arith,
  h,
  length-append (take o b) (c ++ drop (o + length c) b),
  length-append c (drop (o + length c) b),
  length-take o b,
  length-drop (o + length c) b,
)

pub header-filled :
    (k o : ℕ) (c b : List ℕ) → k ≤ o → o + length c ≤ length b → take k (filled o c b) ≡ take k b
unfolding filled
header-filled k o c b h room =
    take-append_of_le k (take o b) (c ++ drop (o + length c) b)
      (omega (arith, h, room, length-take o b))
    ∙ take-take k o b h

pub take_whole : (n : ℕ) (xs : List ℕ) → length xs ≤ n → take n xs ≡ xs
take_whole zero [] h = refl
take_whole zero (x ∷ xs) h = absurd (omega arith)
take_whole (suc n) [] h = refl
take_whole (suc n) (x ∷ xs) h = ap (◌∷◌ x) (take_whole n xs (omega arith))

pub take-resized : (m n : ℕ) (xs : List ℕ) → length xs ≡ m → m ≤ n → take m (resized n xs) ≡ xs
unfolding resized
take-resized m n xs e h =
    ap (λ ys. take m (ys ++ replicate (n - length xs) 0)) (take_whole n xs (omega (arith, e, h)))
    ∙ take-append m xs (replicate (n - length xs) 0) e

pub length-resized : (n : ℕ) (xs : List ℕ) → length xs ≤ n → length (resized n xs) ≡ n
unfolding resized
length-resized n xs h = omega (
  arith,
  h,
  length-append (take n xs) (replicate (n - length xs) 0),
  length-take n xs,
  length-replicate {A = ℕ} (n - length xs) 0,
)

-- A full buffer is the frame's bytes.
pub split_frame_lem :
    (p : FrameProtection) (h : FrameHeader) (b : List ℕ)
    → All IsByte (take 12 b)
    → length b ≡ 12 + h.payload_len + tag_bytes p
    → decode (take 12 b) ≡ ok h
    → (b ≡ serialize (split_frame p h b)) × IsShaped p (split_frame p h b)
unfolding split_frame serialize
split_frame_lem FrameProtection.untagged h b bs n e =
    let (valid, same) = (decode_iff (take 12 b) h bs).0 e in
    (
      sym (take-append-drop 12 b)
          ∙ (ap (λ x. x ++ drop 12 b) same
              ∙ ap (λ x. encode h ++ x) (sym (append-nil (drop 12 b)))),
      record {
        valid = valid;
        payload_length = omega (arith, n, length-drop 12 b);
        tag_length = tt;
      },
    )
split_frame_lem FrameProtection.tagged h b bs n e =
    let (valid, same) = (decode_iff (take 12 b) h bs).0 e in
    let m : ℕ = length b - 16 in
    let head : take 12 (take m b) ≡ encode h = take-take 12 m b (omega (arith, n)) ∙ same in
    (
      sym (take-append-drop m b)
          ∙ (ap (λ x. x ++ drop m b)
                (sym (take-append-drop 12 (take m b)) ∙ ap (λ x. x ++ drop 12 (take m b)) head)
              ∙ append_assoc (encode h) (drop 12 (take m b)) (drop m b)),
      record {
        valid = valid;
        payload_length = omega (arith, n, length-drop 12 (take m b), length-take m b);
        tag_length = omega (arith, n, length-drop m b);
      },
    )
