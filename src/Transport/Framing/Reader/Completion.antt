-- ===== src/Transport/Framing/Reader/Completion.antt =====
-- The round of a poll that finds its buffer full: the header, or the whole frame, has arrived.
use talk_sphere.Base.{
  ℕ, ◌+◌, ◌≤◌, err, ◌>>=◌, ◌≡◌, refl, sym, ap, subst, ◌∙◌, inl, inr, List, [], ◌++◌, append-nil,
  none, some, ok, Result-cases, length, take, All, All-take, arith,
}
use talk_sphere.Base.Bytes.{IsByte}
use talk_sphere.Transport.Codec.Frames.{
  FrameHeader, FrameProtection, HeaderError, decode, frame_len, tag_bytes,
}
use talk_sphere.Transport.Framing.{FramingError}
use talk_sphere.Transport.Framing.Wire.{SocketRead}
use talk_sphere.Transport.Framing.Reader.{
  FrameReader, again, complete_part, accept_header, fail_reader, resized,
}
use talk_sphere.Transport.Framing.Reader.Outcome.{bytes_in, IsSized, IsReading, IsCause, IsTurn}
use talk_sphere.Transport.Framing.Reader.Buffer.{
  take-resized, length-resized, take_whole, split_frame_lem,
}

pub failed-IsTurn :
    (p : FrameProtection) (got : List ℕ) (r : FrameReader) (used script : List SocketRead)
    (e : FramingError)
    → IsCause p (got ++ bytes_in used) used e
    → IsTurn p got (used ++ script) (fail_reader e r script)
unfolding fail_reader
failed-IsTurn p got r used script e c = (used, refl, (refl, refl, c))

refused-IsTurn :
    (p : FrameProtection) (got : List ℕ) (r : FrameReader) (script : List SocketRead)
    (e : HeaderError)
    → (decode got >>= λ h. frame_len h p) ≡ err e
    → IsTurn p got script (fail_reader (FramingError.bad_header e) r script)
unfolding bytes_in
refused-IsTurn p got r script e c =
    failed-IsTurn p got r [] script (FramingError.bad_header e)
      (ap (λ g. decode g >>= λ h. frame_len h p) (append-nil got) ∙ c)

full_buffer :
    (p : FrameProtection) (got : List ℕ) (r : FrameReader)
    → IsReading p got r
    → r.offset ≡ length r.bytes
    → got ≡ r.bytes
full_buffer p got r h full = sym h.holds ∙ take_whole r.offset r.bytes (omega (arith, full))

pub frame-IsTurn :
    (p : FrameProtection) (got : List ℕ) (r : FrameReader) (script : List SocketRead)
    (g : FrameHeader)
    → IsReading p got r
    → r.header ≡ some g
    → r.offset ≡ length r.bytes
    → IsTurn p got script (complete_part p (some g) r script)
unfolding complete_part bytes_in
frame-IsTurn p got r script g h e full =
    let same = full_buffer p got r h full in
    let (n, decoded, _) = subst (λ o. IsSized p o r.bytes r.offset) e h.sized in
    let start : take 12 r.bytes ≡ take 12 got = ap (take 12) (sym same) in
    let (bytes, shape) =
      split_frame_lem p g r.bytes
        (subst (λ b. All IsByte b) (ap (take 12) same) (All-take IsByte 12 got h.octets)) n
        decoded in
    (
      [],
      refl,
      (
        append-nil got ∙ (same ∙ bytes),
        shape,
        record {
          alive = h.alive;
          open_end = h.open_end;
          no_phase = refl;
          no_bytes = refl;
          no_header = refl;
          at_start = refl;
        },
      ),
    )

frame_len_exact :
    (g : FrameHeader) (p : FrameProtection) (n : ℕ)
    → frame_len g p ≡ ok n
    → n ≡ 12 + g.payload_len + tag_bytes p
unfolding frame_len
frame_len_exact g p n h = ground arith

resized-IsTurn :
    (p : FrameProtection) (got : List ℕ) (r : FrameReader) (script : List SocketRead)
    (g : FrameHeader) (n : ℕ)
    → IsReading p got r
    → decode got ≡ ok g
    → length got ≡ 12
    → r.offset ≡ length r.bytes
    → n ≡ 12 + g.payload_len + tag_bytes p
    → IsTurn p got script (again (record r { header = some g; bytes = resized n r.bytes }) script)
unfolding bytes_in
resized-IsTurn p got r script g n h good twelve full size =
    let same = full_buffer p got r h full in
    let room : length r.bytes ≤ n = omega (arith, size, twelve, h.count, full) in
    let kept : (k : ℕ) → k ≡ 12 → take k (resized n r.bytes) ≡ got = λ k e.
      take-resized k n r.bytes (omega (arith, e, twelve, h.count, full)) (omega (arith, e, size))
      ∙ sym same in
    (
      [],
      refl,
      record {
        alive = h.alive;
        open_end = h.open_end;
        same_phase = h.same_phase;
        holds = kept r.offset (sym h.count ∙ twelve) ∙ sym (append-nil got);
        count = ap length (append-nil got) ∙ h.count;
        octets = subst (All IsByte) (sym (append-nil got)) h.octets;
        sized = (
          length-resized n r.bytes room ∙ size,
          ap decode (kept 12 refl) ∙ good,
          omega (arith, h.count, twelve),
        );
      },
    )

accept-IsTurn :
    (p : FrameProtection) (got : List ℕ) (r : FrameReader) (script : List SocketRead)
    (g : FrameHeader)
    → IsReading p got r
    → decode got ≡ ok g
    → length got ≡ 12
    → r.offset ≡ length r.bytes
    → IsTurn p got script (accept_header p g r script)
unfolding accept_header bytes_in
accept-IsTurn p got r script g h good n full = elim (Result-cases (frame_len g p)) [
  | inr (x, bad) ↦ rw (bad, IsTurn) (refused-IsTurn p got r script x (rw good bad))
  | inl (size, fits) ↦
      rw (fits, IsTurn)
        (resized-IsTurn p got r script g size h good n full (frame_len_exact g p size fits))
]

pub header-IsTurn :
    (p : FrameProtection) (got : List ℕ) (r : FrameReader) (script : List SocketRead)
    → IsReading p got r
    → r.header ≡ none
    → r.offset ≡ length r.bytes
    → IsTurn p got script (complete_part p none r script)
unfolding complete_part bytes_in
header-IsTurn p got r script h e full =
    let same = full_buffer p got r h full in
    let n = subst (λ o. IsSized p o r.bytes r.offset) e h.sized in
    elim (Result-cases (decode r.bytes)) [
      | inr (x, bad) ↦ rw (bad, IsTurn) (refused-IsTurn p got r script x (rw same (rw bad)))
      | inl (g, good) ↦
          rw (good, IsTurn)
            (accept-IsTurn p got r script g h (ap decode same ∙ good) (ap length same ∙ n) full)
    ]
