-- ===== src/Transport/Framing/Reader/Turns.antt =====
-- One round of a poll: what it keeps of the bytes that have arrived.
use talk_sphere.Base.{
  ℕ, ◌+◌, ◌-◌, ◌≤◌, ◌<◌, zero, suc, false, ◌≡◌, ◌≢◌, refl, sym, ap, subst, ◌∙◌, inl, inr, List, [],
  ◌∷◌, ◌++◌, append-nil, Option, none, some, Option-cases, Bool-cases, length, take, length-append,
  length-take, All, All-append, All-take, empty_list, take-append, ==_iff, ==_false, arith, ◌==◌,
  leb, leb→le,
}
use talk_sphere.Base.Bytes.{IsByte}
use talk_sphere.Transport.Codec.Frames.{FrameHeader, FrameProtection, decode}
use talk_sphere.Transport.Framing.{ErrorKind, FramingError}
use talk_sphere.Transport.Framing.Wire.{SocketRead}
use talk_sphere.Transport.Framing.Reader.{
  FrameReader, again, turn, complete_part, read_part, accept_bytes, filled,
}
use talk_sphere.Transport.Framing.Reader.Outcome.{bytes_in, IsSized, IsReading, IsOver, IsTurn}
use talk_sphere.Transport.Framing.Reader.Buffer.{take-filled, length-filled, header-filled}
use talk_sphere.Transport.Framing.Reader.Completion.{failed-IsTurn, frame-IsTurn, header-IsTurn}

pub same-IsReading :
    (p : FrameProtection) (got : List ℕ) (r : FrameReader)
    → IsReading p got r
    → IsReading p (got ++ []) r
same-IsReading p got r h = subst (λ g. IsReading p g r) (sym (append-nil got)) h

filled-IsSized :
    (p : FrameProtection) (o : Option FrameHeader) (offset : ℕ) (chunk buffer : List ℕ)
    → offset + length chunk ≤ length buffer
    → IsSized p o buffer offset
    → IsSized p o (filled offset chunk buffer) (offset + length chunk)
filled-IsSized p none offset chunk buffer room h = length-filled offset chunk buffer room ∙ h
filled-IsSized p (some g) offset chunk buffer room (n, good, past) = (
  length-filled offset chunk buffer room ∙ n,
  ap decode (header-filled 12 offset chunk buffer past room) ∙ good,
  omega arith,
)

arrived-IsTurn :
    (p : FrameProtection) (got chunk : List ℕ) (r : FrameReader) (script : List SocketRead)
    → IsReading p got r
    → All IsByte chunk
    → length chunk ≤ length r.bytes - r.offset
    → length chunk ≢ 0
    → IsTurn p got (SocketRead.bytes chunk ∷ script) (
        again
          (record r { offset = r.offset + length chunk; bytes = filled r.offset chunk r.bytes })
          script)
unfolding bytes_in
arrived-IsTurn p got chunk r script h bs free more =
    let room : r.offset + length chunk ≤ length r.bytes = omega (arith, free, more) in
    let same : got ++ (chunk ++ []) ≡ got ++ chunk = ap (λ c. got ++ c) (append-nil chunk) in
    (
      SocketRead.bytes chunk ∷ [],
      refl,
      record {
        alive = h.alive;
        open_end = h.open_end;
        same_phase = h.same_phase;
        holds = take-filled r.offset chunk r.bytes room ∙ (ap (λ g. g ++ chunk) h.holds ∙ sym same);
        count = ap length same ∙ (length-append got chunk ∙ ap (λ n. n + length chunk) h.count);
        octets = subst (All IsByte) (sym same) (All-append IsByte got chunk h.octets bs);
        sized = filled-IsSized p r.header r.offset chunk r.bytes room h.sized;
      },
    )

held_bytes :
    (p : FrameProtection) (got : List ℕ) (r : FrameReader)
    → IsReading p got r
    → length got ≤ length r.bytes
held_bytes p got r h = omega (arith, ap length h.holds, length-take r.offset r.bytes)

no_more : (k : ℕ) → ¬ (suc k ≤ 0)
no_more k h = omega (arith, h)

take-take : (k n : ℕ) (xs : List ℕ) → k ≤ n → take k (take n xs) ≡ take k xs
take-take zero n xs h = refl
take-take (suc k) zero xs h = elim (no_more k h) [ ]
take-take (suc k) (suc n) [] h = refl
take-take (suc k) (suc n) (x ∷ xs) h = ap (λ t. x ∷ t) (take-take k n xs (omega (arith, h)))

more_than : (m n : ℕ) → leb m n ≡ false → n < m
more_than m n h = ground (arith, h)

accept_bytes-IsOver :
    (p : FrameProtection) (got chunk : List ℕ) (r : FrameReader) (o : Option FrameHeader)
    → IsReading p got r
    → r.offset ≢ length r.bytes
    → length r.bytes - r.offset < length chunk
    → IsSized p o r.bytes r.offset
    → IsOver p got chunk
accept_bytes-IsOver p got chunk r none h part over size =
    let held : length got ≤ length r.bytes = held_bytes p got r h in
    inl (omega (arith, size, held, h.count, part), omega (arith, size, held, h.count, over))
accept_bytes-IsOver p got chunk r (some g) h part over (size, good, past) =
    let held : length got ≤ length r.bytes = held_bytes p got r h in
    inr (
      g,
      ap decode (ap (take 12) (sym h.holds) ∙ take-take 12 r.offset r.bytes past) ∙ good,
      omega (arith, size, held, h.count, over),
    )

chunk-IsTurn :
    (p : FrameProtection) (got chunk : List ℕ) (r : FrameReader) (script : List SocketRead)
    → IsReading p got r
    → r.offset ≢ length r.bytes
    → All IsByte chunk
    → IsTurn p got (SocketRead.bytes chunk ∷ script) (accept_bytes chunk r script)
unfolding accept_bytes bytes_in
chunk-IsTurn p got chunk r script h part bs = elim (Bool-cases (length chunk == 0)) [
  | inl empty ↦
      rw (empty, IsTurn)
        (elim (Bool-cases (r.offset == 0)) [
          | inl start ↦
              rw (start, IsTurn)
                (
                  SocketRead.bytes chunk ∷ [],
                  refl,
                  (
                    empty_list (got ++ (chunk ++ [])) (
                        omega (
                          arith,
                          h.count,
                          (==_iff r.offset 0).0 start,
                          (==_iff (length chunk) 0).0 empty,
                          length-append got (chunk ++ []),
                          length-append {A = ℕ} chunk [],
                        )),
                    refl,
                    (
                      [],
                      ap (λ c. SocketRead.bytes c ∷ [])
                          (empty_list chunk ((==_iff (length chunk) 0).0 empty)),
                    ),
                  ),
                )
          | inr begun ↦
              rw (begun, IsTurn)
                (failed-IsTurn p got r (SocketRead.bytes chunk ∷ []) script FramingError.truncated (
                  λ e.
                      ==_false r.offset 0 begun
                        (omega (arith, h.count, ap length e, length-append got (chunk ++ []))),
                  (
                    [],
                    ap (λ c. SocketRead.bytes c ∷ [])
                        (empty_list chunk ((==_iff (length chunk) 0).0 empty)),
                  ),
                ))
        ])
  | inr more ↦
      rw (more, IsTurn)
        (elim (Bool-cases (leb (length chunk) (length r.bytes - r.offset))) [
          | inr over ↦
              rw (over, IsTurn)
                (failed-IsTurn p got r (SocketRead.bytes chunk ∷ []) script
                  (FramingError.io ErrorKind.invalid_data)
                  (inr (
                    got,
                    chunk,
                    refl,
                    ap (λ c. got ++ c) (append-nil chunk),
                    ([], refl),
                    accept_bytes-IsOver p got chunk r r.header h part (more_than _ _ over) h.sized,
                  )))
          | inl room ↦
              rw (room, IsTurn)
                (arrived-IsTurn p got chunk r script h bs (leb→le _ _ room)
                  (==_false (length chunk) 0 more))
        ])
]

read-IsTurn :
    (p : FrameProtection) (got : List ℕ) (r : FrameReader) (script : List SocketRead)
    → IsReading p got r
    → r.offset ≢ length r.bytes
    → All IsByte (bytes_in script)
    → IsTurn p got script (read_part r script)
unfolding read_part bytes_in
read-IsTurn p got r [] h part bs = ([], refl, same-IsReading p got r h)
read-IsTurn p got r (SocketRead.waits ∷ script) h part bs =
    (SocketRead.waits ∷ [], refl, same-IsReading p got r h)
read-IsTurn p got r (SocketRead.bytes chunk ∷ script) h part bs =
    chunk-IsTurn p got chunk r script h part (
      subst (All IsByte) (take-append (length chunk) chunk (bytes_in script) refl)
        (All-take IsByte (length chunk) (chunk ++ bytes_in script) bs))
read-IsTurn p got r (SocketRead.failed ErrorKind.interrupted ∷ script) h part bs =
    (SocketRead.failed ErrorKind.interrupted ∷ [], refl, same-IsReading p got r h)
read-IsTurn p got r (SocketRead.failed ErrorKind.write_zero ∷ script) h part bs =
    failed-IsTurn p got r (SocketRead.failed ErrorKind.write_zero ∷ []) script
      (FramingError.io ErrorKind.write_zero) (inl (λ e. cc, ([], refl)))
read-IsTurn p got r (SocketRead.failed ErrorKind.invalid_data ∷ script) h part bs =
    failed-IsTurn p got r (SocketRead.failed ErrorKind.invalid_data ∷ []) script
      (FramingError.io ErrorKind.invalid_data) (inl (λ e. cc, ([], refl)))
read-IsTurn p got r (SocketRead.failed (ErrorKind.other k) ∷ script) h part bs =
    failed-IsTurn p got r (SocketRead.failed (ErrorKind.other k) ∷ []) script
      (FramingError.io (ErrorKind.other k)) (inl (λ e. cc, ([], refl)))

pub turn-IsTurn :
    (p : FrameProtection) (got : List ℕ) (r : FrameReader) (script : List SocketRead)
    → IsReading p got r
    → All IsByte (bytes_in script)
    → IsTurn p got script (turn p r script)
unfolding turn
turn-IsTurn p got r script h bs = elim (Bool-cases (r.offset == length r.bytes)) [
  | inr less ↦
      rw (less, IsTurn) (read-IsTurn p got r script h (==_false r.offset (length r.bytes) less) bs)
  | inl full ↦
      rw (full, IsTurn)
        (elim (Option-cases r.header) [
          | inl e ↦
              subst (λ o. IsTurn p got script (complete_part p o r script)) (sym e)
                (header-IsTurn p got r script h e
                  (omega (arith, (==_iff r.offset (length r.bytes)).0 full)))
          | inr (g, e) ↦
              subst (λ o. IsTurn p got script (complete_part p o r script)) (sym e)
                (frame-IsTurn p got r script g h e
                  (omega (arith, (==_iff r.offset (length r.bytes)).0 full)))
        ])
]
