-- ===== src/Transport/Framing/Reader/Progress.antt =====
-- The rounds of a poll together.
use talk_sphere.Base.{
  ℕ, zero, suc, ◌≤◌, ◌≡◌, ◌≢◌, refl, sym, ap, subst, ◌∙◌, ◌⊎◌, inl, inr, Bool, true, false, List,
  [], ◌∷◌, ◌++◌, append_assoc, Option, none, some, ok, err, length, replicate, take, All, All-drop,
  drop-append, ==_iff, arith, ◌==◌, if◌then◌else◌,
}
use talk_sphere.Base.Bytes.{IsByte}
use talk_sphere.Transport.Codec.Frames.{FrameHeader, FrameProtection}
use talk_sphere.Transport.Framing.{FramingError}
use talk_sphere.Transport.Framing.Wire.{pending, ready, SocketRead}
use talk_sphere.Transport.Framing.Reader.{
  FrameReader, ReadResult, Turn, again, done, turn, poll_rounds, poll_frame, prepared, other_phase,
  resized,
}
use talk_sphere.Transport.Framing.Reader.Outcome.{
  bytes_in, IsSized, IsReading, IsAt, IsCause, IsLast, Meaning, IsOutcome, IsTurn,
}
use talk_sphere.Transport.Framing.Reader.Turns.{same-IsReading, turn-IsTurn}

pub bytes_in-append : (a b : List SocketRead) → bytes_in (a ++ b) ≡ bytes_in a ++ bytes_in b
unfolding bytes_in
bytes_in-append [] b = refl
bytes_in-append (SocketRead.waits ∷ a) b = bytes_in-append a b
bytes_in-append (SocketRead.failed k ∷ a) b = bytes_in-append a b
bytes_in-append (SocketRead.bytes c ∷ a) b =
    ap (λ x. c ++ x) (bytes_in-append a b) ∙ sym (append_assoc c (bytes_in a) (bytes_in b))

append-IsLast :
    (used more : List SocketRead) (x : SocketRead) → IsLast more x → IsLast (used ++ more) x
append-IsLast used more x (earlier, e) =
    (used ++ earlier, ap (λ l. used ++ l) e ∙ sym (append_assoc used earlier (x ∷ [])))

append-IsCause :
    (p : FrameProtection) (got : List ℕ) (used more : List SocketRead) (e : FramingError)
    → IsCause p got more e
    → IsCause p got (used ++ more) e
append-IsCause p got used more (FramingError.bad_header e) h = h
append-IsCause p got used more FramingError.truncated (some_bytes, h) =
    (some_bytes, append-IsLast used more (SocketRead.bytes []) h)
append-IsCause p got used more (FramingError.io kind) (inl (h, last)) =
    inl (h, append-IsLast used more (SocketRead.failed kind) last)
append-IsCause p got used more (FramingError.io kind) (inr (before, chunk, e, whole, last, over)) =
    inr (before, chunk, e, whole, append-IsLast used more (SocketRead.bytes chunk) last, over)
append-IsCause p got used more FramingError.closed h = elim h [ ]
append-IsCause p got used more FramingError.phase_changed h = elim h [ ]
append-IsCause p got used more FramingError.shape h = elim h [ ]
append-IsCause p got used more FramingError.busy h = elim h [ ]

append-Meaning :
    (p : FrameProtection) (got : List ℕ) (used more : List SocketRead) (r : FrameReader)
    (out : ReadResult)
    → Meaning p got more r out
    → Meaning p got (used ++ more) r out
append-Meaning p got used more r pending h = h
append-Meaning p got used more r (ready (ok (some f))) h = h
append-Meaning p got used more r (ready (ok none)) (empty, ended, last) =
    (empty, ended, append-IsLast used more (SocketRead.bytes []) last)
append-Meaning p got used more r (ready (err e)) (closed, gone, cause) =
    (closed, gone, append-IsCause p got used more e cause)

append-IsOutcome :
    (p : FrameProtection) (got : List ℕ) (script used rest : List SocketRead)
    (out : FrameReader × List SocketRead × ReadResult)
    → script ≡ used ++ rest
    → IsOutcome p (got ++ bytes_in used) rest out
    → IsOutcome p got script out
append-IsOutcome p got script used rest (r, left, result) split (more, split', h) = (
  used ++ more,
  split ∙ (ap (λ x. used ++ x) split' ∙ sym (append_assoc used more left)),
  subst (λ g. Meaning p g (used ++ more) r result)
      (append_assoc got (bytes_in used) (bytes_in more)
        ∙ ap (λ x. got ++ x) (sym (bytes_in-append used more)))
      (append-Meaning p _ used more r result h),
)

rest_bytes :
    (script used rest : List SocketRead)
    → script ≡ used ++ rest
    → All IsByte (bytes_in script)
    → All IsByte (bytes_in rest)
rest_bytes script used rest split bs =
    subst (All IsByte) (drop-append (length (bytes_in used)) (bytes_in used) (bytes_in rest) refl) (
      All-drop IsByte (length (bytes_in used)) (bytes_in used ++ bytes_in rest)
        (subst (All IsByte) (ap bytes_in split ∙ bytes_in-append used rest) bs))

rounds_sound :
    (n : ℕ) (p : FrameProtection) (got : List ℕ) (r : FrameReader) (script : List SocketRead)
    → IsReading p got r
    → All IsByte (bytes_in script)
    → IsOutcome p got script (poll_rounds n p r script)
unfolding poll_rounds bytes_in
rounds_sound zero p got r script h bs = ([], refl, same-IsReading p got r h)
rounds_sound (suc n) p got r script h bs =
    go (rounds_sound n p) (turn p r script) (turn-IsTurn p got r script h bs)
  where
    go :
        ((got' : List ℕ) (r' : FrameReader) (script' : List SocketRead)
          → IsReading p got' r'
          → All IsByte (bytes_in script')
          → IsOutcome p got' script' (poll_rounds n p r' script'))
        → (t : Turn) → IsTurn p got script t
        → IsOutcome p got script (elim t [
          | again r' script' ↦ poll_rounds n p r' script'
          | done r' script' out ↦ (r', script', out)
        ])
    go later (done r' rest out) h = h
    go later (again r' rest) (used, split, h) =
        append-IsOutcome p got script used rest _ split
          (later (got ++ bytes_in used) r' rest h (rest_bytes script used rest split bs))

same_phase_lem :
    (p : FrameProtection) (o : Option FrameProtection)
    → (o ≡ none) ⊎ (o ≡ some p)
    → other_phase o p ≡ false
same_phase_lem FrameProtection.tagged o (inl e) = rw e
same_phase_lem FrameProtection.tagged o (inr e) = rw e
same_phase_lem FrameProtection.untagged o (inl e) = rw e
same_phase_lem FrameProtection.untagged o (inr e) = rw e

sized_positive :
    (p : FrameProtection) (o : Option FrameHeader) (b : List ℕ) (n : ℕ)
    → IsSized p o b n
    → 12 ≤ length b
sized_positive p none b n h = omega (arith, h)
sized_positive p (some g) b n (h, _, _) = omega (arith, h)

prepared_sound :
    (p : FrameProtection) (got : List ℕ) (r : FrameReader)
    → IsAt p got r
    → IsReading p got (prepared p r)
unfolding prepared resized
prepared_sound p got r (inl h) = go (length r.bytes == 0) (λ e.
    omega
      (arith, sized_positive p r.header r.bytes r.offset h.sized, (==_iff (length r.bytes) 0).0 e))
  where
    go :
        (b : Bool)
        → b ≢ true
        → IsReading p got
            (record r { phase = some p; bytes = if b then resized 12 r.bytes else r.bytes })
    go true e = elim (e refl) [ ]
    go false e = record {
      alive = h.alive;
      open_end = h.open_end;
      same_phase = refl;
      holds = h.holds;
      count = h.count;
      octets = h.octets;
      sized = h.sized;
    }
prepared_sound p got r (inr (h, e)) =
    let buffer : (if length r.bytes == 0 then resized 12 r.bytes else r.bytes) ≡ replicate 12 0 =
      ap (λ b. if length b == 0 then resized 12 b else b) h.no_bytes in
    record {
      alive = h.alive;
      open_end = h.open_end;
      same_phase = refl;
      holds =
          ap (λ n. take n (if length r.bytes == 0 then resized 12 r.bytes else r.bytes)) h.at_start
          ∙ sym e;
      count = ap length e ∙ sym h.at_start;
      octets = subst (All IsByte) (sym e) tt;
      sized =
          subst
            (λ o.
              IsSized p o (if length r.bytes == 0 then resized 12 r.bytes else r.bytes) r.offset)
            (sym h.no_header) (ap length buffer);
    }

-- A reader that has not ended, and that holds the bytes `got` of a frame that has begun (or stands
-- between two frames), is polled, and the socket hands over octets, in pieces of any size, with waits,
-- interruptions and failures. The poll uses some of the socket's answers, in order. Where it waits, it
-- holds `got` with the bytes they brought. Where it returns a frame, these bytes are exactly the bytes
-- of that frame, which has the lengths that its header and the phase say, and the reader stands between
-- two frames. At the end of the stream it holds no byte of a frame, and the last read brought no bytes.
-- Where it fails, it is closed and its bytes are gone, for one of these causes only: the bytes so far do
-- not decode to a header or its frame is too long; the last read brought no bytes and a frame has begun;
-- the last read failed with this error, and was not interrupted; or the last read brought more bytes than
-- were missing of the header or, where the header has come, of the frame, and the error is invalid data.
pub poll_frame_sound :
    (p : FrameProtection) (got : List ℕ) (r : FrameReader) (script : List SocketRead)
    → IsAt p got r
    → All IsByte (bytes_in script)
    → IsOutcome p got script (poll_frame p r script)
unfolding poll_frame
poll_frame_sound p got r script at bs =
    let (alive, open_end, phase) = facts r at in
    otherwise r.failed _ _ alive (
      otherwise r.eof _ _ open_end (
        otherwise (other_phase r.phase p) _ _ (same_phase_lem p r.phase phase)
          (rounds_sound 64 p got (prepared p r) script (prepared_sound p got r at) bs)))
  where
    otherwise :
        (b : Bool) (x y : FrameReader × List SocketRead × ReadResult)
        → b ≡ false
        → IsOutcome p got script y
        → IsOutcome p got script (if b then x else y)
    otherwise false x y e h = h
    otherwise true x y e h = cc

    facts :
        (r : FrameReader)
        → IsAt p got r
        → (r.failed ≡ false) × (r.eof ≡ false) × ((r.phase ≡ none) ⊎ (r.phase ≡ some p))
    facts r (inl h) = (h.alive, h.open_end, inr h.same_phase)
    facts r (inr (h, e)) = (h.alive, h.open_end, inl h.no_phase)
