-- ===== src/Transport/Framing/Reader/Waiting.antt =====
-- When a poll of the reader waits.
use talk_sphere.Base.{
  ℕ, zero, suc, ◌+◌, ◌-◌, ◌≤◌, ◌≡◌, ◌⊎◌, refl, sym, ap, ◌∙◌, inl, inr, Bool, true, false, List, [],
  ◌∷◌, ◌++◌, append_assoc, Option, none, some, Result, ok, err, length, length-append, arith, ◌==◌,
  leb, if◌then◌else◌,
}
use talk_sphere.Transport.Codec.Frames.{
  FrameHeader, FrameProtection, HeaderError, decode, frame_len,
}
use talk_sphere.Transport.Framing.{ErrorKind, FramingError}
use talk_sphere.Transport.Framing.Wire.{pending, ready, SocketRead}
use talk_sphere.Transport.Framing.Reader.{
  FrameReader, ReadResult, Turn, again, done, turn, complete_part, accept_header, read_part,
  accept_bytes, fail_reader, poll_rounds, poll_frame, prepared, other_phase, returned, resized,
  filled,
}

-- One more round may pass without a read where the header has not been decoded.
abbrev weight : Option FrameHeader → ℕ
weight none = 1
weight (some h) = 0

abbrev IsStep : FrameReader → List SocketRead → Turn → Type 0
IsStep r script (again r' rest) =
    (used : List SocketRead) × (script ≡ used ++ rest)
    × (suc (weight r'.header) ≤ length used + weight r.header)
IsStep r script (done r' rest pending) =
    ((script ≡ []) × (rest ≡ [])) ⊎ (script ≡ SocketRead.waits ∷ rest)
IsStep r script (done r' rest (ready x)) = Unit {0}

-- Why a poll of so many rounds waits.
abbrev pub IsWait : ℕ → List SocketRead → FrameReader × List SocketRead × ReadResult → Type 0
IsWait n script (r, rest, pending) =
    (used : List SocketRead) × (script ≡ used ++ rest)
    × ((rest ≡ [])
        ⊎ ((earlier : List SocketRead) × (used ≡ earlier ++ SocketRead.waits ∷ []))
        ⊎ (n ≤ length used))
IsWait n script (r, rest, ready x) = Unit {0}

header-IsStep :
    (p : FrameProtection) (h : FrameHeader) (r : FrameReader) (script : List SocketRead)
    → r.header ≡ none
    → IsStep r script (accept_header p h r script)
unfolding accept_header fail_reader
header-IsStep p h r script e = go (frame_len h p)
  where
    go :
        (x : Result ℕ HeaderError)
        → IsStep r script (elim x [
          | err e ↦ fail_reader (FramingError.bad_header e) r script
          | ok n ↦ again (record r { header = some h; bytes = resized n r.bytes }) script
        ])
    go (err x) = tt
    go (ok n) = ([], refl, omega (arith, ap weight e))

complete-IsStep :
    (p : FrameProtection) (o : Option FrameHeader) (r : FrameReader) (script : List SocketRead)
    → r.header ≡ o
    → IsStep r script (complete_part p o r script)
unfolding complete_part fail_reader
complete-IsStep p (some h) r script e = tt
complete-IsStep p none r script e = go (decode r.bytes)
  where
    go :
        (x : Result FrameHeader HeaderError)
        → IsStep r script (elim x [
          | err e ↦ fail_reader (FramingError.bad_header e) r script
          | ok h ↦ accept_header p h r script
        ])
    go (err x) = tt
    go (ok h) = header-IsStep p h r script e

bytes-IsStep :
    (chunk : List ℕ) (r : FrameReader) (script : List SocketRead)
    → IsStep r (SocketRead.bytes chunk ∷ script) (accept_bytes chunk r script)
unfolding accept_bytes fail_reader
bytes-IsStep chunk r script =
    go (length chunk == 0) (r.offset == 0) (leb (length chunk) (length r.bytes - r.offset))
  where
    go :
        (a b c : Bool)
        → IsStep r (SocketRead.bytes chunk ∷ script) (
            if a
            then if b
              then done (record r { eof = true; bytes = [] }) script (ready (ok none))
              else fail_reader FramingError.truncated r script
            else if c
            then again
                (record r {
                  offset = r.offset + length chunk;
                  bytes = filled r.offset chunk r.bytes;
                })
                script
            else fail_reader (FramingError.io ErrorKind.invalid_data) r script)
    go true true c = tt
    go true false c = tt
    go false b true = (SocketRead.bytes chunk ∷ [], refl, omega arith)
    go false b false = tt

read-IsStep : (r : FrameReader) (script : List SocketRead) → IsStep r script (read_part r script)
unfolding read_part fail_reader
read-IsStep r [] = inl (refl, refl)
read-IsStep r (SocketRead.waits ∷ script) = inr refl
read-IsStep r (SocketRead.bytes chunk ∷ script) = bytes-IsStep chunk r script
read-IsStep r (SocketRead.failed ErrorKind.interrupted ∷ script) =
    (SocketRead.failed ErrorKind.interrupted ∷ [], refl, omega arith)
read-IsStep r (SocketRead.failed ErrorKind.write_zero ∷ script) = tt
read-IsStep r (SocketRead.failed ErrorKind.invalid_data ∷ script) = tt
read-IsStep r (SocketRead.failed (ErrorKind.other k) ∷ script) = tt

turn-IsStep :
    (p : FrameProtection) (r : FrameReader) (script : List SocketRead)
    → IsStep r script (turn p r script)
unfolding turn
turn-IsStep p r script = go (r.offset == length r.bytes)
  where
    go :
        (b : Bool)
        → IsStep r script (if b then complete_part p r.header r script else read_part r script)
    go true = complete-IsStep p r.header r script refl
    go false = read-IsStep r script

append-IsWait :
    (m n : ℕ) (script used rest : List SocketRead)
    (out : FrameReader × List SocketRead × ReadResult)
    → script ≡ used ++ rest
    → n ≤ length used + m
    → IsWait m rest out
    → IsWait n script out
append-IsWait m n script used rest (r, left, ready x) split le h = tt
append-IsWait m n script used rest (r, left, pending) split le (more, split', why) = (
  used ++ more,
  split ∙ (ap (λ x. used ++ x) split' ∙ sym (append_assoc used more left)),
  elim why [
    | inl e ↦ inl e
    | inr (inl (earlier, e)) ↦ inr (
        inl (
          used ++ earlier,
          ap (λ x. used ++ x) e ∙ sym (append_assoc used earlier (SocketRead.waits ∷ [])),
        ))
    | inr (inr k) ↦ inr (inr (omega (arith, le, k, length-append used more)))
  ],
)

rounds-IsWait :
    (n : ℕ) (p : FrameProtection) (r : FrameReader) (script : List SocketRead)
    → IsWait (n - weight r.header) script (poll_rounds n p r script)
unfolding poll_rounds
rounds-IsWait zero p r script = ([], refl, inr (inr (omega arith)))
rounds-IsWait (suc n) p r script = go (rounds-IsWait n p) (turn p r script) (turn-IsStep p r script)
  where
    go :
        ((r' : FrameReader) (script' : List SocketRead)
          → IsWait (n - weight r'.header) script' (poll_rounds n p r' script'))
        → (t : Turn) → IsStep r script t
        → IsWait (suc n - weight r.header) script (elim t [
          | again r' script' ↦ poll_rounds n p r' script'
          | done r' script' out ↦ (r', script', out)
        ])
    go later (again r' rest) (used, split, le) =
        append-IsWait (n - weight r'.header) (suc n - weight r.header) script used rest
          (poll_rounds n p r' rest) split (omega (arith, le)) (later r' rest)
    go later (done r' rest pending) (inl (e, left)) = ([], e ∙ sym left, inl left)
    go later (done r' rest pending) (inr e) = (SocketRead.waits ∷ [], e, inr (inl ([], refl)))
    go later (done r' rest (ready x)) h = tt

weight_le : (o : Option FrameHeader) → weight o ≤ 1
weight_le none = omega arith
weight_le (some h) = omega arith

-- A poll of the reader waits only where the socket has no answer left, where its last answer was that it
-- waits, or after it has given at least 63 answers: it never idles while bytes are there.
pub poll_frame_waits :
    (p : FrameProtection) (r : FrameReader) (script : List SocketRead)
    → IsWait 63 script (poll_frame p r script)
unfolding poll_frame fail_reader
poll_frame_waits p r script = go r.failed r.eof (other_phase r.phase p)
  where
    go :
        (a b c : Bool)
        → IsWait 63 script (
            if◌then◌else◌ {A = FrameReader × List SocketRead × ReadResult} a
              (r, script, ready (err FramingError.closed))
              (if b
                then (r, script, ready (ok none))
                else if c
                then returned (fail_reader FramingError.phase_changed r script)
                else poll_rounds 64 p (prepared p r) script))
    go true b c = tt
    go false true c = tt
    go false false true = tt
    go false false false =
        append-IsWait (64 - weight (prepared p r).header) 63 script [] script
          (poll_rounds 64 p (prepared p r) script) refl
          (omega (arith, weight_le (prepared p r).header))
          (rounds-IsWait 64 p (prepared p r) script)
