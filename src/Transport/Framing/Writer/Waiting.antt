-- ===== src/Transport/Framing/Writer/Waiting.antt =====
-- When a poll of the writer waits.
use talk_sphere.Base.{
  ℕ, zero, suc, ◌+◌, ◌-◌, ◌≤◌, ◌≡◌, ◌⊎◌, refl, sym, ap, ◌∙◌, inl, inr, Bool, true, false, List, [],
  ◌∷◌, ◌++◌, none, ok, err, length, take, drop, arith, ◌==◌, leb, if◌then◌else◌,
}
use talk_sphere.Transport.Framing.{ErrorKind, FramingError}
use talk_sphere.Transport.Framing.Wire.{pending, ready, SocketWrite}
use talk_sphere.Transport.Framing.Writer.{
  FrameWriter, WriteTurn, again, done, WriteResult, write_turn, write_part, write_bytes,
  fail_writer, flush_rounds, poll_flush,
}

abbrev IsStep : List SocketWrite → WriteTurn → Type 0
IsStep script (again w rest out) = (answer : SocketWrite) × (script ≡ answer ∷ rest)
IsStep script (done w rest pending) =
    ((script ≡ []) × (rest ≡ [])) ⊎ (script ≡ SocketWrite.waits ∷ rest)
IsStep script (done w rest (ready x)) = Unit {0}

-- Why a poll of so many rounds waits.
abbrev pub IsWait :
    ℕ → List SocketWrite → FrameWriter × List SocketWrite × List ℕ × WriteResult → Type 0
IsWait n script (w, rest, out, pending) =
    (used : List SocketWrite) × (script ≡ used ++ rest)
    × ((rest ≡ [])
        ⊎ ((earlier : List SocketWrite) × (used ≡ earlier ++ SocketWrite.waits ∷ []))
        ⊎ (n ≤ length used))
IsWait n script (w, rest, out, ready x) = Unit {0}

bytes-IsStep :
    (n : ℕ) (w : FrameWriter) (script : List SocketWrite)
    → IsStep (SocketWrite.takes n ∷ script) (write_bytes n w script)
unfolding write_bytes fail_writer
bytes-IsStep n w script = go (n == 0) (leb n (length w.bytes - w.offset))
  where
    go :
        (a b : Bool)
        → IsStep (SocketWrite.takes n ∷ script) (
            if a
            then fail_writer ErrorKind.write_zero w script
            else if b
            then again (record w { offset = w.offset + n }) script (take n (drop w.offset w.bytes))
            else fail_writer ErrorKind.invalid_data w script)
    go true b = tt
    go false true = (SocketWrite.takes n, refl)
    go false false = tt

part-IsStep : (w : FrameWriter) (script : List SocketWrite) → IsStep script (write_part w script)
unfolding write_part fail_writer
part-IsStep w [] = inl (refl, refl)
part-IsStep w (SocketWrite.waits ∷ script) = inr refl
part-IsStep w (SocketWrite.takes n ∷ script) = bytes-IsStep n w script
part-IsStep w (SocketWrite.failed ErrorKind.interrupted ∷ script) =
    (SocketWrite.failed ErrorKind.interrupted, refl)
part-IsStep w (SocketWrite.failed ErrorKind.write_zero ∷ script) = tt
part-IsStep w (SocketWrite.failed ErrorKind.invalid_data ∷ script) = tt
part-IsStep w (SocketWrite.failed (ErrorKind.other k) ∷ script) = tt

turn-IsStep : (w : FrameWriter) (script : List SocketWrite) → IsStep script (write_turn w script)
unfolding write_turn
turn-IsStep w script = go (w.offset == length w.bytes)
  where
    go :
        (b : Bool)
        → IsStep script (
            if b
            then done (record w { lease = none; bytes = []; offset = 0 }) script (ready (ok tt))
            else write_part w script)
    go true = tt
    go false = part-IsStep w script

append-IsWait :
    (n : ℕ) (script rest left : List SocketWrite) (answer : SocketWrite) (w : FrameWriter)
    (out more : List ℕ) (result : WriteResult)
    → script ≡ answer ∷ rest
    → IsWait n rest (w, left, more, result)
    → IsWait (suc n) script (w, left, out ++ more, result)
append-IsWait n script rest left answer w out more (ready x) split h = tt
append-IsWait n script rest left answer w out more pending split (used, split', why) = (
  answer ∷ used,
  split ∙ ap (◌∷◌ answer) split',
  elim why [
    | inl e ↦ inl e
    | inr (inl (earlier, e)) ↦ inr (inl (answer ∷ earlier, ap (◌∷◌ answer) e))
    | inr (inr k) ↦ inr (inr (omega (arith, k)))
  ],
)

rounds-IsWait :
    (n : ℕ) (w : FrameWriter) (script : List SocketWrite)
    → IsWait n script (flush_rounds n w script)
unfolding flush_rounds
rounds-IsWait zero w script = ([], refl, inr (inr (omega arith)))
rounds-IsWait (suc n) w script = go (rounds-IsWait n) (write_turn w script) (turn-IsStep w script)
  where
    go :
        ((w' : FrameWriter) (script' : List SocketWrite)
          → IsWait n script' (flush_rounds n w' script'))
        → (t : WriteTurn) → IsStep script t
        → IsWait (suc n) script (elim t [
          | again w' script' out ↦
              (let (v, rest, more, result) = flush_rounds n w' script' in
                (v, rest, out ++ more, result))
          | done w' script' result ↦ (w', script', [], result)
        ])
    go later (again w' rest out) (answer, split) =
        let (v, left, more, result) = flush_rounds n w' rest in
        append-IsWait n script rest left answer v out more result split (later w' rest)
    go later (done w' rest pending) (inl (e, left)) = ([], e ∙ sym left, inl left)
    go later (done w' rest pending) (inr e) = (SocketWrite.waits ∷ [], e, inr (inl ([], refl)))
    go later (done w' rest (ready x)) h = tt

-- A poll of the writer waits only where the socket has no answer left or waits, or after 64 answers.
pub poll_flush_waits :
    (w : FrameWriter) (script : List SocketWrite) → IsWait 64 script (poll_flush w script)
unfolding poll_flush
poll_flush_waits w script = go w.failed
  where
    go :
        (b : Bool)
        → IsWait 64 script (
            if◌then◌else◌ {A = FrameWriter × List SocketWrite × List ℕ × WriteResult} b
              (w, script, [], ready (err FramingError.closed))
              (flush_rounds 64 w script))
    go true = tt
    go false = rounds-IsWait 64 w script
