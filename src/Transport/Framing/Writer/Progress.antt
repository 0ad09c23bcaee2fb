-- ===== src/Transport/Framing/Writer/Progress.antt =====
-- What the socket has taken of a frame after a poll of the writer.
use talk_sphere.Base.{
  ℕ, zero, suc, ◌-◌, ◌+◌, ◌≤◌, ◌<◌, ◌≡◌, ◌≢◌, ◌⊎◌, length-take, refl, sym, ap, subst, ◌∙◌, Bool,
  true, false, inl, inr, is_some, not, List, [], ◌∷◌, ◌++◌, append_assoc, append-nil, none, Result,
  ok, err, Bool-cases, length, take, drop, take-append-drop, take_add, take_all, empty_list, arith,
  ◌==◌, ==_iff, leb, leb→le, if◌then◌else◌,
}
use talk_sphere.Transport.Codec.Frames.{FrameProtection, HeaderError, frame_len}
use talk_sphere.Transport.Framing.{ErrorKind, FramingError, WireFrame}
use talk_sphere.Transport.Framing.Wire.{pending, ready, SocketWrite, serialize}
use talk_sphere.Transport.Framing.Writer.{
  FrameWriter, WriteTurn, again, done, WriteResult, start_frame, is_tagged, same_tagging,
  write_turn, write_part, write_bytes, fail_writer, flush_rounds, poll_flush,
}
use talk_sphere.Transport.Framing.Writer.Waiting.{IsWait, poll_flush_waits}

-- The writer has handed over the bytes `written` of a frame.
pub record IsWriting (f : WireFrame) (written : List ℕ) (w : FrameWriter) : Type 0 where
  pub alive : w.failed ≡ false
  pub whole : w.bytes ≡ serialize f
  pub sent : written ≡ take w.offset w.bytes
  pub room : w.offset ≤ length w.bytes
  pub leased : w.lease ≡ f.reservation

-- The writer holds no frame and nothing of the budget.
pub record IsEmpty (w : FrameWriter) : Type 0 where
  pub no_lease : w.lease ≡ none
  pub no_bytes : w.bytes ≡ []

-- The last of the answers that were used.
abbrev pub IsLast : List SocketWrite → SocketWrite → Type 0
IsLast used x = (earlier : List SocketWrite) × (used ≡ earlier ++ x ∷ [])

-- What an error says of the answers that were used, where the bytes `written` have been taken.
abbrev pub IsFault : WireFrame → List ℕ → List SocketWrite → FramingError → Type 0
IsFault f written used (FramingError.io kind) =
    ((kind ≢ ErrorKind.interrupted) × IsLast used (SocketWrite.failed kind))
    ⊎ ((kind ≡ ErrorKind.write_zero) × IsLast used (SocketWrite.takes 0))
    ⊎ ((n : ℕ) × (kind ≡ ErrorKind.invalid_data)
        × IsLast used (SocketWrite.takes n)
        × (length (serialize f) < length written + n))
IsFault f written used e = ⊥

abbrev pub Meaning : WireFrame → List ℕ → List SocketWrite → FrameWriter → WriteResult → Type 0
Meaning f written used w pending = IsWriting f written w
Meaning f written used w (ready (ok u)) = (written ≡ serialize f) × IsEmpty w × (w.failed ≡ false)
Meaning f written used w (ready (err e)) =
    ((missing : List ℕ) × (written ++ missing ≡ serialize f))
    × IsEmpty w
    × (w.failed ≡ true)
    × IsFault f written used e

abbrev pub IsFlush :
    WireFrame
    → List ℕ
    → List SocketWrite
    → FrameWriter × List SocketWrite × List ℕ × WriteResult
    → Type 0
IsFlush f written script (w, rest, out, result) =
    (used : List SocketWrite) × (script ≡ used ++ rest) × Meaning f (written ++ out) used w result

abbrev pub IsTurn : WireFrame → List ℕ → List SocketWrite → WriteTurn → Type 0
IsTurn f written script (again w rest out) =
    (used : List SocketWrite) × (script ≡ used ++ rest) × IsWriting f (written ++ out) w
IsTurn f written script (done w rest result) =
    (used : List SocketWrite) × (script ≡ used ++ rest) × Meaning f written used w result

failed-IsTurn :
    (f : WireFrame) (written : List ℕ) (w : FrameWriter) (used script : List SocketWrite)
    (k : ErrorKind)
    → IsWriting f written w
    → IsFault f written used (FramingError.io k)
    → IsTurn f written (used ++ script) (fail_writer k w script)
unfolding fail_writer
failed-IsTurn f written w used script k h fault = (
  used,
  refl,
  (
    (
      drop w.offset w.bytes,
      ap (λ x. x ++ drop w.offset w.bytes) h.sent ∙ (take-append-drop w.offset w.bytes ∙ h.whole),
    ),
    record { no_lease = refl; no_bytes = refl },
    refl,
    fault,
  ),
)

refused-IsTurn :
    (f : WireFrame) (written : List ℕ) (w : FrameWriter) (script : List SocketWrite) (k : ErrorKind)
    → IsWriting f written w
    → k ≢ ErrorKind.interrupted
    → IsTurn f written (SocketWrite.failed k ∷ script) (fail_writer k w script)
refused-IsTurn f written w script k h e =
    failed-IsTurn f written w (SocketWrite.failed k ∷ []) script k h (inl (e, ([], refl)))

taken_count :
    (f : WireFrame) (written : List ℕ) (w : FrameWriter)
    → IsWriting f written w
    → length written ≡ w.offset
taken_count f written w h = omega (arith, ap length h.sent, length-take w.offset w.bytes, h.room)

same-IsWriting :
    (f : WireFrame) (written : List ℕ) (w : FrameWriter)
    → IsWriting f written w
    → IsWriting f (written ++ []) w
same-IsWriting f written w = subst (λ x. IsWriting f x w) (sym (append-nil written))

more_than : (m n : ℕ) → leb m n ≡ false → n < m
more_than m n h = ground (arith, h)

bytes-IsTurn :
    (f : WireFrame) (written : List ℕ) (n : ℕ) (w : FrameWriter) (script : List SocketWrite)
    → IsWriting f written w
    → IsTurn f written (SocketWrite.takes n ∷ script) (write_bytes n w script)
unfolding write_bytes
bytes-IsTurn f written n w script h = elim (Bool-cases (n == 0)) [
  | inl none_taken ↦
      rw (none_taken, IsTurn)
        (failed-IsTurn f written w (SocketWrite.takes n ∷ []) script ErrorKind.write_zero h
          (inr (inl (refl, ([], ap (λ k. SocketWrite.takes k ∷ []) ((==_iff n 0).0 none_taken))))))
  | inr some_taken ↦
      rw (some_taken, IsTurn)
        (elim (Bool-cases (leb n (length w.bytes - w.offset))) [
          | inr over ↦
              rw (over, IsTurn)
                (failed-IsTurn f written w (SocketWrite.takes n ∷ []) script ErrorKind.invalid_data
                  h
                  (inr (
                    inr (
                      n,
                      refl,
                      ([], refl),
                      omega (
                        arith,
                        more_than _ _ over,
                        taken_count f written w h,
                        ap length h.whole,
                        h.room,
                      ),
                    ))))
          | inl fits ↦
              rw (fits, IsTurn)
                (
                  SocketWrite.takes n ∷ [],
                  refl,
                  record {
                    alive = h.alive;
                    whole = h.whole;
                    sent =
                        ap (λ x. x ++ take n (drop w.offset w.bytes)) h.sent
                        ∙ sym (take_add w.offset n w.bytes);
                    room = omega (arith, h.room, leb→le n (length w.bytes - w.offset) fits);
                    leased = h.leased;
                  },
                )
        ])
]

part-IsTurn :
    (f : WireFrame) (written : List ℕ) (w : FrameWriter) (script : List SocketWrite)
    → IsWriting f written w
    → IsTurn f written script (write_part w script)
unfolding write_part
part-IsTurn f written w [] h = ([], refl, h)
part-IsTurn f written w (SocketWrite.waits ∷ script) h = (SocketWrite.waits ∷ [], refl, h)
part-IsTurn f written w (SocketWrite.takes n ∷ script) h = bytes-IsTurn f written n w script h
part-IsTurn f written w (SocketWrite.failed ErrorKind.interrupted ∷ script) h =
    (SocketWrite.failed ErrorKind.interrupted ∷ [], refl, same-IsWriting f written w h)
part-IsTurn f written w (SocketWrite.failed ErrorKind.write_zero ∷ script) h =
    refused-IsTurn f written w script ErrorKind.write_zero h (λ e. cc)
part-IsTurn f written w (SocketWrite.failed ErrorKind.invalid_data ∷ script) h =
    refused-IsTurn f written w script ErrorKind.invalid_data h (λ e. cc)
part-IsTurn f written w (SocketWrite.failed (ErrorKind.other k) ∷ script) h =
    refused-IsTurn f written w script (ErrorKind.other k) h (λ e. cc)

write_turn-IsTurn :
    (f : WireFrame) (written : List ℕ) (w : FrameWriter) (script : List SocketWrite)
    → IsWriting f written w
    → IsTurn f written script (write_turn w script)
unfolding write_turn
write_turn-IsTurn f written w script h = elim (Bool-cases (w.offset == length w.bytes)) [
  | inr less ↦ rw (less, IsTurn) (part-IsTurn f written w script h)
  | inl full ↦
      rw (full, IsTurn)
        (
          [],
          refl,
          (
            h.sent
                ∙ (take_all w.offset w.bytes (sym ((==_iff w.offset (length w.bytes)).0 full))
                    ∙ h.whole),
            record { no_lease = refl; no_bytes = refl },
            h.alive,
          ),
        )
]

append-IsLast :
    (used more : List SocketWrite) (x : SocketWrite) → IsLast more x → IsLast (used ++ more) x
append-IsLast used more x (earlier, e) =
    (used ++ earlier, ap (λ l. used ++ l) e ∙ sym (append_assoc used earlier (x ∷ [])))

append-IsFault :
    (f : WireFrame) (written : List ℕ) (used more : List SocketWrite) (e : FramingError)
    → IsFault f written more e
    → IsFault f written (used ++ more) e
append-IsFault f written used more (FramingError.io kind) (inl (h, last)) =
    inl (h, append-IsLast used more (SocketWrite.failed kind) last)
append-IsFault f written used more (FramingError.io kind) (inr (inl (h, last))) =
    inr (inl (h, append-IsLast used more (SocketWrite.takes 0) last))
append-IsFault f written used more (FramingError.io kind) (inr (inr (n, h, last, over))) =
    inr (inr (n, h, append-IsLast used more (SocketWrite.takes n) last, over))
append-IsFault f written used more (FramingError.bad_header e) h = elim h [ ]
append-IsFault f written used more FramingError.truncated h = elim h [ ]
append-IsFault f written used more FramingError.closed h = elim h [ ]
append-IsFault f written used more FramingError.phase_changed h = elim h [ ]
append-IsFault f written used more FramingError.shape h = elim h [ ]
append-IsFault f written used more FramingError.busy h = elim h [ ]

append-Meaning :
    (f : WireFrame) (written : List ℕ) (used more : List SocketWrite) (w : FrameWriter)
    (result : WriteResult)
    → Meaning f written more w result
    → Meaning f written (used ++ more) w result
append-Meaning f written used more w pending h = h
append-Meaning f written used more w (ready (ok u)) h = h
append-Meaning f written used more w (ready (err e)) (missing, vacant, failed, fault) =
    (missing, vacant, failed, append-IsFault f written used more e fault)

rounds_sound :
    (n : ℕ) (f : WireFrame) (written : List ℕ) (w : FrameWriter) (script : List SocketWrite)
    → IsWriting f written w
    → IsFlush f written script (flush_rounds n w script)
unfolding flush_rounds
rounds_sound zero f written w script h = ([], refl, same-IsWriting f written w h)
rounds_sound (suc n) f written w script h =
    go (rounds_sound n f) (write_turn w script) (write_turn-IsTurn f written w script h)
  where
    go :
        ((written' : List ℕ) (w' : FrameWriter) (script' : List SocketWrite)
          → IsWriting f written' w'
          → IsFlush f written' script' (flush_rounds n w' script'))
        → (t : WriteTurn) → IsTurn f written script t
        → IsFlush f written script (elim t [
          | again w' script' out ↦
              (let (v, rest, more, result) = flush_rounds n w' script' in
                (v, rest, out ++ more, result))
          | done w' script' result ↦ (w', script', [], result)
        ])
    go later (done w' rest result) (used, split, h) =
        (used, split, subst (λ x. Meaning f x used w' result) (sym (append-nil written)) h)
    go later (again w' rest out) (used, split, h) =
        let done = flush_rounds n w' rest in
        let (more, split', meaning) = later (written ++ out) w' rest h in
        (
          used ++ more,
          split ∙ (ap (λ x. used ++ x) split' ∙ sym (append_assoc used more done.1)),
          subst (λ x. Meaning f x (used ++ more) done.0 done.3) (append_assoc written out done.2)
              (append-Meaning f _ used more done.0 done.3 meaning),
        )

-- Polled while it holds a frame of which the socket has taken the bytes `written`, the writer hands
-- over the next bytes of that frame, in order and without a gap, whatever the socket answers: where it
-- waits, what has been taken is still a beginning of the frame and the lease is held; where it is done,
-- exactly the bytes of the frame have been taken; where it fails, a beginning of them. Done or failed,
-- it holds no bytes and no lease. It fails only where the socket's last answer was this failure, and not
-- an interruption, where it took no byte, or where it took more bytes than were left of the frame. It
-- waits only where the socket has no answer left, where its last answer was that it waits, or after at
-- least 64 answers.
pub poll_flush_sound :
    (f : WireFrame) (written : List ℕ) (w : FrameWriter) (script : List SocketWrite)
    → IsWriting f written w
    → IsFlush f written script (poll_flush w script) × IsWait 64 script (poll_flush w script)
unfolding poll_flush
poll_flush_sound f written w script h = (go w.failed h.alive, poll_flush_waits w script)
  where
    go :
        (b : Bool)
        → b ≡ false
        → IsFlush f written script (
            if b
            then (w, script, [], ready (err FramingError.closed))
            else flush_rounds 64 w script)
    go false e = rounds_sound 64 f written w script h
    go true e = cc

abbrev pub IsStart :
    WireFrame
    → FrameProtection
    → FrameWriter
    → FrameWriter × Result (Unit {0}) FramingError
    → Type 0
IsStart f p w (w', ok u) = IsWriting f [] w' × (w.bytes ≡ []) × (is_some f.tag ≡ is_tagged p)
IsStart f p w (w', err e) = w' ≡ w

-- A frame that an empty writer accepts is written from its first byte, holds its lease, and has a tag
-- exactly where the phase wants one; a frame that the writer refuses leaves it as it was.
pub start_frame_sound :
    (f : WireFrame) (p : FrameProtection) (w : FrameWriter) → IsStart f p w (start_frame f p w)
unfolding start_frame
start_frame_sound f p w = unless w.failed _ FramingError.closed λ alive.
    unless (not (length w.bytes == 0)) _ FramingError.busy λ vacant.
      unless (not (same_tagging (is_some f.tag) (is_tagged p))) _ FramingError.shape λ tagging.
        go (frame_len f.header p) alive (empty_list w.bytes (not_zero (length w.bytes) vacant))
          (same_tagging_lem (is_some f.tag) (is_tagged p) tagging)
  where
    unless :
        (b : Bool) (x : FrameWriter × Result (Unit {0}) FramingError) (e : FramingError)
        → (b ≡ false → IsStart f p w x)
        → IsStart f p w (if b then (w, err e) else x)
    unless true x e h = refl
    unless false x e h = h refl

    not_zero : (n : ℕ) → not (n == 0) ≡ false → n ≡ 0
    not_zero n h = ground arith

    same_tagging_lem : (a b : Bool) → not (same_tagging a b) ≡ false → a ≡ b
    same_tagging_lem true true h = refl
    same_tagging_lem true false h = cc
    same_tagging_lem false true h = cc
    same_tagging_lem false false h = refl

    go :
        (size : Result ℕ HeaderError)
        → w.failed ≡ false
        → w.bytes ≡ []
        → is_some f.tag ≡ is_tagged p
        → IsStart f p w (elim size [
          | err e ↦ (w, err (FramingError.bad_header e))
          | ok n ↦ (record w { lease = f.reservation; bytes = serialize f; offset = 0 }, ok tt)
        ])
    go (err e) alive vacant tagging = refl
    go (ok n) alive vacant tagging = (
      record { alive = alive; whole = refl; sent = refl; room = omega arith; leased = refl },
      vacant,
      tagging,
    )
