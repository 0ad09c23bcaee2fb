-- ===== src/Transport/Session/Output.antt =====
-- Admission of output to the queue, and its release: `queue` and `frame` of session.rs, and the
-- `Drop` of the frames' reservations (resources.rs).
use talk_sphere.Base.{
  ℕ, ◌+◌, ◌%◌, ◌^◌, Bool, List, [], ◌∷◌, ◌++◌, none, some, Result, ok, err, map_err, length,
  if◌then◌else◌,
}
use talk_sphere.Transport.Resources.{Counter, reserve, release}
use talk_sphere.Transport.Framing.{WireFrame, FramingError, wire_frame}
use talk_sphere.Transport.Codec.Frames.{FrameType, frame_header}
use talk_sphere.Transport.Session.State.{Session, SessionError, M, ◌>>◌, capacity, framing}

-- `session::frame`
unfoldable pub frame : FrameType → ℕ → List ℕ → Result WireFrame SessionError
frame kind id payload = elim (frame_header kind id (length payload % 2 ^ 32)) [
  | err e ↦ err (framing (FramingError.bad_header e))
  | ok header ↦ map_err framing (wire_frame header payload none)
]

abbrev pub set_outbound_used : Session → Counter → Session
set_outbound_used s c = record s { resources = record s.resources { outbound = c } }

-- `self.outbound.push_back(output)` for a frame that holds a reservation of `amount`.
abbrev pub push_reserved : WireFrame → ℕ → Session → Session
push_reserved output amount s = record s {
  outbound = s.outbound ++ (record output { reservation = some amount }) ∷ [];
}

-- `self.resources.outbound(amount).ok_or(SessionError::Capacity)?`
unfoldable pub reserve_outbound : ℕ → M (Unit {0})
reserve_outbound amount s = elim (reserve s.resources.outbound amount) [
  | none ↦ (s, err capacity)
  | some c ↦ (set_outbound_used s c, ok tt)
]

unfoldable pub queue : WireFrame → M (Unit {0})
unfolding reserve_outbound
queue output = do
  let amount = length output.payload + 28
  reserve_outbound amount
  λ s. (push_reserved output amount s, ok tt)

-- The amounts that a list of frames returns when it is dropped, one lease after the other.
abbrev pub reserved_by : WireFrame → ℕ
reserved_by f = elim f.reservation [ none ↦ 0 | some amount ↦ amount ]

unfoldable pub drop_frames : List WireFrame → Counter → Counter
drop_frames [] c = c
drop_frames (f ∷ fs) c = drop_frames fs (release c (reserved_by f))

abbrev pub release_frames : List WireFrame → Session → Session
release_frames fs s = set_outbound_used s (drop_frames fs s.resources.outbound)

-- `Vec::retain` and what it drops.
unfoldable pub retained : (WireFrame → Bool) → List WireFrame → List WireFrame
retained p [] = []
retained p (f ∷ fs) = let rest = retained p fs in if p f then f ∷ rest else rest

unfoldable pub dropped : (WireFrame → Bool) → List WireFrame → List WireFrame
dropped p [] = []
dropped p (f ∷ fs) = let rest = dropped p fs in if p f then rest else f ∷ rest

-- `self.outbound.clear()`
unfoldable pub clear_outbound : Session → Session
clear_outbound s = record (release_frames s.outbound s) { outbound = [] }

-- `self.outbound.retain(p)`
unfoldable pub retain_outbound : (WireFrame → Bool) → Session → Session
retain_outbound p s = record (release_frames (dropped p s.outbound) s) {
  outbound = retained p s.outbound;
}
