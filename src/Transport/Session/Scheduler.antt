-- ===== src/Transport/Session/Scheduler.antt =====
-- The order of output and of consumer events: session/scheduler.rs, and `pop_event` of session.rs.
pub mod Order
use talk_sphere.Base.{
  ℕ, zero, suc, Bool, true, false, not, ◌&&◌, ◌||◌, List, [], ◌∷◌, Option, none, some, Result, ok,
  err, ltb, ◌==◌, if◌then◌else◌,
}
use talk_sphere.Transport.Api.{ConnectionId, StreamOwner, Event, authorize}
use talk_sphere.Transport.Codec.Frames.{FrameType, is_type}
use talk_sphere.Transport.Framing.{WireFrame}
use talk_sphere.Transport.Session.State.{Session}

-- `Iterator::position` of the first OPEN, counted from `index`.
unfoldable pub first_open : ℕ → List WireFrame → Option ℕ
first_open index [] = none
first_open index (f ∷ fs) =
    if is_type f.header.frame_type FrameType.open_frame
    then some index
    else first_open (suc index) fs

abbrev pub has_seen : ℕ → List ℕ → Bool
has_seen id [] = false
has_seen id (x ∷ xs) = x == id || has_seen id xs

-- `first_open != Some(index)`
abbrev pub is_other : Option ℕ → ℕ → Bool
is_other none index = true
is_other (some opening) index = not (opening == index)

-- `first_open.is_some_and(|open| open < index)`
abbrev pub is_after : Option ℕ → ℕ → Bool
is_after none index = false
is_after (some opening) index = ltb opening index

-- The frames that may go next, with their streams and positions.
unfoldable pub eligible : Option ℕ → List ℕ → ℕ → List WireFrame → List (ℕ × ℕ)
eligible opening seen index [] = []
eligible opening seen index (f ∷ fs) =
    let id = f.header.stream_id in
    let kind = f.header.frame_type in
    let rest = eligible opening (id ∷ seen) (suc index) fs in
    if has_seen id seen
    then rest
    else if is_type kind FrameType.open_frame && is_other opening index
    then rest
    else if is_type kind FrameType.go_away && is_after opening index
    then rest
    else (id, index) ∷ rest

-- `min_by_key`, which keeps the first of equal keys.
unfoldable pub least : List (ℕ × ℕ) → Option (ℕ × ℕ)
least [] = none
least ((id, index) ∷ rest) = elim (least rest) [
  | none ↦ some (id, index)
  | some (other, at) ↦ some (if ltb other id then (other, at) else (id, index))
]

abbrev pub is_later : Option ℕ → ℕ → Bool
is_later none id = true
is_later (some last) id = ltb last id

unfoldable pub later : Option ℕ → List (ℕ × ℕ) → List (ℕ × ℕ)
later last [] = []
later last ((id, index) ∷ rest) =
    let others = later last rest in if is_later last id then (id, index) ∷ others else others

abbrev pub or_else : Option (ℕ × ℕ) → Option (ℕ × ℕ) → Option (ℕ × ℕ)
or_else none b = b
or_else (some a) b = some a

unfoldable pub choose : Option ℕ → List WireFrame → Option (ℕ × ℕ)
unfolding first_open eligible least later
choose last outbound =
    let ready = eligible (first_open 0 outbound) [] 0 outbound in
    or_else (least (later last ready)) (least ready)

-- `VecDeque::remove`
module _ {A : Type 0} where
  unfoldable pub element_at : ℕ → List A → Option A
  element_at i [] = none
  element_at zero (x ∷ xs) = some x
  element_at (suc i) (x ∷ xs) = element_at i xs

  unfoldable pub remove_at : ℕ → List A → List A
  remove_at i [] = []
  remove_at zero (x ∷ xs) = xs
  remove_at (suc i) (x ∷ xs) = x ∷ remove_at i xs

unfoldable pub next_output : Session → Session × Option WireFrame
next_output s = elim (choose s.last_output s.outbound) [
  | none ↦ (s, none)
  | some (id, index) ↦ (
    record s { last_output = some id; outbound = remove_at index s.outbound },
    element_at index s.outbound,
  )
]

unfoldable pub pop_event : Session → Session × Option Event
pop_event s = (record s { events = remove_at 0 s.events }, element_at 0 s.events)

abbrev pub is_ok {ℓ} : {A E : Type ℓ} → Result A E → Bool
is_ok (ok a) = true
is_ok (err e) = false

unfoldable pub belongs_to : ConnectionId → StreamOwner → Event → Bool
belongs_to connection owner (Event.stream_opened context stream p) =
    is_ok (authorize stream connection owner)
belongs_to connection owner (Event.received stream bytes) =
    is_ok (authorize stream connection owner)
belongs_to connection owner (Event.remote_end stream) = is_ok (authorize stream connection owner)
belongs_to connection owner (Event.stream_closed stream outcome) =
    is_ok (authorize stream connection owner)
belongs_to connection owner e = false

unfoldable pub position : (Event → Bool) → ℕ → List Event → Option ℕ
position p index [] = none
position p index (e ∷ rest) = if p e then some index else position p (suc index) rest

unfoldable pub pop_stream_event : StreamOwner → Session → Session × Option Event
unfolding belongs_to position
pop_stream_event owner s = elim (position (belongs_to s.handle owner) 0 s.events) [
  | none ↦ (s, none)
  | some index ↦ (record s { events = remove_at index s.events }, element_at index s.events)
]
