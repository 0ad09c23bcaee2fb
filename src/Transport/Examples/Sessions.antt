-- ===== src/Transport/Examples/Sessions.antt =====
-- The theorems of the session, the scheduler, the registry and the stream numbers at concrete inputs: an
-- initiator's session of connection 7 with one registered protocol, and a peer's OPEN and DATA on stream 2.
use talk_sphere.Base.{
  ℕ, ◌+◌, ◌≤◌, ◌<◌, ◌≡◌, ◌≢◌, ◌↔◌, refl, Bool, true, false, ◌||◌, List, [], ◌∷◌, ◌++◌, Option, none,
  some, ok, length, take, ◌==◌, arith, if◌then◌else◌,
}
use talk_sphere.Base.Bytes.{IsU32}
use talk_sphere.Base.NatMap.{lookup, occurs}
use talk_sphere.Transport.Api.{ConnectionRole, StreamHandle, Protocol, Failure}
use talk_sphere.Transport.Resources.{
  Resources, Counter, IsWithin, new_resources, reserve, release, release-reserve,
}
use talk_sphere.Transport.Codec.Frames.{FrameType, FrameHeader}
use talk_sphere.Transport.Codec.Opening.{open_new}
use talk_sphere.Transport.Framing.{WireFrame}
use talk_sphere.Transport.Stream.Ids.{StreamIds, new_ids, allocate, accept, is_local, was_created}
use talk_sphere.Transport.Stream.Ids.History.{
  IsHistory, new_ids-IsHistory, allocate_creates, allocate_exhausted, accept_iff,
}
use talk_sphere.Transport.Stream.Registry.{Registry, register, resolve, resolve_in, protocol}
use talk_sphere.Transport.Stream.Registry.Laws.{IsRegistry, selects, register_binds}
use talk_sphere.Transport.Session.State.{Session, StreamState, with_handle, set_resources}
use talk_sphere.Transport.Session.Lifecycle.{close, close_work, respond}
use talk_sphere.Transport.Session.Receive.{receive, buffered}
use talk_sphere.Transport.Session.Scheduler.{
  next_output, choose, first_open, eligible, least, later, element_at, remove_at,
}
use talk_sphere.Transport.Session.Scheduler.Order.{
  has_stream, next_output_first, next_output_progress,
}
use talk_sphere.Transport.Session.Reachable.{Reachable, begun, received, connection_closed}
use talk_sphere.Transport.Session.Ledger.{opens, closes}
use talk_sphere.Transport.Session.Ledger.Life.{
  fresh, openings_balance, closed_streams_settled, table_sound, buffered_within_limit,
}

-- The session.

abbrev pub budgets : Resources
budgets = new_resources (record {
  connections = 1;
  streams_per_connection = 4;
  outbound_bytes = 1000;
  buffered_bytes_per_stream = 64;
})

abbrev pub start : Session
start = fresh 7 ConnectionRole.initiator [] [] budgets

abbrev chat : Protocol
chat = record { id = b'a' ∷ []; version = 1 }

abbrev empty_registry : Registry
empty_registry = record { entries = []; next_owner = 1 }

abbrev pub registry : Registry
registry = (register empty_registry chat).0

abbrev opening_header : FrameHeader
opening_header = record { frame_type = FrameType.open_frame; stream_id = 2; payload_len = 7 }

abbrev pub opening_payload : List ℕ
opening_payload = 0 ∷ 1 ∷ b'a' ∷ 0 ∷ 0 ∷ 0 ∷ 1 ∷ []

abbrev pub data_header : FrameHeader
data_header = record { frame_type = FrameType.data_frame; stream_id = 2; payload_len = 3 }

abbrev opened_session : Session
opened_session = (receive opening_header opening_payload registry 5 start).0

abbrev filled_session : Session
filled_session = (receive data_header (1 ∷ 2 ∷ 3 ∷ []) registry 6 opened_session).0

abbrev closed_session : Session
closed_session = close none none filled_session

filled-Reachable : Reachable start [] filled_session
filled-Reachable =
    received data_header (1 ∷ 2 ∷ 3 ∷ []) registry 6
      (received opening_header opening_payload registry 5 begun)

closed_now : (cause : Option Failure) (s : Session) → (close cause none s).is_closed ≡ true
unfolding close close_work respond
closed_now cause s = go s.is_closed refl
  where
    go : (b : Bool) → s.is_closed ≡ b → (close cause none s).is_closed ≡ true
    go true e = simp (e, close) refl
    go false e = simp (e, close) refl

openings_balance_example :
    (occurs 2 filled_session.streams + closes 2 ([] ++ filled_session.events)
      ≡ opens 2 ([] ++ filled_session.events))
    × (occurs 2 filled_session.streams ≤ 1)
openings_balance_example =
    openings_balance 7 ConnectionRole.initiator [] [] budgets 2 [] filled_session filled-Reachable

closed_streams_settled_example :
    closes 2 ([] ++ closed_session.events) ≡ opens 2 ([] ++ closed_session.events)
closed_streams_settled_example =
    closed_streams_settled 7 ConnectionRole.initiator [] [] budgets 2 [] closed_session
      (connection_closed none none filled-Reachable) (closed_now none filled_session)

buffered_within_limit_example :
    buffered 2 filled_session.events ≤ filled_session.resources.limits.buffered_bytes_per_stream
buffered_within_limit_example =
    buffered_within_limit 7 ConnectionRole.initiator [] [] budgets 2 [] filled_session
      filled-Reachable

table_sound_example :
    (length filled_session.streams ≤ filled_session.resources.limits.streams_per_connection)
    × ((state : StreamState)
        → lookup 2 filled_session.streams ≡ some state
        → (state.handle.wire_id ≡ 2)
          × (state.handle.connection ≡ filled_session.handle)
          × (was_created filled_session.ids 2 ≡ true))
table_sound_example =
    table_sound 7 ConnectionRole.initiator [] [] budgets 2 [] filled_session filled-Reachable

abbrev stream_two : StreamHandle
stream_two = record { connection = 7; owner = 1; wire_id = 2 }

-- The scheduler, with two frames of stream 3 behind a PING.

abbrev frame_of : FrameType → ℕ → WireFrame
frame_of kind id = record {
  reservation = some 28;
  header = record { frame_type = kind; stream_id = id; payload_len = 0 };
  payload = [];
  tag = none;
}

abbrev queued_session : Session
queued_session = record start {
  last_output = some 0;
  outbound =
      frame_of FrameType.ping 0 ∷ frame_of FrameType.open_frame 3 ∷ frame_of FrameType.end 3 ∷ [];
}

next_output_first_example :
    (index : ℕ) × (element_at index queued_session.outbound
      ≡ some (frame_of FrameType.open_frame 3))
    × (has_stream 3 (take index queued_session.outbound) ≡ false)
    × ((next_output queued_session).0.outbound ≡ remove_at index queued_session.outbound)
    × ((next_output queued_session).0.last_output ≡ some 3)
unfolding next_output choose first_open eligible least later element_at fresh with_handle
next_output_first_example = next_output_first queued_session (frame_of FrameType.open_frame 3) refl

next_output_progress_example : start.outbound ≡ []
unfolding next_output choose first_open eligible least later element_at fresh with_handle
    set_resources
next_output_progress_example = next_output_progress start refl

-- The registry and the stream numbers.

register_binds_example :
    (protocol empty_registry 1 ≡ none)
    × (resolve registry (record { id = b'a' ∷ []; version = 1 }) ≡ (
        if selects chat (record { id = b'a' ∷ []; version = 1 })
        then some 1
        else resolve empty_registry (record { id = b'a' ∷ []; version = 1 })))
    × (protocol registry 1 ≡ (if 1 == 1 then some chat else protocol empty_registry 1))
    × IsRegistry registry
unfolding register open_new resolve resolve_in
register_binds_example =
    register_binds empty_registry chat 1 (record { id = b'a' ∷ []; version = 1 }) 1 tt refl

abbrev numbers : StreamIds
numbers = new_ids ConnectionRole.initiator

allocate_creates_example :
    IsU32 1
    × (is_local numbers 1 ≡ true)
    × (was_created numbers 1 ≡ false)
    × (was_created (allocate numbers).0 5 ≡ ((5 == 1) || was_created numbers 5))
unfolding allocate new_ids
allocate_creates_example =
    allocate_creates numbers 1 5 (new_ids-IsHistory ConnectionRole.initiator) refl

abbrev spent : StreamIds
spent = record numbers { next_local = none; greatest_local = 4294967295 }

spent-IsHistory : IsHistory spent
unfolding new_ids
spent-IsHistory = ground arith

allocate_exhausted_example : ((allocate spent).0 ≡ spent) × (was_created spent 9 ≡ true)
unfolding allocate new_ids is_local
allocate_exhausted_example = allocate_exhausted spent 9 spent-IsHistory refl (omega arith) refl

abbrev second : ℕ
second = 2

accept_iff_example : ((accept numbers second).1 ≡ ok tt) ↔ (
    IsU32 second
    × (second ≢ 0)
    × (is_local numbers second ≡ false)
    × (was_created numbers second ≡ false)
    × ((x : ℕ) → x < second → x ≢ 0 → is_local numbers x ≡ false → was_created numbers x ≡ true))
accept_iff_example = accept_iff numbers second (new_ids-IsHistory ConnectionRole.initiator)

abbrev counter : Counter
counter = record { used = 10; limit = 100 }

release-reserve_example :
    ((reserve counter 20 ≡ none) ↔ (counter.limit < counter.used + 20))
    × ((d : Counter) → reserve counter 20 ≡ some d → IsWithin d × (release d 20 ≡ counter))
release-reserve_example =
    release-reserve counter 20 (record { bounded = omega arith; fits = omega arith }) (omega arith)
