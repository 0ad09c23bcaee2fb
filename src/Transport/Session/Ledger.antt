-- ===== src/Transport/Session/Ledger.antt =====
-- The specification of the stream table against the consumer's events: every opening of a stream is
-- answered by one closing, or the stream is still in the table.
mod Events
mod Primitives
mod Growth
pub mod Balance
pub mod Life
use talk_sphere.Base.{ℕ, suc, ◌+◌, ◌≤◌, ◌≡◌, Bool, true, false, List, [], ◌∷◌, bit, ◌==◌, length}
use talk_sphere.Base.NatMap.{Above, Entries, occurs}
use talk_sphere.Transport.Api.{ConnectionId, StreamHandle, Event}
use talk_sphere.Transport.Stream.Ids.{StreamIds, was_created}
use talk_sphere.Transport.Stream.Ids.History.{IsHistory}
use talk_sphere.Transport.Session.Receive.{buffered}
use talk_sphere.Transport.Session.State.{Session, StreamState}

-- The opening and closing events of stream `id` among the queued events.
unfoldable pub opens : ℕ → List Event → ℕ
opens id [] = 0
opens id (Event.stream_opened context stream p ∷ rest) = bit (stream.wire_id == id) + opens id rest
opens id (e ∷ rest) = opens id rest

unfoldable pub closes : ℕ → List Event → ℕ
closes id [] = 0
closes id (Event.stream_closed stream outcome ∷ rest) = bit (stream.wire_id == id) + closes id rest
closes id (e ∷ rest) = closes id rest

-- A stream stands under its own wire number, on this connection, and its number is in the history.
pub record IsEntry (connection : ConnectionId) (ids : StreamIds) (k : ℕ) (state : StreamState)
    : Type 0 where
  pub wire_id : state.handle.wire_id ≡ k
  pub own_connection : state.handle.connection ≡ connection
  pub created : was_created ids k ≡ true

-- The table is sorted, of created numbers and within its limit; a closed session has no streams; the
-- openings of `id` are balanced by its closings and its entry, and its waiting bytes are bounded.
-- `a` closings and `b` openings of stream `id` have been consumed already.
pub record Core (id a b limit room : ℕ) (connection : ConnectionId) (ids : StreamIds)
    (streams : List (ℕ × StreamState)) (events : List Event) (is_closed : Bool) : Type 0 where
  pub history : IsHistory ids
  pub sorted : Above 0 streams
  pub entries : Entries (IsEntry connection ids) streams
  pub within : length streams ≤ limit
  pub balance : occurs id streams + (closes id events + a) ≡ opens id events + b
  pub bounded : buffered id events ≤ room
  pub idle : is_closed ≡ true → streams ≡ []

abbrev pub IsBalanced : ℕ → ℕ → ℕ → Session → Type 0
IsBalanced id a b s =
    Core id a b s.resources.limits.streams_per_connection
      s.resources.limits.buffered_bytes_per_stream s.handle s.ids s.streams s.events s.is_closed
