-- ===== src/Transport/Session/Ping.antt =====
-- Liveness probes: session/ping.rs. Instants and durations are numbers of one unit; `horizon` is the
-- last instant that the platform represents, beyond which `checked_add` fails.
use talk_sphere.Base.{
  ℕ, ◌+◌, ◌-◌, Bool, true, false, not, ◌&&◌, ◌||◌, List, [], ◌∷◌, Option, none, some, Result, ok,
  err, ltb, leb, ◌==◌, if◌then◌else◌, bytes_eq, length,
}
use talk_sphere.Transport.Api.{FailureCode, FailureOrigin, Event}
use talk_sphere.Transport.Codec.Frames.{FrameType, is_type}
use talk_sphere.Transport.Codec.Control.{ping_token_decode}
use talk_sphere.Transport.Session.State.{
  Session, SessionError, Probe, M, ◌>>=◌, ◌>>◌, lift, get, update, require, push_event, closed,
  capacity, protocol_error,
}
use talk_sphere.Transport.Session.Output.{frame, queue}
use talk_sphere.Transport.Session.Lifecycle.{failure}

-- The order of `[u8; 8]` keys.
abbrev pub token_before : List ℕ → List ℕ → Bool
token_before [] [] = false
token_before [] (y ∷ ys) = true
token_before (x ∷ xs) [] = false
token_before (x ∷ xs) (y ∷ ys) = ltb x y || (x == y && token_before xs ys)

unfoldable pub find_probe : List ℕ → List Probe → Option Probe
find_probe token [] = none
find_probe token (p ∷ ps) = if bytes_eq p.token token then some p else find_probe token ps

unfoldable pub remove_probe : List ℕ → List Probe → List Probe
remove_probe token [] = []
remove_probe token (p ∷ ps) = if bytes_eq p.token token then ps else p ∷ remove_probe token ps

-- The map's insertion of a token that it does not hold.
unfoldable pub insert_probe : Probe → List Probe → List Probe
insert_probe p [] = p ∷ []
insert_probe p (q ∷ qs) = if token_before p.token q.token then p ∷ q ∷ qs else q ∷ insert_probe p qs

abbrev pub has_probe : List ℕ → List Probe → Bool
has_probe token ps = elim (find_probe token ps) [ none ↦ false | some p ↦ true ]

unfoldable pub ping : ℕ → List ℕ → ℕ → ℕ → M (Unit {0})
ping horizon token timeout now = do
  s ← get
  require (not s.is_closed) closed
  require (not (timeout == 0 || has_probe token s.pings)) protocol_error
  require (ltb (length s.pings) 64) capacity
  require (leb (now + timeout) horizon) protocol_error
  output ← lift (frame FrameType.ping 0 token)
  queue output
  let probe : Probe = record { token = token; started = now; deadline = now + timeout }
  update λ t. record t { pings = insert_probe probe t.pings }

unfoldable pub expired_tokens : ℕ → List Probe → List (List ℕ)
expired_tokens now [] = []
expired_tokens now (p ∷ ps) =
    let rest = expired_tokens now ps in if leb p.deadline now then p.token ∷ rest else rest

unfoldable pub expire : List (List ℕ) → Session → Session
expire [] s = s
expire (token ∷ rest) s = expire rest (
    push_event
      (Event.ping_finished s.handle token
        (err (failure FailureOrigin.local FailureCode.deadline_exceeded)))
      (record s { pings = remove_probe token s.pings }))

unfoldable pub tick : ℕ → Session → Session
tick now s = expire (expired_tokens now s.pings) (record s { now = some now })

unfoldable pub earliest : List Probe → Option ℕ
earliest [] = none
earliest (p ∷ ps) = elim (earliest ps) [
  | none ↦ some p.deadline
  | some d ↦ some (if leb p.deadline d then p.deadline else d)
]

unfoldable pub next_deadline : Session → Option ℕ
unfolding earliest
next_deadline s = earliest s.pings

-- `now.and_then(|now| now.checked_duration_since(started))`
abbrev pub elapsed_since : Option ℕ → ℕ → Option ℕ
elapsed_since none started = none
elapsed_since (some now) started = if leb started now then some (now - started) else none

abbrev pub finish_probe : List ℕ → Option ℕ → M (Unit {0})
finish_probe token none s = (s, err protocol_error)
finish_probe token (some elapsed) s =
    (push_event (Event.ping_finished s.handle token (ok elapsed)) s, ok tt)

unfoldable pub receive_pong : List ℕ → M (Unit {0})
receive_pong token s = elim (find_probe token s.pings) [
  | none ↦ (s, ok tt)
  | some p ↦
      finish_probe token (elapsed_since s.now p.started)
        (record s { pings = remove_probe token s.pings })
]

abbrev pub token_of : List ℕ → Result (List ℕ) SessionError
token_of payload = elim (ping_token_decode payload) [
  | ok token ↦ ok token
  | err e ↦ err protocol_error
]

unfoldable pub echo : List ℕ → M (Unit {0})
echo token = do output ← lift (frame FrameType.pong 0 token); queue output

unfoldable pub receive_ping : FrameType → List ℕ → M (Unit {0})
receive_ping kind payload = do
  token ← lift (token_of payload)
  (if is_type kind FrameType.ping then echo token else receive_pong token)
