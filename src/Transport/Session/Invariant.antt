-- ===== src/Transport/Session/Invariant.antt =====
-- The elementary changes of a session's state, and the predicates that they keep.
use talk_sphere.Base.{
  ℕ, ◌+◌, ◌≤◌, ◌<◌, ◌≡◌, refl, Bool, true, false, List, Option, some, length, Result, ok, err,
}
use talk_sphere.Base.NatMap.{lookup, contains, modify}
use talk_sphere.Transport.Api.{Event, Failure, StreamOutcome, StreamOwner, Protocol}
use talk_sphere.Transport.Framing.{WireFrame}
use talk_sphere.Transport.Stream.Ids.{accept, allocate, was_created}
use talk_sphere.Transport.Session.State.{
  Session, StreamState, SessionError, Probe, M, ◌>>=◌, continue, require, lift, get, push_event,
}
use talk_sphere.Transport.Session.Output.{queue, set_outbound_used}
use talk_sphere.Transport.Resources.{Counter}
use talk_sphere.Transport.Session.Lifecycle.{close_stream, terminate, close_work}
use talk_sphere.Transport.Session.Requests.{install}
use talk_sphere.Transport.Session.Receive.{buffered}

-- An operation keeps a predicate, whether or not it fails.
abbrev pub Keeps {ℓ} : {A : Type 0} → (Session → Type ℓ) → M A → Type ℓ
Keeps P m = (s : Session) → P s → P (m s).0

-- An event that neither opens nor closes a stream nor carries bytes.
abbrev pub IsPlain : Event → Type 0
IsPlain (Event.stream_opened context stream p) = ⊥
IsPlain (Event.stream_closed stream outcome) = ⊥
IsPlain (Event.received stream bytes) = ⊥
IsPlain e = Unit {0}

pub record IsInvariant {ℓ} (P : Session → Type ℓ) : Type ℓ where
  pub queued : (f : WireFrame) → Keeps P (queue f)
  pub terminated : (k : ℕ) (outcome : StreamOutcome) (s : Session) → P s → P (terminate k outcome s)
  pub stream_closed :
      (k : ℕ) (outcome : StreamOutcome) (s : Session) → P s → P (close_stream k outcome s)
  pub connection_closed : (cause : Option Failure) (s : Session) → P s → P (close_work cause s)
  pub flagged :
      (k : ℕ) (f : StreamState → StreamState) (s : Session)
      → ((state : StreamState) → (f state).handle ≡ state.handle)
      → P s
      → P (record s { streams = modify k f s.streams })
  pub reported : (e : Event) (s : Session) → IsPlain e → P s → P (push_event e s)
  pub delivered :
      (k : ℕ) (state : StreamState) (bytes : List ℕ) (s : Session)
      → lookup k s.streams ≡ some state
      → buffered k s.events + length bytes ≤ s.resources.limits.buffered_bytes_per_stream
      → P s
      → P (push_event (Event.received state.handle bytes) s)
  pub numbered_remote : (k : ℕ) (s : Session) → P s → P (record s { ids = (accept s.ids k).0 })
  pub numbered_local : (s : Session) → P s → P (record s { ids = (allocate s.ids).0 })
  pub installed :
      (k : ℕ) (owner : StreamOwner) (p : Protocol) (s : Session)
      → s.is_closed ≡ false
      → was_created s.ids k ≡ true
      → contains k s.streams ≡ false
      → length s.streams < s.resources.limits.streams_per_connection
      → P s
      → P (install k owner p s).0
  pub probed : (ps : List Probe) (s : Session) → P s → P (record s { pings = ps })
  pub timed : (now : Option ℕ) (s : Session) → P s → P (record s { now = now })
  pub bounded : (last : Option ℕ) (s : Session) → P s → P (record s { peer_goaway = last })
  pub caused : (cause : Option Failure) (s : Session) → P s → P (record s { drain_failure = cause })
  pub announced : (s : Session) → P s → P (record s { goaway_sent = true })
  pub written : (s : Session) → P s → P (record s { goaway_written = true })
  pub accepted : (k : ℕ) (s : Session) → P s → P (record s { accepted_remote = k })

-- The rule for a `?`: what both parts keep, their sequence keeps.
pub >>=-Keeps {ℓ} :
    {A B : Type 0} (P : Session → Type ℓ) (m : M A) (f : A → M B)
    → Keeps P m
    → ((x : A) → Keeps P (f x))
    → Keeps P (m >>= f)
unfolding ◌>>=◌
>>=-Keeps {A} {B} P m f hm hf s p = go (m s) (hm s p)
  where
    go : (r : Session × Result A SessionError) → P r.0 → P (continue r f).0
    go (t, ok x) q = hf x t q
    go (t, err e) q = q

-- The same at one state.
pub >>=-at {ℓ} :
    {A B : Type 0} (P : Session → Type ℓ) (m : M A) (f : A → M B) (s : Session)
    → P (m s).0
    → ((x : A) → Keeps P (f x))
    → P ((m >>= f) s).0
unfolding ◌>>=◌
>>=-at {A} {B} P m f s p hf = go (m s) p
  where
    go : (r : Session × Result A SessionError) → P r.0 → P (continue r f).0
    go (t, ok x) q = hf x t q
    go (t, err e) q = q

pub require-Keeps {ℓ} : (P : Session → Type ℓ) (b : Bool) (e : SessionError) → Keeps P (require b e)
require-Keeps P true e s p = p
require-Keeps P false e s p = p

-- The same for a test, an error and the state itself, with what is then known.
pub require-at {ℓ} :
    {B : Type 0} (P : Session → Type ℓ) (b : Bool) (e : SessionError) (f : Unit {0} → M B)
    (s : Session)
    → P s
    → (b ≡ true → P (f tt s).0)
    → P ((require b e >>= f) s).0
unfolding ◌>>=◌
require-at P true e f s p h = h refl
require-at P false e f s p h = p

pub lift-at {ℓ} :
    {A B : Type 0} (P : Session → Type ℓ) (r : Result A SessionError) (f : A → M B) (s : Session)
    → P s
    → ((x : A) → P (f x s).0)
    → P ((lift r >>= f) s).0
unfolding ◌>>=◌
lift-at P (ok x) f s p h = h x
lift-at P (err e) f s p h = p

pub get-at {ℓ} :
    {B : Type 0} (P : Session → Type ℓ) (f : Session → M B) (s : Session)
    → P (f s s).0
    → P ((get >>= f) s).0
unfolding ◌>>=◌
get-at P f s p = p

-- A predicate that the queue of output and its budget do not enter.
pub record IsQueueBlind {ℓ} (P : Session → Type ℓ) : Type ℓ where
  pub accounted : (c : Counter) (s : Session) → P s → P (set_outbound_used s c)
  pub enqueued : (fs : List WireFrame) (s : Session) → P s → P (record s { outbound = fs })
  pub scheduled : (last : Option ℕ) (s : Session) → P s → P (record s { last_output = last })
