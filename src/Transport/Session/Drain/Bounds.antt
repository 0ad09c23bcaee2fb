-- ===== src/Transport/Session/Drain/Bounds.antt =====
-- What a peer's GOAWAY leaves of the local streams.
use talk_sphere.Base.{
  ℕ, ◌≤◌, ◌<◌, ◌≡◌, refl, ap, ◌∙◌, Bool, true, false, not, List, some, arith, Result, ok, err,
}
use talk_sphere.Base.NatMap.{contains}
use talk_sphere.Transport.Api.{ShutdownReason, ConnectionId, ConnectionRole, IdentityId, Event}
use talk_sphere.Transport.Resources.{Resources}
use talk_sphere.Transport.Codec.Control.{GoAway, go_away_decode}
use talk_sphere.Transport.Stream.Ids.{is_local}
use talk_sphere.Transport.Session.State.{Session, SessionError, ◌>>=◌, continue, require}
use talk_sphere.Transport.Session.Reachable.{Reachable}
use talk_sphere.Transport.Session.Ledger.Life.{fresh, reachable-IsSettled}
use talk_sphere.Transport.Session.Drain.{
  bad_bound, exceeds, apply_goaway, go_away_of, drain, receive_goaway,
}
use talk_sphere.Transport.Session.Drain.Table.{drain-IsLike, apply_goaway_sound}

-- What the checks of an accepted GOAWAY have established, and the state that it leaves.
receive_goaway-eq_ok :
    (payload : List ℕ) (s : Session)
    → (receive_goaway payload s).1 ≡ ok tt
    → (g : GoAway) × (go_away_of payload ≡ ok g)
      × (bad_bound s g.last_accepted_remote_stream_id ≡ false)
      × ((receive_goaway payload s).0 ≡ (drain ShutdownReason.normal (apply_goaway g s)).0)
unfolding receive_goaway ◌>>=◌ continue
receive_goaway-eq_ok payload s h = decoded (go_away_of payload) refl h
  where
    checked : Session → GoAway → Bool → Session × Result (Unit {0}) SessionError
    checked u g b =
        continue (require (not b) SessionError.protocol_error u)
          (λ _ t. drain ShutdownReason.normal (apply_goaway g t))

    bounded :
        (g : GoAway) (b : Bool)
        → go_away_of payload ≡ ok g
        → bad_bound s g.last_accepted_remote_stream_id ≡ b
        → (checked s g b).1 ≡ ok tt
        → (x : GoAway) × (go_away_of payload ≡ ok x)
          × (bad_bound s x.last_accepted_remote_stream_id ≡ false)
          × ((checked s g b).0 ≡ (drain ShutdownReason.normal (apply_goaway x s)).0)
    bounded g true p q k = ground (arith, k)
    bounded g false p q k = (g, p, q, refl)

    decoded :
        (r : Result GoAway SessionError)
        → go_away_of payload ≡ r
        → (continue (s, r) (λ g t. checked t g (bad_bound t g.last_accepted_remote_stream_id))).1
          ≡ ok tt
        → (x : GoAway) × (go_away_of payload ≡ ok x)
          × (bad_bound s x.last_accepted_remote_stream_id ≡ false)
          × ((continue (s, r) (λ g t. checked t g (bad_bound t g.last_accepted_remote_stream_id))).0
              ≡ (drain ShutdownReason.normal (apply_goaway x s)).0)
    decoded (ok g) p k = bounded g (bad_bound s g.last_accepted_remote_stream_id) p refl k
    decoded (err e) p k = ground (arith, k)

go_away_of-eq_ok :
    (payload : List ℕ) (g : GoAway) → go_away_of payload ≡ ok g → go_away_decode payload ≡ ok g
go_away_of-eq_ok payload g h = ground (arith, h)

-- In any state that a fresh session reaches, a GOAWAY that the session accepts decodes to a bound that does not
-- exceed the bound announced before or the greatest local number; the bound is recorded, and no
-- local stream above it stays in the table.
pub accepted_goaway :
    (handle : ConnectionId) (role : ConnectionRole) (ours theirs : IdentityId)
    (resources : Resources) (payload : List ℕ) (k : ℕ) (ds : List Event) (s : Session)
    → Reachable (fresh handle role ours theirs resources) ds s
    → (receive_goaway payload s).1 ≡ ok tt
    → (g : GoAway) × (go_away_decode payload ≡ ok g)
      × (exceeds s.peer_goaway g.last_accepted_remote_stream_id ≡ false)
      × (g.last_accepted_remote_stream_id ≤ s.ids.greatest_local)
      × ((receive_goaway payload s).0.peer_goaway ≡ some g.last_accepted_remote_stream_id)
      × (is_local s.ids k ≡ true
          → g.last_accepted_remote_stream_id < k
          → contains k (receive_goaway payload s).0.streams ≡ false)
accepted_goaway handle role ours theirs resources payload k ds s r h =
    let (g, decoded, sound, after) = receive_goaway-eq_ok payload s h in
    let (recorded, gone) =
      apply_goaway_sound g k s (reachable-IsSettled handle role ours theirs resources k r).sorted in
    let (table, bound) = drain-IsLike ShutdownReason.normal (apply_goaway g s) in
    (
      g,
      go_away_of-eq_ok payload g decoded,
      ground (arith, sound),
      ground (arith, sound),
      ap (λ (t : Session). t.peer_goaway) after ∙ (bound ∙ recorded),
      λ local beyond.
          ap (λ (t : Session). contains k t.streams) after
          ∙ (ap (contains k) table ∙ gone local beyond),
    )
