-- ===== src/Transport/Session/Drain/Table.antt =====
-- The table and the announced bound through a drain.
use talk_sphere.Base.{
  ℕ, ◌+◌, ◌≤◌, ◌<◌, ◌≡◌, refl, sym, subst, ◌∙◌, Bool, true, false, not, List, [], ◌∷◌, none, some,
  Option-cases, Bool-cases, inl, inr, arith, ok, err, ◌==◌, if◌then◌else◌, length,
}
use talk_sphere.Base.NatMap.{lookup, contains, remove, keys, Above}
use talk_sphere.Base.NatMap.Laws.{remove-Above}
use talk_sphere.Transport.Api.{StreamOutcome, ShutdownReason, FailureOrigin, FailureCode}
use talk_sphere.Transport.Resources.{reserve}
use talk_sphere.Transport.Codec.Control.{GoAway, ErrorCode, is_code}
use talk_sphere.Transport.Framing.{WireFrame}
use talk_sphere.Transport.Stream.Ids.{StreamIds, is_local}
use talk_sphere.Transport.Session.State.{Session, SessionError}
use talk_sphere.Transport.Session.Output.{queue, reserve_outbound, retain_outbound}
use talk_sphere.Transport.Session.Lifecycle.{
  terminate, close_stream, keeps_frame, failure, failure_code,
}
use talk_sphere.Transport.Session.Invariant.{Keeps, >>=-Keeps}
use talk_sphere.Transport.Session.Scheduler.{has_seen}
use talk_sphere.Transport.Session.Drain.{refused_keys, terminate_all, apply_goaway, announce, drain}

module _ {V : Type 0} where
  contains-Above : (k b : ℕ) (m : List (ℕ × V)) → Above b m → k ≤ b → contains k m ≡ false
  unfolding contains
  contains-Above k b [] a h = refl
  contains-Above k b ((j, v) ∷ m) a h = ground (arith, a.0, h, contains-Above k j m a.1)

  contains-remove : (k b : ℕ) (m : List (ℕ × V)) → Above b m → contains k (remove k m) ≡ false
  unfolding contains remove
  contains-remove k b [] a = refl
  contains-remove k b ((j, v) ∷ m) a =
      ground (arith, contains-Above k j m a.1, contains-remove k j m a.1)

  pub absent-remove :
      (k j : ℕ) (m : List (ℕ × V)) → contains k m ≡ false → contains k (remove j m) ≡ false
  unfolding contains remove
  absent-remove k j [] h = refl
  absent-remove k j ((i, v) ∷ m) h = ground (arith, h, absent-remove k j m)

  missing-remove : (k : ℕ) (m : List (ℕ × V)) → lookup k m ≡ none → remove k m ≡ m
  unfolding lookup remove
  missing-remove k [] h = refl
  missing-remove k ((j, v) ∷ m) h = ground (arith, h, missing-remove k m)

  refused-has_seen :
      (ids : StreamIds) (last k : ℕ) (m : List (ℕ × V))
      → contains k m ≡ true
      → is_local ids k ≡ true
      → last < k
      → has_seen k (refused_keys ids last (keys m)) ≡ true
  unfolding contains refused_keys keys
  refused-has_seen ids last k [] h l b = ground (arith, h)
  refused-has_seen ids last k ((j, v) ∷ m) h l b =
      ground (arith, h, l, b, refused-has_seen ids last k m)

close_stream-streams :
    (k : ℕ) (outcome : StreamOutcome) (s : Session)
    → ((close_stream k outcome s).streams ≡ remove k s.streams)
      × ((close_stream k outcome s).peer_goaway ≡ s.peer_goaway)
unfolding close_stream
close_stream-streams k outcome s = elim (Option-cases (lookup k s.streams)) [
  | inl e ↦ (rw (e, close_stream) (sym (missing-remove k s.streams e)), rw (e, close_stream) refl)
  | inr (state, e) ↦ (rw (e, close_stream) refl, rw (e, close_stream) refl)
]

-- A termination takes the stream from the table and leaves the announced bound.
terminate-streams :
    (k : ℕ) (outcome : StreamOutcome) (s : Session)
    → ((terminate k outcome s).streams ≡ remove k s.streams)
      × ((terminate k outcome s).peer_goaway ≡ s.peer_goaway)
unfolding terminate retain_outbound
terminate-streams k outcome s = close_stream-streams k outcome (retain_outbound (keeps_frame k) s)

terminate_all-absent :
    (ks : List ℕ) (outcome : StreamOutcome) (k : ℕ) (s : Session)
    → contains k s.streams ≡ false
    → contains k (terminate_all ks outcome s).streams ≡ false
unfolding terminate_all
terminate_all-absent [] outcome k s h = h
terminate_all-absent (j ∷ ks) outcome k s h =
    terminate_all-absent ks outcome k (terminate j outcome s)
      (rw ((terminate-streams j outcome s).0) (absent-remove k j s.streams h))

terminate_all-contains :
    (ks : List ℕ) (outcome : StreamOutcome) (k b : ℕ) (s : Session)
    → Above b s.streams
    → has_seen k ks ≡ true
    → contains k (terminate_all ks outcome s).streams ≡ false
unfolding terminate_all
terminate_all-contains [] outcome k b s a h = ground (arith, h)
terminate_all-contains (j ∷ ks) outcome k b s a h = elim (Bool-cases (j == k)) [
  | inl e ↦ terminate_all-absent ks outcome k (terminate j outcome s) (
      rw ((terminate-streams j outcome s).0) (
        subst (λ i. contains k (remove i s.streams) ≡ false) (same e)
          (contains-remove k b s.streams a)))
  | inr e ↦
      terminate_all-contains ks outcome k b (terminate j outcome s)
        (subst (Above b) (sym (terminate-streams j outcome s).0) (remove-Above j b s.streams a))
        (ground (arith, e, h))
]
  where
    same : (j == k) ≡ true → k ≡ j
    same e = ground (arith, e)

terminate_all-peer_goaway :
    (ks : List ℕ) (outcome : StreamOutcome) (s : Session)
    → (terminate_all ks outcome s).peer_goaway ≡ s.peer_goaway
unfolding terminate_all
terminate_all-peer_goaway [] outcome s = refl
terminate_all-peer_goaway (j ∷ ks) outcome s =
    terminate_all-peer_goaway ks outcome (terminate j outcome s) ∙ (terminate-streams j outcome s).1

-- The table and the bound of a state, whatever else changes.
abbrev pub IsLike : Session → Session → Type 0
IsLike s t = (t.streams ≡ s.streams) × (t.peer_goaway ≡ s.peer_goaway)

reserve_outbound-IsLike : (s : Session) (amount : ℕ) → Keeps (IsLike s) (reserve_outbound amount)
unfolding reserve_outbound
reserve_outbound-IsLike s amount t g = elim (Option-cases (reserve t.resources.outbound amount)) [
  | inl e ↦ rw (e, reserve_outbound) g
  | inr (c, e) ↦ rw (e, reserve_outbound) g
]

queue-IsLike : (s : Session) (f : WireFrame) → Keeps (IsLike s) (queue f)
unfolding queue
queue-IsLike s f =
    >>=-Keeps (IsLike s) (reserve_outbound (length f.payload + 28)) _
      (reserve_outbound-IsLike s (length f.payload + 28)) (λ _ t g. g)

announce-IsLike : (s : Session) (reason : ShutdownReason) → Keeps (IsLike s) (announce reason)
unfolding announce
announce-IsLike s reason =
    >>=-Keeps (IsLike s) _ _ (λ t g. g)
      λ t0.
        >>=-Keeps (IsLike s) _ _ (λ t g. g)
          λ payload.
            >>=-Keeps (IsLike s) _ _ (λ t g. g)
              λ output. >>=-Keeps (IsLike s) _ _ (queue-IsLike s output) λ _ t g. g

pub drain-IsLike : (reason : ShutdownReason) (s : Session) → IsLike s (drain reason s).0
unfolding drain
drain-IsLike reason s = go s.is_closed s.goaway_sent
  where
    go :
        (c d : Bool)
        → IsLike s
            (if c
              then (s, err SessionError.closed)
              else if d
              then (s, ok tt)
              else announce reason s).0
    go true d = (refl, refl)
    go false true = (refl, refl)
    go false false = announce-IsLike s reason s (refl, refl)

pub apply_goaway_sound :
    (g : GoAway) (k : ℕ) (s : Session)
    → Above 0 s.streams
    → ((apply_goaway g s).peer_goaway ≡ some g.last_accepted_remote_stream_id)
      × (is_local s.ids k ≡ true
          → g.last_accepted_remote_stream_id < k
          → contains k (apply_goaway g s).streams ≡ false)
unfolding apply_goaway
apply_goaway_sound g k s a = go (not (is_code g.diagnostic.code ErrorCode.no_error))
  where
    bounded : Session
    bounded = record s { peer_goaway = some g.last_accepted_remote_stream_id }

    caused : Bool → Session
    caused c =
        if c
        then record bounded {
          drain_failure = some (failure FailureOrigin.peer (failure_code g.diagnostic.code));
        }
        else bounded

    ended : Session → Session
    ended t =
        terminate_all (refused_keys s.ids g.last_accepted_remote_stream_id (keys s.streams))
          (StreamOutcome.failed (failure FailureOrigin.peer FailureCode.refused)) t

    sound :
        (t : Session)
        → IsLike bounded t
        → ((ended t).peer_goaway ≡ some g.last_accepted_remote_stream_id)
          × (is_local s.ids k ≡ true
              → g.last_accepted_remote_stream_id < k
              → contains k (ended t).streams ≡ false)
    sound t like = (
      terminate_all-peer_goaway _ _ t ∙ like.1,
      λ local beyond. elim (Bool-cases (contains k s.streams)) [
        | inl e ↦
            terminate_all-contains _ _ k 0 t (subst (Above 0) (sym like.0) a)
              (refused-has_seen s.ids g.last_accepted_remote_stream_id k s.streams e local beyond)
        | inr e ↦ terminate_all-absent _ _ k t (subst (λ m. contains k m ≡ false) (sym like.0) e)
      ],
    )

    go :
        (c : Bool)
        → ((ended (caused c)).peer_goaway ≡ some g.last_accepted_remote_stream_id)
          × (is_local s.ids k ≡ true
              → g.last_accepted_remote_stream_id < k
              → contains k (ended (caused c)).streams ≡ false)
    go true = sound (caused true) (refl, refl)
    go false = sound (caused false) (refl, refl)
