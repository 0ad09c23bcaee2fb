-- ===== src/Transport/Session/Scheduler/Order.antt =====
-- The order in which queued frames leave a session.
use talk_sphere.Base.{
  ℕ, suc, ◌+◌, ◌≡◌, ◌≢◌, refl, Bool, true, false, ◌&&◌, ◌||◌, List, [], ◌∷◌, Option, none, some,
  some-injective, subst, sym, ap, ◌∙◌, Bool-cases, inl, inr, All, take, arith, ◌==◌, ltb,
  if◌then◌else◌,
}
use talk_sphere.Transport.Codec.Frames.{FrameType, is_type}
use talk_sphere.Transport.Framing.{WireFrame}
use talk_sphere.Transport.Session.State.{Session}
use talk_sphere.Transport.Session.Scheduler.{
  first_open, has_seen, is_other, is_after, eligible, least, is_later, later, or_else, choose,
  element_at, remove_at, next_output,
}

-- Whether a frame of the stream is in the list.
abbrev pub has_stream : ℕ → List WireFrame → Bool
has_stream id [] = false
has_stream id (f ∷ fs) = f.header.stream_id == id || has_stream id fs

-- The position `d` holds a frame of `id`, the first one of its stream.
abbrev pub IsFirst : ℕ → ℕ → List WireFrame → Type 0
IsFirst id d fs =
    (f : WireFrame) × (element_at d fs ≡ some f)
    × (f.header.stream_id ≡ id)
    × (has_stream id (take d fs) ≡ false)

abbrev IsReady : List ℕ → ℕ → List WireFrame → ℕ × ℕ → Type 0
IsReady seen index fs (id, i) =
    (d : ℕ) × (i ≡ index + d) × (has_seen id seen ≡ false) × IsFirst id d fs

IsReady-later :
    (seen : List ℕ) (index : ℕ) (f : WireFrame) (fs : List WireFrame) (xs : List (ℕ × ℕ))
    → All (IsReady (f.header.stream_id ∷ seen) (suc index) fs) xs
    → All (IsReady seen index (f ∷ fs)) xs
unfolding element_at
IsReady-later seen index f fs [] h = tt
IsReady-later seen index f fs ((id, i) ∷ xs) ((d, at, unseen, (g, here, same, before)), rest) = (
  (
    suc d,
    omega (arith, at),
    ground (arith, unseen),
    (g, here, same, ground (arith, unseen, before)),
  ),
  IsReady-later seen index f fs xs rest,
)

eligible-IsReady :
    (opening : Option ℕ) (seen : List ℕ) (index : ℕ) (fs : List WireFrame)
    → All (IsReady seen index fs) (eligible opening seen index fs)
unfolding eligible element_at
eligible-IsReady opening seen index [] = tt
eligible-IsReady opening seen index (f ∷ fs) =
    go
      (IsReady-later seen index f fs _
        (eligible-IsReady opening (f.header.stream_id ∷ seen) (suc index) fs))
      (has_seen f.header.stream_id seen) refl
      (is_type f.header.frame_type FrameType.open_frame && is_other opening index)
      (is_type f.header.frame_type FrameType.go_away && is_after opening index)
  where
    rest : List (ℕ × ℕ)
    rest = eligible opening (f.header.stream_id ∷ seen) (suc index) fs

    go :
        All (IsReady seen index (f ∷ fs)) rest
        → (a : Bool) → has_seen f.header.stream_id seen ≡ a
        → (b c : Bool)
        → All (IsReady seen index (f ∷ fs)) (
            if a
            then rest
            else if b
            then rest
            else if c
            then rest
            else (f.header.stream_id, index) ∷ rest)
    go tail true e b c = tail
    go tail false e true c = tail
    go tail false e false true = tail
    go tail false e false false = ((0, omega arith, e, (f, refl, refl, refl)), tail)

module _ {ℓ} (P : ℕ × ℕ → Type ℓ) where
  least-All : (xs : List (ℕ × ℕ)) (x : ℕ × ℕ) → All P xs → least xs ≡ some x → P x
  unfolding least
  least-All [] x h e = ground (arith, e)
  least-All ((id, i) ∷ xs) x h e = go (λ y. least-All xs y h.1) (least xs) refl e
    where
      pick : ℕ × ℕ → Option (ℕ × ℕ)
      pick (other, at) = some (if ltb other id then (other, at) else (id, i))

      go :
          ((y : ℕ × ℕ) → least xs ≡ some y → P y)
          → (r : Option (ℕ × ℕ)) → least xs ≡ r
          → elim r [
            | none ↦ some (id, i)
            | some (other, at) ↦ some (if ltb other id then (other, at) else (id, i))
          ]
            ≡ some x
          → P x
      go rec none k j = subst P (some-injective j) h.0
      go rec (some (other, at)) k j = elim (Bool-cases (ltb other id)) [
        | inl b ↦ subst P (some-injective (ground (arith, b, j))) (rec (other, at) k)
        | inr b ↦ subst P (some-injective (ground (arith, b, j))) h.0
      ]

  later-All : (last : Option ℕ) (xs : List (ℕ × ℕ)) → All P xs → All P (later last xs)
  unfolding later
  later-All last [] h = tt
  later-All last ((id, i) ∷ xs) h = go (later-All last xs h.1) (is_later last id)
    where
      go :
          All P (later last xs)
          → (b : Bool) → All P (if b then (id, i) ∷ later last xs else later last xs)
      go rest true = (h.0, rest)
      go rest false = rest

  or_else-P :
      (a b : Option (ℕ × ℕ)) (x : ℕ × ℕ)
      → ((y : ℕ × ℕ) → a ≡ some y → P y)
      → ((y : ℕ × ℕ) → b ≡ some y → P y)
      → or_else a b ≡ some x
      → P x
  or_else-P none b x f g e = g x e
  or_else-P (some a) b x f g e = f x e

choose-IsFirst :
    (last : Option ℕ) (fs : List WireFrame) (id index : ℕ)
    → choose last fs ≡ some (id, index)
    → IsFirst id index fs
unfolding choose
choose-IsFirst last fs id index e =
    let ready = eligible (first_open 0 fs) [] 0 fs in
    let all = eligible-IsReady (first_open 0 fs) [] 0 fs in
    let (d, at, unseen, first) =
      or_else-P (IsReady [] 0 fs) (least (later last ready)) (least ready) (id, index)
        (λ y k.
          least-All (IsReady [] 0 fs) (later last ready) y
            (later-All (IsReady [] 0 fs) last ready all) k)
        (λ y k. least-All (IsReady [] 0 fs) ready y all k) e in
    let same : d ≡ index = omega (arith, at) in subst (λ n. IsFirst id n fs) same first

-- What `next_output` does with the scheduler's choice.
abbrev popped : Session → Option (ℕ × ℕ) → Session × Option WireFrame
popped s r = elim r [
  | none ↦ (s, none)
  | some (id, index) ↦ (
    record s { last_output = some id; outbound = remove_at index s.outbound },
    element_at index s.outbound,
  )
]

-- A frame that the scheduler releases is the first of its stream in the queue, the queue loses that
-- frame and no other, and its stream is recorded as the last output.
pub next_output_first :
    (s : Session) (f : WireFrame)
    → (next_output s).1 ≡ some f
    → (index : ℕ) × (element_at index s.outbound ≡ some f)
      × (has_stream f.header.stream_id (take index s.outbound) ≡ false)
      × ((next_output s).0.outbound ≡ remove_at index s.outbound)
      × ((next_output s).0.last_output ≡ some f.header.stream_id)
unfolding next_output
next_output_first s f h = go (choose s.last_output s.outbound) refl h
  where
    go :
        (r : Option (ℕ × ℕ))
        → choose s.last_output s.outbound ≡ r
        → (popped s r).1 ≡ some f
        → (index : ℕ) × (element_at index s.outbound ≡ some f)
          × (has_stream f.header.stream_id (take index s.outbound) ≡ false)
          × ((popped s r).0.outbound ≡ remove_at index s.outbound)
          × ((popped s r).0.last_output ≡ some f.header.stream_id)
    go none e k = ground (arith, k)
    go (some (id, index)) e k =
        let (g, here, same, before) = choose-IsFirst s.last_output s.outbound id index e in
        let is_same : f.header.stream_id ≡ id =
          ap (λ (w : WireFrame). w.header.stream_id) (some-injective (sym k ∙ here)) ∙ same in
        (
          index,
          k,
          subst (λ n. has_stream n (take index s.outbound) ≡ false) (sym is_same) before,
          refl,
          ap some (sym is_same),
        )

least_some : (x : ℕ × ℕ) (xs : List (ℕ × ℕ)) → least (x ∷ xs) ≢ none
unfolding least
least_some (id, i) xs e = ground (arith, e)

or_else_some : (a b : Option (ℕ × ℕ)) → b ≢ none → or_else a b ≢ none
or_else_some none b h e = h e
or_else_some (some a) b h e = ground (arith, e)

eligible_head :
    (f : WireFrame) (fs : List WireFrame)
    → (rest : List (ℕ × ℕ)) × (eligible (first_open 0 (f ∷ fs)) [] 0 (f ∷ fs)
        ≡ (f.header.stream_id, 0) ∷ rest)
unfolding eligible first_open
eligible_head f fs = (eligible (first_open 0 (f ∷ fs)) (f.header.stream_id ∷ []) 1 fs, ground arith)

choose_some : (last : Option ℕ) (f : WireFrame) (fs : List WireFrame) → choose last (f ∷ fs) ≢ none
unfolding choose
choose_some last f fs =
    let (rest, e) = eligible_head f fs in
    or_else_some (least (later last (eligible (first_open 0 (f ∷ fs)) [] 0 (f ∷ fs))))
      (least (eligible (first_open 0 (f ∷ fs)) [] 0 (f ∷ fs)))
      (rw e (least_some (f.header.stream_id, 0) rest))

-- A queue from which the scheduler releases nothing is empty.
pub next_output_progress : (s : Session) → (next_output s).1 ≡ none → s.outbound ≡ []
unfolding next_output
next_output_progress s h = go s.outbound refl (choose s.last_output s.outbound) refl h
  where
    go :
        (fs : List WireFrame)
        → s.outbound ≡ fs
        → (r : Option (ℕ × ℕ)) → choose s.last_output s.outbound ≡ r
        → (popped s r).1 ≡ none
        → s.outbound ≡ []
    go [] e r c k = e
    go (f ∷ fs) e none c k =
        elim (choose_some s.last_output f fs (subst (λ xs. choose s.last_output xs ≡ none) e c)) [ ]
    go (f ∷ fs) e (some (id, index)) c k =
        let (g, here, same, before) = choose-IsFirst s.last_output s.outbound id index c in
        ground (arith, here, k)
