-- ===== src/Transport/Stream/Ids/History.antt =====
-- The watermarks stand for the set of stream numbers created so far.
use talk_sphere.Base.{
  ℕ, ◌+◌, ◌%◌, ◌^◌, ◌≤◌, ◌<◌, ◌≡◌, ◌≢◌, ◌↔◌, ◌⊎◌, Bool, true, false, ◌||◌, Option, none, some,
  arith, ◌==◌, ok, err,
}
use talk_sphere.Base.Bytes.{IsU32}
use talk_sphere.Transport.Api.{ConnectionRole}
use talk_sphere.Transport.Stream.Ids.{
  StreamIds, new_ids, allocate, accept, is_local, was_created, exhausted,
}

-- A counter for the numbers with remainder `p` modulo 2: `greatest` is 0 or the last one handed out,
-- and `next` the one after it while that fits 32 bits.
abbrev pub IsCounter : ℕ → Option ℕ → ℕ → Type 0
IsCounter p none greatest = (greatest % 2 ≡ p) × (2 ^ 32 ≤ greatest + 2) × (greatest < 2 ^ 32)
IsCounter p (some n) greatest =
    (n % 2 ≡ p)
    × (n < 2 ^ 32)
    × (0 < n)
    × (((greatest ≡ 0) × (n ≤ 2)) ⊎ ((0 < greatest) × (n ≡ greatest + 2)))

abbrev pub local_parity : Bool → ℕ
local_parity true = 1
local_parity false = 0

abbrev pub remote_parity : Bool → ℕ
remote_parity true = 0
remote_parity false = 1

pub record IsHistory (s : StreamIds) : Type 0 where
  pub locals : IsCounter (local_parity s.local_odd) s.next_local s.greatest_local
  pub remotes : IsCounter (remote_parity s.local_odd) s.next_remote s.greatest_remote

pub new_ids-IsHistory : (role : ConnectionRole) → IsHistory (new_ids role)
unfolding new_ids
new_ids-IsHistory role = ground arith

pub allocate-IsHistory : (s : StreamIds) → IsHistory s → IsHistory (allocate s).0
unfolding allocate
allocate-IsHistory s v = ground arith

pub accept-IsHistory : (s : StreamIds) (id : ℕ) → IsHistory s → IsHistory (accept s id).0
unfolding accept
accept-IsHistory s id v = ground arith

-- A successful allocation returns a local uint32 never created before, and creates it and nothing else.
pub allocate_creates :
    (s : StreamIds) (id x : ℕ)
    → IsHistory s
    → (allocate s).1 ≡ ok id
    → IsU32 id
      × (is_local s id ≡ true)
      × (was_created s id ≡ false)
      × (was_created (allocate s).0 x ≡ ((x == id) || was_created s x))
unfolding allocate was_created
allocate_creates s id x v h = ground arith

-- Allocation fails only when every local uint32 has been created, and then changes nothing.
pub allocate_exhausted :
    (s : StreamIds) (x : ℕ)
    → IsHistory s
    → (allocate s).1 ≡ err exhausted
    → IsU32 x
    → is_local s x ≡ true
    → ((allocate s).0 ≡ s) × (was_created s x ≡ true)
unfolding allocate was_created
allocate_exhausted s x v h fits local = ground arith

-- An accepted number is the least remote one not yet created; accepting creates it and nothing else.
pub accept_creates :
    (s : StreamIds) (id x : ℕ)
    → IsHistory s
    → (accept s id).1 ≡ ok tt
    → IsU32 id
      × (id ≢ 0)
      × (is_local s id ≡ false)
      × (was_created s id ≡ false)
      × (x < id → x ≢ 0 → is_local s x ≡ false → was_created s x ≡ true)
      × (was_created (accept s id).0 x ≡ ((x == id) || was_created s x))
unfolding accept was_created
accept_creates s id x v h = ground arith

next_or_zero : Option ℕ → ℕ
next_or_zero none = 0
next_or_zero (some n) = n

accept_least :
    (s : StreamIds) (id : ℕ)
    → IsHistory s
    → IsU32 id
    → id ≢ 0
    → is_local s id ≡ false
    → was_created s id ≡ false
    → ((x : ℕ) → x < id → x ≢ 0 → is_local s x ≡ false → was_created s x ≡ true)
    → (accept s id).1 ≡ ok tt
unfolding accept was_created next_or_zero
accept_least s id v fits pos remote fresh below = ground (arith, below (next_or_zero s.next_remote))

-- On a history, `accept` succeeds exactly on the least remote uint32 that is not yet created.
pub accept_iff :
    (s : StreamIds) (id : ℕ)
    → IsHistory s
    → ((accept s id).1 ≡ ok tt) ↔ (
        IsU32 id
        × (id ≢ 0)
        × (is_local s id ≡ false)
        × (was_created s id ≡ false)
        × ((x : ℕ) → x < id → x ≢ 0 → is_local s x ≡ false → was_created s x ≡ true))
accept_iff s id v = (
  λ h. (
    (accept_creates s id id v h).0,
    (accept_creates s id id v h).1,
    (accept_creates s id id v h).2,
    (accept_creates s id id v h).3,
    λ x. (accept_creates s id x v h).4,
  ),
  λ p. accept_least s id v p.0 p.1 p.2 p.3 p.4,
)

-- The history only grows.
pub accept_keeps :
    (s : StreamIds) (id x : ℕ)
    → IsHistory s
    → was_created s x ≡ true
    → was_created (accept s id).0 x ≡ true
unfolding accept was_created
accept_keeps s id x v h = ground arith

pub allocate_keeps :
    (s : StreamIds) (x : ℕ)
    → IsHistory s
    → was_created s x ≡ true
    → was_created (allocate s).0 x ≡ true
unfolding allocate was_created
allocate_keeps s x v h = ground arith

pub created_positive : (s : StreamIds) (x : ℕ) → was_created s x ≡ true → 0 < x
unfolding was_created
created_positive s x h = ground arith
