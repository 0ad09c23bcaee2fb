-- ===== src/Transport/Resources.antt =====
-- Shared admission budgets: src/modules/transport/resources.rs, and the limits of config.rs.
-- A `usize` is a number below 2 ^ 64. A reservation is the amount that its lease returns when the
-- last clone is dropped; the counter is the state that every operation passes on.
use talk_sphere.Base.{
  ℕ, ◌+◌, ◌-◌, ◌%◌, ◌^◌, ◌≤◌, ◌<◌, ◌≡◌, ◌↔◌, Option, none, some, leb, ltb, ◌&&◌, if◌then◌else◌,
  arith,
}

pub record ResourceLimits : Type 0 where
  pub connections : ℕ
  pub streams_per_connection : ℕ
  pub outbound_bytes : ℕ
  pub buffered_bytes_per_stream : ℕ

pub record Counter : Type 0 where
  pub used : ℕ
  pub limit : ℕ

pub record Resources : Type 0 where
  pub limits : ResourceLimits
  pub connections : Counter
  pub outbound : Counter

unfoldable pub new_resources : ResourceLimits → Resources
new_resources limits = record {
  limits = limits;
  connections = record { used = 0; limit = limits.connections };
  outbound = record { used = 0; limit = limits.outbound_bytes };
}

-- `used.checked_add(amount).filter(|next| *next <= counter.limit)`
unfoldable pub reserve : Counter → ℕ → Option Counter
reserve c amount =
    if ltb (c.used + amount) (2 ^ 64) && leb (c.used + amount) c.limit
    then some (record c { used = c.used + amount })
    else none

-- `fetch_sub`, which wraps.
unfoldable pub release : Counter → ℕ → Counter
release c amount = record c { used = (c.used + 2 ^ 64 - amount) % 2 ^ 64 }

-- Usage within the limit, and in a `usize`.
pub record IsWithin (c : Counter) : Type 0 where
  pub bounded : c.used ≤ c.limit
  pub fits : c.used < 2 ^ 64

pub reserve-IsWithin :
    (c d : Counter) (amount : ℕ)
    → reserve c amount ≡ some d
    → IsWithin d × (d.used ≡ c.used + amount) × (d.limit ≡ c.limit)
unfolding reserve
reserve-IsWithin c d amount h = ground arith

-- Admission fails only where the budget would be exceeded.
pub reserve-none :
    (c : Counter) (amount : ℕ)
    → c.limit < 2 ^ 64
    → reserve c amount ≡ none
    → c.limit < c.used + amount
unfolding reserve
reserve-none c amount fits h = ground arith

pub release_used :
    (c : Counter) (amount : ℕ)
    → c.used < 2 ^ 64
    → amount ≤ c.used
    → (release c amount).used ≡ c.used - amount
unfolding release
release_used c amount h le = omega arith

-- For usage within a limit that a `usize` holds, a budget refuses an amount exactly when the sum would
-- exceed the limit, an admission is again within it, and releasing the amount restores the counter.
pub release-reserve :
    (c : Counter) (amount : ℕ)
    → IsWithin c
    → c.limit < 2 ^ 64
    → ((reserve c amount ≡ none) ↔ (c.limit < c.used + amount))
      × ((d : Counter) → reserve c amount ≡ some d → IsWithin d × (release d amount ≡ c))
unfolding reserve release
release-reserve c amount v fits = (
  (λ h. reserve-none c amount fits h, λ h. ground (arith, h)),
  λ d h. ((reserve-IsWithin c d amount h).0, ground (arith, h, v.fits)),
)
