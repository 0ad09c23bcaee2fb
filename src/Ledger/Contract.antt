-- ===== src/Ledger/Contract.antt =====
-- What every Ledger call brings with it, and the limits: ledger/contract.rs. The clock's answer is an
-- argument.
use talk_sphere.Base.{
  ℕ, ◌+◌, ◌<◌, ◌^◌, ◌≡◌, ◌≢◌, ◌↔◌, Bool, false, not, ◌||◌, List, [], ◌∷◌, Result, ok, err, ltb, leb,
  ◌==◌, if◌then◌else◌, arith,
}
use talk_sphere.Ledger.Authority.{Action, Error, Grant, IdentityId, Store, check}

abbrev pub contract_version : ℕ
contract_version = 1

pub record Context : Type 0 where
  pub version : ℕ
  pub grant : Grant
  pub deadline : ℕ
  pub cancelled : Bool

-- `Context::check`
unfoldable pub check_context :
    Store → Context → ℕ → ℕ → IdentityId → Action → ℕ → Result (Unit {0}) Error
check_context s c now authority local_identity action bytes =
    if not (c.version == contract_version)
    then err Error.unsupported
    else if c.cancelled || leb c.deadline now
    then err Error.cancelled
    else check s authority c.grant local_identity action bytes

pub record Limits : Type 0 where
  pub accounts : ℕ
  pub operations : ℕ
  pub transfers : ℕ
  pub claims : ℕ
  pub quotes : ℕ
  pub state_bytes : ℕ

-- `[…].contains(&0)`
unfoldable pub has_zero : List ℕ → Bool
has_zero [] = false
has_zero (n ∷ ns) = n == 0 || has_zero ns

-- `Limits::validate`
unfoldable pub validate : Limits → Result (Unit {0}) Error
validate l =
    if has_zero (l.accounts ∷ l.operations ∷ l.transfers ∷ l.claims ∷ l.quotes ∷ l.state_bytes ∷ [])
      || not (ltb (l.state_bytes + 64) (2 ^ 64))
    then err Error.invalid
    else ok tt

-- Limits are valid exactly where each is positive and the state with its frame of 64 octets fits in a
-- machine word.
pub validate_iff :
    (l : Limits)
    → (validate l ≡ ok tt) ↔ (
        (l.accounts ≢ 0)
        × (l.operations ≢ 0)
        × (l.transfers ≢ 0)
        × (l.claims ≢ 0)
        × (l.quotes ≢ 0)
        × (l.state_bytes ≢ 0)
        × (l.state_bytes + 64 < 2 ^ 64))
unfolding validate has_zero
validate_iff l = ground arith
