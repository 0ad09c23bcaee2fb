-- ===== src/Ledger/Examples.antt =====
-- The theorems of the Ledger's contracts at concrete inputs.
use talk_sphere.Base.{◌≤◌, ◌≡◌, ◌↔◌, refl, true, false, [], ◌∷◌, some, ok, err, inl, arith}
use talk_sphere.Ledger.Authority.{
  Action, Error, Grant, IdentityId, Store, begun, check, check-issue_grant, created, flag_of,
  issue_grant, new_authority, revoke, revoked_is_final,
}
use talk_sphere.Ledger.Contract.{Context}

abbrev store : Store
store = some true ∷ some true ∷ []

abbrev owner : IdentityId
owner = 1 ∷ []

abbrev spending : Grant
spending = record { domain = 1; local_identity = owner; action = Action.spend; bytes = 8 }

issued : issue_grant store 1 owner Action.spend 8 ≡ ok spending
unfolding issue_grant flag_of
issued = refl

check-issue_grant_example :
    (check store 1 spending owner Action.spend 8 ≡ ok tt)
    ↔ ((owner ≡ owner) × (Action.spend ≡ Action.spend) × (8 ≤ 8))
check-issue_grant_example =
    check-issue_grant store 1 owner owner Action.spend Action.spend 8 8 spending issued

revoked_is_final_example :
    (check (new_authority (revoke 1 store)).0 1 spending owner Action.spend 8 ≡ err Error.denied)
    × (issue_grant (new_authority (revoke 1 store)).0 1 owner Action.spend 8 ≡ err Error.denied)
revoked_is_final_example =
    revoked_is_final store (new_authority (revoke 1 store)).0 1 1 spending owner Action.spend 8
      (omega arith) (inl (created begun)) refl

abbrev call : Context
call = record { version = 1; grant = spending; deadline = 9; cancelled = false }
