-- ===== src/Ledger/Authority.antt =====
-- Local authority over the Ledger: ledger/authority.rs and the errors of ledger/mod.rs. An authority is
-- the number of the flag that it has allocated; the store has each flag while its authority lives, and
-- `none` once it is dropped, so that a weak reference to it no longer leads anywhere.
use talk_sphere.Base.{
  ℕ, zero, suc, ◌≤◌, ◌<◌, ◌≡◌, ◌↔◌, ◌⊎◌, refl, sym, subst, Bool, true, false, not, ◌||◌, List, [],
  ◌∷◌, ◌++◌, Option, none, some, Result, ok, err, ltb, ◌==◌, if◌then◌else◌, length, bytes_eq,
  bytes_eq_iff, arith, inl, inr,
}

pub data Error : Type 0 where
  invalid unsupported denied limit cancelled conflict insufficient storage unknown : Error

pub data Action : Type 0 where
  administer read coordinate control spend : Action

abbrev pub IdentityId : Type 0
IdentityId = List ℕ

pub record Grant : Type 0 where
  pub domain : ℕ
  pub local_identity : IdentityId
  pub action : Action
  pub bytes : ℕ

abbrev pub Store : Type 0
Store = List (Option Bool)

unfoldable pub flag_of : ℕ → Store → Option Bool
flag_of d [] = none
flag_of zero (flag ∷ s) = flag
flag_of (suc d) (flag ∷ s) = flag_of d s

unfoldable pub set_flag : ℕ → Option Bool → Store → Store
set_flag d flag [] = []
set_flag zero flag (old ∷ s) = flag ∷ s
set_flag (suc d) flag (old ∷ s) = old ∷ set_flag d flag s

-- `==` on actions
abbrev pub same_action : Action → Action → Bool
same_action Action.administer Action.administer = true
same_action Action.read Action.read = true
same_action Action.coordinate Action.coordinate = true
same_action Action.control Action.control = true
same_action Action.spend Action.spend = true
same_action a b = false

abbrev pub is_true : Option Bool → Bool
is_true none = false
is_true (some b) = b

-- `Authority::new`
unfoldable pub new_authority : Store → Store × ℕ
new_authority s = (s ++ some true ∷ [], length s)

-- `Authority::grant`
unfoldable pub issue_grant : Store → ℕ → IdentityId → Action → ℕ → Result Grant Error
issue_grant s authority local_identity action bytes =
    if not (is_true (flag_of authority s))
    then err Error.denied
    else if bytes == 0
    then err Error.limit
    else ok (record {
      domain = authority;
      local_identity = local_identity;
      action = action;
      bytes = bytes;
    })

-- `Authority::check`
unfoldable pub check : Store → ℕ → Grant → IdentityId → Action → ℕ → Result (Unit {0}) Error
check s authority g local_identity action bytes = elim (flag_of g.domain s) [
  | none ↦ err Error.denied
  | some live ↦
      if not (authority == g.domain)
        || (not live
            || (not (bytes_eq g.local_identity local_identity)
                || not (same_action g.action action)))
      then err Error.denied
      else if ltb g.bytes bytes
      then err Error.limit
      else ok tt
]

-- `Authority::revoke`
unfoldable pub revoke : ℕ → Store → Store
revoke authority s = set_flag authority (some false) s

-- An authority is dropped.
unfoldable pub drop_authority : ℕ → Store → Store
drop_authority authority s = set_flag authority none s

same_action_iff : (a b : Action) → (same_action a b ≡ true) ↔ (a ≡ b)
same_action_iff a b = ground arith

-- A grant that an authority has issued is accepted by it, while nothing changes, exactly for the identity
-- and the action for which it was issued and for amounts within its budget.
pub check-issue_grant :
    (s : Store) (authority : ℕ) (id other : IdentityId) (action requested : Action)
    (bytes amount : ℕ) (g : Grant)
    → issue_grant s authority id action bytes ≡ ok g
    → (check s authority g other requested amount ≡ ok tt)
      ↔ ((id ≡ other) × (action ≡ requested) × (amount ≤ bytes))
unfolding issue_grant check
check-issue_grant s authority id other action requested bytes amount g e =
    ground (arith, bytes_eq_iff id other, same_action_iff action requested, e)

-- What becomes of the authorities: new ones, revocations and drops.
pub data StoreLife (s : Store) : Store → Type 0 where
  begun : StoreLife s s
  created : {t : Store} → StoreLife s t → StoreLife s (new_authority t).0
  revoked : {t : Store} (authority : ℕ) → StoreLife s t → StoreLife s (revoke authority t)
  dropped : {t : Store} (authority : ℕ) → StoreLife s t → StoreLife s (drop_authority authority t)

length-set_flag : (d : ℕ) (flag : Option Bool) (s : Store) → length (set_flag d flag s) ≡ length s
unfolding set_flag
length-set_flag d flag [] = refl
length-set_flag zero flag (old ∷ s) = refl
length-set_flag (suc d) flag (old ∷ s) = omega (arith, length-set_flag d flag s)

length_grows : (s : Store) (flag : Option Bool) → length (s ++ flag ∷ []) ≡ suc (length s)
length_grows [] flag = omega arith
length_grows (x ∷ s) flag = omega (arith, length_grows s flag)

-- The authority has been allocated, and its flag is not set.
record IsGone (d : ℕ) (s : Store) : Type 0 where
  known : d < length s
  off : is_true (flag_of d s) ≡ false

set_flag_off :
    (d e : ℕ) (flag : Option Bool) (s : Store)
    → is_true flag ≡ false
    → is_true (flag_of d s) ≡ false
    → is_true (flag_of d (set_flag e flag s)) ≡ false
unfolding flag_of set_flag
set_flag_off d e flag [] h k = k
set_flag_off zero zero flag (old ∷ s) h k = h
set_flag_off zero (suc e) flag (old ∷ s) h k = k
set_flag_off (suc d) zero flag (old ∷ s) h k = k
set_flag_off (suc d) (suc e) flag (old ∷ s) h k = set_flag_off d e flag s h k

set_flag_self :
    (d : ℕ) (flag : Option Bool) (s : Store)
    → is_true flag ≡ false
    → is_true (flag_of d (set_flag d flag s)) ≡ false
unfolding flag_of set_flag
set_flag_self d flag [] h = refl
set_flag_self zero flag (old ∷ s) h = h
set_flag_self (suc d) flag (old ∷ s) h = set_flag_self d flag s h

append_off :
    (d : ℕ) (flag : Option Bool) (s : Store)
    → d < length s
    → is_true (flag_of d s) ≡ false
    → is_true (flag_of d (s ++ flag ∷ [])) ≡ false
unfolding flag_of
append_off d flag [] h k = absurd (omega arith)
append_off zero flag (x ∷ s) h k = k
append_off (suc d) flag (x ∷ s) h k = append_off d flag s (omega arith) k

StoreLife-IsGone : (d : ℕ) {s t : Store} → StoreLife s t → IsGone d s → IsGone d t
unfolding new_authority revoke drop_authority
StoreLife-IsGone d begun i = i
StoreLife-IsGone d (created {t} life) i =
    let j = StoreLife-IsGone d life i in
    record {
      known = omega (arith, j.known, length_grows t (some true));
      off = append_off d (some true) t j.known j.off;
    }
StoreLife-IsGone d (revoked {t} a life) i =
    let j = StoreLife-IsGone d life i in
    record {
      known = omega (arith, j.known, length-set_flag a (some false) t);
      off = set_flag_off d a (some false) t refl j.off;
    }
StoreLife-IsGone d (dropped {t} a life) i =
    let j = StoreLife-IsGone d life i in
    record {
      known = omega (arith, j.known, length-set_flag a none t);
      off = set_flag_off d a none t refl j.off;
    }

denied_off :
    (o : Option Bool) (a b : Bool) (g amount : ℕ)
    → is_true o ≡ false
    → elim o as (λ x. Result (Unit {0}) Error) [
      | none ↦ err Error.denied
      | some live ↦
          if a || (not live || b)
          then err Error.denied
          else if ltb g amount
          then err Error.limit
          else ok tt
    ]
      ≡ err Error.denied
denied_off none a b g amount h = refl
denied_off (some true) a b g amount h = cc
denied_off (some false) true b g amount h = refl
denied_off (some false) false b g amount h = refl

-- Once an authority has been revoked or dropped, every check of a grant that it has issued is denied and
-- it issues none, whatever happens to the authorities afterwards.
pub revoked_is_final :
    (s t : Store) (authority checker : ℕ) (g : Grant) (id : IdentityId) (action : Action)
    (bytes : ℕ)
    → authority < length s
    → StoreLife (revoke authority s) t ⊎ StoreLife (drop_authority authority s) t
    → g.domain ≡ authority
    → (check t checker g id action bytes ≡ err Error.denied)
      × (issue_grant t authority id action bytes ≡ err Error.denied)
unfolding check issue_grant revoke drop_authority
revoked_is_final s t authority checker g id action bytes h life e =
    let i = go life in
    (
      denied_off (flag_of g.domain t) _ _ g.bytes bytes
          (subst (λ d. is_true (flag_of d t) ≡ false) (sym e) i.off),
      rw i.off,
    )
  where
    go :
        StoreLife (revoke authority s) t ⊎ StoreLife (drop_authority authority s) t
        → IsGone authority t
    go (inl life) = StoreLife-IsGone authority life (record {
      known = omega (arith, h, length-set_flag authority (some false) s);
      off = set_flag_self authority (some false) s refl;
    })
    go (inr life) = StoreLife-IsGone authority life (record {
      known = omega (arith, h, length-set_flag authority none s);
      off = set_flag_self authority none s refl;
    })
