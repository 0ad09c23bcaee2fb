-- ===== src/Base/Results.antt =====
-- Rust's `Result`, with its `?` operator as bind, `map`, `map_err` and `ok_or`.
use mathlib.Core.Path.{◌≡◌, refl}
use mathlib.Core.Logic.{◌⊎◌, inl, inr}
use mathlib.Core.Bool.{Bool, true, false}
use mathlib.Core.Option.{Option, none, some}

pub data Result {ℓ κ} (A : Type ℓ) (E : Type κ) : Type (ℓ ⊔ κ) where
  ok : A → Result A E
  err : E → Result A E

infixl 5 ◌>>=◌ ◌>>◌
abbrev pub ◌>>=◌ {ℓ ℓ' κ} :
    {A : Type ℓ} {B : Type ℓ'} {E : Type κ} → Result A E → (A → Result B E) → Result B E
ok a >>= f = f a
err e >>= f = err e

abbrev pub ◌>>◌ {ℓ κ} : {B : Type ℓ} {E : Type κ} → Result (Unit {0}) E → Result B E → Result B E
m >> k = m >>= λ _. k

abbrev pub map_err {ℓ κ κ'} :
    {A : Type ℓ} {E : Type κ} {F : Type κ'} → (E → F) → Result A E → Result A F
map_err f (ok a) = ok a
map_err f (err e) = err (f e)

abbrev pub ok_or {ℓ κ} : {A : Type ℓ} {E : Type κ} → Option A → E → Result A E
ok_or none e = err e
ok_or (some a) e = ok a

-- An early return of an error unless the test holds.
abbrev pub ensure {κ} : {E : Type κ} → Bool → E → Result (Unit {0}) E
ensure true e = ok tt
ensure false e = err e

module _ {ℓ κ} {A : Type ℓ} {E : Type κ} where
  pub Result-cases : (r : Result A E) → ((a : A) × (r ≡ ok a)) ⊎ ((e : E) × (r ≡ err e))
  Result-cases (ok a) = inl (a, refl)
  Result-cases (err e) = inr (e, refl)

  -- Past an `ensure` that did not return, its test holds.
  pub ensure-eq_ok :
      (b : Bool) (e : E) (k : Result A E) (a : A)
      → (ensure b e >> k) ≡ ok a
      → (b ≡ true) × (k ≡ ok a)
  ensure-eq_ok true e k a h = (refl, h)
  ensure-eq_ok false e k a h = cc

  pub ok-injective : (a b : A) → ◌≡◌ {A = Result A E} (ok a) (ok b) → a ≡ b
  ok-injective a b h = cc

  pub >>-eq_ok :
      (m : Result (Unit {0}) E) (k : Result A E) (a : A)
      → (m >> k) ≡ ok a
      → (m ≡ ok tt) × (k ≡ ok a)
  >>-eq_ok (ok u) k a h = (refl, h)
  >>-eq_ok (err e) k a h = cc
