-- ===== src/Base/NatMap/Laws.antt =====
-- Laws of the map operations.
use talk_sphere.Base.NatMap.{lookup, contains, insert, remove, modify, Above, occurs, Entries}
use Prim.Native.Nat.{ℕ, ◌+◌, ◌≤◌, ◌<◌}
use mathlib.Core.Path.{◌≡◌, refl, subst₂}
use mathlib.Core.Logic.{inl, inr}
use mathlib.Core.Bool.{false}
use mathlib.Core.Option.{some}
use mathlib.Core.List.{List, [], ◌∷◌}
use native.Mathlib.Omega.{arith}
use talk_sphere.Base.Tests.{bit, ==_iff, Bool-cases, ◌==◌, is_some}
use talk_sphere.Base.Lists.{length}

module _ {ℓ} {V : Type ℓ} where
  pub contains-lookup : (k : ℕ) (m : List (ℕ × V)) → contains k m ≡ is_some (lookup k m)
  unfolding contains lookup
  contains-lookup k [] = refl
  contains-lookup k ((j, v) ∷ m) = ground (arith, contains-lookup k m)

  pub occurs-remove :
      (k id : ℕ) (m : List (ℕ × V)) (v : V)
      → lookup k m ≡ some v
      → occurs id m ≡ occurs id (remove k m) + bit (k == id)
  unfolding lookup remove occurs
  occurs-remove k id [] v h = cc
  occurs-remove k id ((j, w) ∷ m) v h = ground (arith, occurs-remove k id m v)

  pub occurs-insert :
      (k id : ℕ) (v : V) (m : List (ℕ × V))
      → contains k m ≡ false
      → occurs id (insert k v m) ≡ occurs id m + bit (k == id)
  unfolding contains insert occurs
  occurs-insert k id v [] h = ground arith
  occurs-insert k id v ((j, w) ∷ m) h = ground (arith, occurs-insert k id v m)

  pub occurs-modify :
      (k id : ℕ) (f : V → V) (m : List (ℕ × V)) → occurs id (modify k f m) ≡ occurs id m
  unfolding modify occurs
  occurs-modify k id f [] = refl
  occurs-modify k id f ((j, w) ∷ m) = ground (arith, occurs-modify k id f m)

  Above-mono : {b c : ℕ} (m : List (ℕ × V)) → b ≤ c → Above c m → Above b m
  Above-mono [] h a = tt
  Above-mono ((j, v) ∷ m) h a = (omega arith, a.1)

  pub remove-Above : (k b : ℕ) (m : List (ℕ × V)) → Above b m → Above b (remove k m)
  unfolding remove
  remove-Above k b [] a = tt
  remove-Above k b ((j, v) ∷ m) a =
      ground (arith, remove-Above k j m a.1, Above-mono {b = b} {c = j} m)

  pub insert-Above :
      (k b : ℕ) (v : V) (m : List (ℕ × V)) → b < k → Above b m → Above b (insert k v m)
  unfolding insert
  insert-Above k b v [] h a = (h, tt)
  insert-Above k b v ((j, w) ∷ m) h a = ground (arith, insert-Above k j v m)

  pub modify-Above : (k b : ℕ) (f : V → V) (m : List (ℕ × V)) → Above b m → Above b (modify k f m)
  unfolding modify
  modify-Above k b f [] a = tt
  modify-Above k b f ((j, v) ∷ m) a = ground (arith, modify-Above k j f m a.1)

  pub occurs-Above : (id b : ℕ) (m : List (ℕ × V)) → Above b m → id ≤ b → occurs id m ≡ 0
  unfolding occurs
  occurs-Above id b [] a h = refl
  occurs-Above id b ((j, v) ∷ m) a h = ground (arith, occurs-Above id j m a.1)

  pub occurs-le-one : (id b : ℕ) (m : List (ℕ × V)) → Above b m → occurs id m ≤ 1
  unfolding occurs
  occurs-le-one id b [] a = omega arith
  occurs-le-one id b ((j, v) ∷ m) a =
      ground (arith, occurs-Above id j m a.1, occurs-le-one id j m a.1)

  pub length-remove : (k : ℕ) (m : List (ℕ × V)) → length (remove k m) ≤ length m
  unfolding remove
  length-remove k [] = omega arith
  length-remove k ((j, v) ∷ m) = ground (arith, length-remove k m)

  pub length-insert : (k : ℕ) (v : V) (m : List (ℕ × V)) → length (insert k v m) ≤ length m + 1
  unfolding insert
  length-insert k v [] = omega arith
  length-insert k v ((j, w) ∷ m) = ground (arith, length-insert k v m)

  pub length-modify : (k : ℕ) (f : V → V) (m : List (ℕ × V)) → length (modify k f m) ≡ length m
  unfolding modify
  length-modify k f [] = refl
  length-modify k f ((j, v) ∷ m) = ground (arith, length-modify k f m)

  module _ {κ} (P : ℕ → V → Type κ) where
    pub Entries-lookup :
        (k : ℕ) (m : List (ℕ × V)) (v : V) → Entries P m → lookup k m ≡ some v → P k v
    unfolding lookup
    Entries-lookup k [] v e h = absurd (cc)
    Entries-lookup k ((j, w) ∷ m) v e h = elim (Bool-cases (j == k)) [
      | inl same ↦
          subst₂ P ((==_iff j k).0 same) (let found : some w ≡ some v = rw same at h in cc) e.0
      | inr other ↦ Entries-lookup k m v e.1 (rw other at h)
    ]

    pub Entries-remove : (k : ℕ) (m : List (ℕ × V)) → Entries P m → Entries P (remove k m)
    unfolding remove
    Entries-remove k [] e = tt
    Entries-remove k ((j, v) ∷ m) e = ground (arith, Entries-remove k m e.1)

    pub Entries-insert :
        (k : ℕ) (v : V) (m : List (ℕ × V)) → P k v → Entries P m → Entries P (insert k v m)
    unfolding insert
    Entries-insert k v [] p e = (p, tt)
    Entries-insert k v ((j, w) ∷ m) p e = ground (arith, Entries-insert k v m p e.1)

    pub Entries-modify :
        (k : ℕ) (f : V → V) (m : List (ℕ × V))
        → ((j : ℕ) (v : V) → P j v → P j (f v))
        → Entries P m
        → Entries P (modify k f m)
    unfolding modify
    Entries-modify k f [] h e = tt
    Entries-modify k f ((j, v) ∷ m) h e = ground (arith, h j v e.0, Entries-modify k f m h e.1)
