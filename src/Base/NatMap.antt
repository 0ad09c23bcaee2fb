-- ===== src/Base/NatMap.antt =====
-- `BTreeMap<u32, V>`: the entries in increasing order of their keys.
pub mod Laws
use Prim.Native.Nat.{◌+◌, ℕ, ◌<◌}
use mathlib.Core.Bool.{Bool, true, false}
use mathlib.Core.Option.{Option, none, some}
use mathlib.Core.List.{List, [], ◌∷◌}
use talk_sphere.Base.Tests.{bit, ltb, ◌==◌, if◌then◌else◌}

module _ {ℓ} {V : Type ℓ} where
  unfoldable pub lookup : ℕ → List (ℕ × V) → Option V
  lookup k [] = none
  lookup k ((j, v) ∷ m) = if j == k then some v else lookup k m

  unfoldable pub contains : ℕ → List (ℕ × V) → Bool
  contains k [] = false
  contains k ((j, v) ∷ m) = if j == k then true else contains k m

  unfoldable pub insert : ℕ → V → List (ℕ × V) → List (ℕ × V)
  insert k v [] = (k, v) ∷ []
  insert k v ((j, w) ∷ m) =
      let rest = insert k v m in
      if k == j then (k, v) ∷ m else if ltb k j then (k, v) ∷ (j, w) ∷ m else (j, w) ∷ rest

  unfoldable pub remove : ℕ → List (ℕ × V) → List (ℕ × V)
  remove k [] = []
  remove k ((j, v) ∷ m) = if j == k then m else (j, v) ∷ remove k m

  -- `get_mut` followed by an assignment.
  unfoldable pub modify : ℕ → (V → V) → List (ℕ × V) → List (ℕ × V)
  modify k f [] = []
  modify k f ((j, v) ∷ m) = if j == k then (j, f v) ∷ m else (j, v) ∷ modify k f m

  unfoldable pub keys : List (ℕ × V) → List ℕ
  keys [] = []
  keys ((j, v) ∷ m) = j ∷ keys m

  -- The keys rise strictly, from above the bound.
  abbrev pub Above : ℕ → List (ℕ × V) → Type 0
  Above b [] = Unit {0}
  Above b ((j, v) ∷ m) = (b < j) × Above j m

  -- How often a key is bound.
  unfoldable pub occurs : ℕ → List (ℕ × V) → ℕ
  occurs k [] = 0
  occurs k ((j, v) ∷ m) = bit (j == k) + occurs k m

  -- Every entry satisfies the predicate.
  abbrev pub Entries {κ} : (ℕ → V → Type κ) → List (ℕ × V) → Type κ
  Entries P [] = Unit {κ}
  Entries P ((j, v) ∷ m) = P j v × Entries P m
