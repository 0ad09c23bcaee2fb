-- ===== src/Transport/Integrity/Held.antt =====
-- The keys of an integrity session: they are the ones it was made with until it drops them.
use talk_sphere.Base.{◌≡◌, refl, subst, Option, none, some, arith}
use talk_sphere.Transport.Framing.{WireFrame}
use talk_sphere.Transport.Integrity.{
  Cryptography, DirectionKeys, Integrity, new_integrity, seal, seal_with, sealed_frame, sent_sealed,
  verify, verify_with, fail, close_keys,
}

module _ {K : Type 0} where
  -- No keys are held, or these.
  abbrev pub IsHeld : DirectionKeys K → Option (DirectionKeys K) → Type 0
  IsHeld d none = Unit {0}
  IsHeld d (some held) = held ≡ d

  -- Frames are sealed with the one direction's keys only, and verified with the other's.
  abbrev pub IsKeptFrom : DirectionKeys K → DirectionKeys K → Integrity K → Type 0
  IsKeptFrom send receive i = IsHeld send i.send × IsHeld receive i.receive

  IsHeld-earlier :
      (d : DirectionKeys K) (x y : Option (DirectionKeys K))
      → ((h : DirectionKeys K) → y ≡ some h → x ≡ some h)
      → IsHeld d x
      → IsHeld d y
  IsHeld-earlier d x none k g = tt
  IsHeld-earlier d x (some h) k g = subst (IsHeld d) (k h refl) g

  -- A step that installs no keys.
  IsDrop : Integrity K → Integrity K → Type 0
  IsDrop s t =
      ((h : DirectionKeys K) → t.send ≡ some h → s.send ≡ some h)
      × ((h : DirectionKeys K) → t.receive ≡ some h → s.receive ≡ some h)

  IsDrop-IsKeptFrom :
      (a b : DirectionKeys K) (s t : Integrity K) → IsDrop s t → IsKeptFrom a b s → IsKeptFrom a b t
  unfolding IsDrop
  IsDrop-IsKeptFrom a b s t k g =
      (IsHeld-earlier a s.send t.send k.0 g.0, IsHeld-earlier b s.receive t.receive k.1 g.1)

  pub new_integrity-IsKeptFrom : (a b : DirectionKeys K) → IsKeptFrom a b (new_integrity a b)
  unfolding new_integrity
  new_integrity-IsKeptFrom a b = (refl, refl)

  pub sent_sealed-IsKeptFrom :
      (a b : DirectionKeys K) (s : Integrity K)
      → IsKeptFrom a b s
      → IsKeptFrom a b (sent_sealed s).0
  unfolding sent_sealed fail close_keys IsDrop
  sent_sealed-IsKeptFrom a b s =
      IsDrop-IsKeptFrom a b s (sent_sealed s).0 (λ h k. ground (arith, k), λ h k. ground (arith, k))

  pub seal-IsKeptFrom :
      (cipher : Cryptography K) (f : WireFrame) (a b : DirectionKeys K) (s : Integrity K)
      → IsKeptFrom a b s
      → IsKeptFrom a b (seal cipher f s).0
  unfolding seal seal_with sealed_frame fail close_keys IsDrop
  seal-IsKeptFrom cipher f a b s =
      IsDrop-IsKeptFrom a b s (seal cipher f s).0
        (λ h k. ground (arith, k), λ h k. ground (arith, k))

  pub verify-IsKeptFrom :
      (cipher : Cryptography K) (f : WireFrame) (a b : DirectionKeys K) (s : Integrity K)
      → IsKeptFrom a b s
      → IsKeptFrom a b (verify cipher f s).0
  unfolding verify verify_with fail close_keys IsDrop
  verify-IsKeptFrom cipher f a b s =
      IsDrop-IsKeptFrom a b s (verify cipher f s).0
        (λ h k. ground (arith, k), λ h k. ground (arith, k))
