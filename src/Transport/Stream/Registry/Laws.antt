-- ===== src/Transport/Stream/Registry/Laws.antt =====
-- The registry as a map from selections to owners and back.
use talk_sphere.Base.{
  ℕ, suc, ◌≡◌, ◌<◌, refl, List, [], ◌∷◌, ◌++◌, none, some, bytes_eq, bytes_eq_iff, ◌==◌, ◌&&◌, Bool,
  true, if◌then◌else◌, ok, err, All, arith,
}
use talk_sphere.Transport.Api.{Protocol, StreamOwner}
use talk_sphere.Transport.Codec.Opening.{Open, open_new}
use talk_sphere.Transport.Stream.Registry.{
  Registry, RegistrationError, resolve, resolve_in, protocol, protocol_in, register,
}

-- The owners handed out are below the next one.
abbrev pub IsRegistry : Registry → Type 0
IsRegistry r = All (λ (e : Protocol × StreamOwner). e.1 < r.next_owner) r.entries

abbrev pub selects : Protocol → Open → Bool
selects p selection = bytes_eq p.id selection.id && p.version == selection.version

resolve_in_last :
    (xs : List (Protocol × StreamOwner)) (p : Protocol) (owner : StreamOwner)
    (chosen selection : Open)
    → selects p chosen ≡ true
    → resolve_in xs chosen ≡ none
    → resolve_in (xs ++ (p, owner) ∷ []) selection
      ≡ (if selects p selection then some owner else resolve_in xs selection)
unfolding resolve_in
resolve_in_last [] p owner chosen selection m h = ground arith
resolve_in_last ((q, other) ∷ xs) p owner chosen selection m h = ground (
  arith,
  resolve_in_last xs p owner chosen selection m,
  bytes_eq_iff p.id chosen.id,
  bytes_eq_iff p.id selection.id,
  bytes_eq_iff q.id chosen.id,
  bytes_eq_iff q.id selection.id,
  h,
  m,
)

protocol_in_last :
    (xs : List (Protocol × StreamOwner)) (p : Protocol) (n : StreamOwner) (owner : StreamOwner)
    → All (λ (e : Protocol × StreamOwner). e.1 < n) xs
    → (protocol_in (xs ++ (p, n) ∷ []) owner
        ≡ (if n == owner then some p else protocol_in xs owner))
      × (protocol_in xs n ≡ none)
unfolding protocol_in
protocol_in_last [] p n owner h = (refl, refl)
protocol_in_last ((q, other) ∷ xs) p n owner h =
    ground (arith, protocol_in_last xs p n owner h.1, h)

All-grow :
    (n : ℕ) (p : Protocol) (xs : List (Protocol × StreamOwner))
    → All (λ (e : Protocol × StreamOwner). e.1 < n) xs
    → All (λ (e : Protocol × StreamOwner). e.1 < suc n) (xs ++ (p, n) ∷ [])
All-grow n p [] h = (omega arith, tt)
All-grow n p (x ∷ xs) h = (omega (arith, h.0), All-grow n p xs h.1)

-- What a registration has checked, and what it returns.
register-eq_ok :
    (r : Registry) (p : Protocol) (owner : StreamOwner)
    → (register r p).1 ≡ ok owner
    → (chosen : Open) × (open_new p.id p.version ≡ ok chosen)
      × (resolve r chosen ≡ none)
      × (owner ≡ r.next_owner)
      × ((register r p).0 ≡ record r {
        entries = r.entries ++ (p, r.next_owner) ∷ [];
        next_owner = suc r.next_owner;
      })
unfolding register
register-eq_ok r p owner h = ground arith

open_new-selects :
    (p : Protocol) (chosen : Open) → open_new p.id p.version ≡ ok chosen → selects p chosen ≡ true
unfolding open_new
open_new-selects p chosen h = ground (arith, bytes_eq_iff p.id chosen.id)

-- A failed registration changes nothing.
register-eq_err :
    (r : Registry) (p : Protocol) (e : RegistrationError)
    → (register r p).1 ≡ err e
    → (register r p).0 ≡ r
unfolding register
register-eq_err r p e h = ground arith

-- On a registry whose owners are below its next one, a successful registration returns an owner that it
-- has not seen, binds the protocol's selection to that owner and the owner to the protocol, leaves
-- every other selection and owner as it was, and is again such a registry.
pub register_binds :
    (r : Registry) (p : Protocol) (owner : StreamOwner) (selection : Open) (other : StreamOwner)
    → IsRegistry r
    → (register r p).1 ≡ ok owner
    → (protocol r owner ≡ none)
      × (resolve (register r p).0 selection
          ≡ (if selects p selection then some owner else resolve r selection))
      × (protocol (register r p).0 other ≡ (if owner == other then some p else protocol r other))
      × IsRegistry (register r p).0
unfolding resolve protocol
register_binds r p owner selection other v h =
    let (chosen, valid, vacant, same, next) = register-eq_ok r p owner h in
    rw (same, next)
      ((
        (protocol_in_last r.entries p r.next_owner other v).1,
        resolve_in_last r.entries p r.next_owner chosen selection (open_new-selects p chosen valid)
            vacant,
        (protocol_in_last r.entries p r.next_owner other v).0,
        All-grow r.next_owner p r.entries v,
      ))
