-- ===== src/Transport/Stream/Registry.antt =====
-- Registrations of local protocols: src/modules/transport/stream/registry.rs.
-- `StreamOwner::new` allocates; the registry counts allocations to name the next owner.
pub mod Laws
use talk_sphere.Base.{
  suc, List, [], ◌∷◌, ◌++◌, Option, none, some, is_some, bytes_eq, ◌==◌, ◌&&◌, if◌then◌else◌,
  Result, ok, err,
}
use talk_sphere.Transport.Api.{Protocol, StreamOwner}
use talk_sphere.Transport.Codec.Opening.{Open, OpenError, open_new}

pub data RegistrationError : Type 0 where
  invalid : OpenError → RegistrationError
  duplicate : RegistrationError

pub record Registry : Type 0 where
  pub entries : List (Protocol × StreamOwner)
  pub next_owner : StreamOwner

unfoldable pub resolve_in : List (Protocol × StreamOwner) → Open → Option StreamOwner
resolve_in [] selection = none
resolve_in ((p, owner) ∷ rest) selection =
    if bytes_eq p.id selection.id && p.version == selection.version
    then some owner
    else resolve_in rest selection

unfoldable pub resolve : Registry → Open → Option StreamOwner
unfolding resolve_in
resolve r selection = resolve_in r.entries selection

unfoldable pub protocol_in : List (Protocol × StreamOwner) → StreamOwner → Option Protocol
protocol_in [] owner = none
protocol_in ((p, candidate) ∷ rest) owner =
    if candidate == owner then some p else protocol_in rest owner

unfoldable pub protocol : Registry → StreamOwner → Option Protocol
unfolding protocol_in
protocol r owner = protocol_in r.entries owner

unfoldable pub register : Registry → Protocol → Registry × Result StreamOwner RegistrationError
register r p = elim (open_new p.id p.version) [
  | err e ↦ (r, err (invalid e))
  | ok selection ↦ if is_some (resolve r selection) then (r, err duplicate) else (
    record r { entries = r.entries ++ (p, r.next_owner) ∷ []; next_owner = suc r.next_owner },
    ok r.next_owner,
  )
]
