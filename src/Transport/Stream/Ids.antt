-- ===== src/Transport/Stream/Ids.antt =====
-- Stream numbering of one connection: src/modules/transport/stream/ids.rs.
pub mod History
use talk_sphere.Base.{
  ℕ, ◌+◌, ◌%◌, ◌^◌, Bool, true, false, not, ◌&&◌, Option, none, some, ltb, leb, ◌==◌, if◌then◌else◌,
  Result, ok, err,
}
use talk_sphere.Transport.Api.{ConnectionRole}

pub data IdError : Type 0 where
  exhausted unexpected : IdError

pub record StreamIds : Type 0 where
  pub local_odd : Bool
  pub next_local : Option ℕ
  pub next_remote : Option ℕ
  pub greatest_local : ℕ
  pub greatest_remote : ℕ

abbrev pub is_initiator : ConnectionRole → Bool
is_initiator ConnectionRole.initiator = true
is_initiator ConnectionRole.acceptor = false

-- `StreamIds::new`
unfoldable pub new_ids : ConnectionRole → StreamIds
new_ids role = record {
  local_odd = is_initiator role;
  next_local = some (if is_initiator role then 1 else 2);
  next_remote = some (if is_initiator role then 2 else 1);
  greatest_local = 0;
  greatest_remote = 0;
}

-- `u32::checked_add`
abbrev pub checked_add_u32 : ℕ → ℕ → Option ℕ
checked_add_u32 a b = if ltb (a + b) (2 ^ 32) then some (a + b) else none

unfoldable pub allocate : StreamIds → StreamIds × Result ℕ IdError
allocate s = elim s.next_local [
  | none ↦ (s, err exhausted)
  | some id ↦ (record s { next_local = checked_add_u32 id 2; greatest_local = id }, ok id)
]

-- `Option<u32>` equality with `Some(id)`.
abbrev pub is_next : Option ℕ → ℕ → Bool
is_next none id = false
is_next (some next) id = next == id

unfoldable pub accept : StreamIds → ℕ → StreamIds × Result (Unit {0}) IdError
accept s id =
    if not (is_next s.next_remote id)
    then (s, err unexpected)
    else (record s { next_remote = checked_add_u32 id 2; greatest_remote = id }, ok tt)

abbrev pub same_bool : Bool → Bool → Bool
same_bool true b = b
same_bool false b = not b

unfoldable pub is_local : StreamIds → ℕ → Bool
is_local s id = not (id == 0) && same_bool (id % 2 == 1) s.local_odd

unfoldable pub was_created : StreamIds → ℕ → Bool
unfolding is_local
was_created s id =
    not (id == 0) && leb id (if is_local s id then s.greatest_local else s.greatest_remote)
