-- ===== src/Transport/Codec/Opening.antt =====
-- OPEN payloads: src/modules/transport/codec/open.rs.
pub mod RoundTrip
use talk_sphere.Base.{
  ℕ, ◌+◌, ◌/◌, ◌%◌, ◌≤◌, ◌≡◌, Bool, true, false, not, ◌&&◌, ◌||◌, List, [], ◌∷◌, ◌++◌, leb, ltb,
  ◌==◌, Result, ok, err, ◌>>=◌, ◌>>◌, ensure, length, take, drop, All,
}
use talk_sphere.Base.Bytes.{u16_of, u32_of, u16_bytes, u32_bytes, IsU32, IsByte}
use talk_sphere.Transport.Codec.Text.{is_utf8, in_range}

pub data OpenError : Type 0 where
  bad_length bad_identifier bad_version : OpenError

pub record Open : Type 0 where
  pub id : List ℕ
  pub version : ℕ

abbrev pub alphanumeric : ℕ → Bool
alphanumeric byte = in_range b'a' b'z' byte || in_range b'0' b'9' byte

abbrev pub all_allowed : List ℕ → Bool
all_allowed [] = true
all_allowed (b ∷ bs) = (alphanumeric b || (b == b'.' || b == b'-')) && all_allowed bs

-- `bytes.windows(2).any(|pair| pair == b"..")`
abbrev pub has_double_dot : List ℕ → Bool
has_double_dot [] = false
has_double_dot (a ∷ []) = false
has_double_dot (a ∷ b ∷ rest) = (a == b'.' && b == b'.') || has_double_dot (b ∷ rest)

abbrev pub first_allowed : List ℕ → Bool
first_allowed [] = false
first_allowed (b ∷ bs) = alphanumeric b

abbrev pub last_allowed : List ℕ → Bool
last_allowed [] = false
last_allowed (b ∷ []) = alphanumeric b
last_allowed (a ∷ b ∷ bs) = last_allowed (b ∷ bs)

abbrev pub is_identifier : List ℕ → Bool
is_identifier bytes =
    first_allowed bytes && (last_allowed bytes && (all_allowed bytes && not (has_double_dot bytes)))

abbrev pub in_length : ℕ → Bool
in_length n = leb 1 n && leb n 255

unfoldable pub open_new : List ℕ → ℕ → Result Open OpenError
open_new id version = do
  ensure (in_length (length id)) bad_length
  ensure (is_identifier id) bad_identifier
  ensure (not (version == 0)) bad_version
  ok (record { id = id; version = version })

-- The last four octets; `open_decode` has checked that four are left.
abbrev pub version_of : List ℕ → ℕ
version_of (a ∷ b ∷ c ∷ d ∷ []) = u32_of a b c d
version_of _ = 0

unfoldable pub open_decode : List ℕ → Result Open OpenError
open_decode (l1 ∷ l0 ∷ rest) = do
  ensure (not (ltb (length (l1 ∷ l0 ∷ rest)) 7)) bad_length
  let len = u16_of l1 l0
  ensure (in_length len && length (l1 ∷ l0 ∷ rest) == len + 6) bad_length
  let id = take len rest
  ensure (is_utf8 id) bad_identifier
  open_new id (version_of (drop len rest))
open_decode bytes = err bad_length

unfoldable pub open_encode : Open → List ℕ
open_encode o = u16_bytes (length o.id % 65536) ++ (o.id ++ u32_bytes o.version)

-- The selections that `Open::new` returns.
pub record IsOpen (o : Open) : Type 0 where
  pub id_nonempty : 1 ≤ length o.id
  pub id_bounded : length o.id ≤ 255
  pub identifier : is_identifier o.id ≡ true
  pub version_nonzero : (o.version == 0) ≡ false
  pub version_fits : IsU32 o.version
