-- ===== src/Transport/Codec/Hello.antt =====
-- HELLO and AUTH payload shapes: src/modules/transport/codec/handshake.rs.
pub mod RoundTrip
use talk_sphere.Base.{
  ℕ, ◌+◌, ◌≡◌, List, [], ◌∷◌, ◌++◌, ◌==◌, if◌then◌else◌, Result, ok, err, ◌>>=◌, ◌>>◌, ensure,
  length, slice, get_or, All,
}
use talk_sphere.Base.Bytes.{IsByte}

pub data HandshakePayloadError : Type 0 where
  bad_length : ℕ → ℕ → HandshakePayloadError
  bad_selector : ℕ → ℕ → HandshakePayloadError

pub record Hello : Type 0 where
  pub identity_public_key : List ℕ
  pub ephemeral_public_key : List ℕ
  pub nonce : List ℕ

unfoldable pub hello_encode : Hello → List ℕ
hello_encode h = 1 ∷ 1 ∷ 1 ∷ (h.identity_public_key ++ 1 ∷ (h.ephemeral_public_key ++ h.nonce))

-- `for offset in [0, 1, 2, 35]`: the first selector that is not one is reported.
unfoldable pub check_selectors : List ℕ → List ℕ → Result (Unit {0}) HandshakePayloadError
check_selectors [] bytes = ok tt
check_selectors (offset ∷ rest) bytes =
    let others = check_selectors rest bytes in
    if get_or bytes offset 0 == 1 then others else err (bad_selector offset (get_or bytes offset 0))

unfoldable pub hello_decode : List ℕ → Result Hello HandshakePayloadError
unfolding check_selectors
hello_decode bytes = do
  ensure (length bytes == 100) (bad_length 100 (length bytes))
  check_selectors (0 ∷ 1 ∷ 2 ∷ 35 ∷ []) bytes
  ok (record {
    identity_public_key = slice 3 35 bytes;
    ephemeral_public_key = slice 36 68 bytes;
    nonce = slice 68 100 bytes;
  })

-- `Auth` holds the 64 octets of a signature.
unfoldable pub auth_decode : List ℕ → Result (List ℕ) HandshakePayloadError
auth_decode bytes = do ensure (length bytes == 64) (bad_length 64 (length bytes)); ok bytes

-- The fixed widths that the array types of the fields state.
pub record IsHello (h : Hello) : Type 0 where
  pub identity_width : length h.identity_public_key ≡ 32
  pub ephemeral_width : length h.ephemeral_public_key ≡ 32
  pub nonce_width : length h.nonce ≡ 32
