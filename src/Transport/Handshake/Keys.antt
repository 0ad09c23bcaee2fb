-- ===== src/Transport/Handshake/Keys.antt =====
-- The keys of both directions, derived from the agreed secret: handshake/keys.rs. The primitives of
-- ports/crypto.rs are the parameter `crypto`, over secrets and keys of any type.
use talk_sphere.Base.{ℕ, List, [], ◌∷◌, ◌++◌, Result, ok, ◌>>=◌}
use talk_sphere.Transport.Api.{ConnectionRole}
use talk_sphere.Transport.Integrity.{DependencyError, DirectionKeys}

-- The operations of the port that the handshake calls: the private key and the remote key give the
-- shared secret, a salt extracts a pseudorandom key of it, and labels expand that key.
pub record Primitives (E S P K : Type 0) : Type 0 where
  pub sha256 : List ℕ → Result (List ℕ) DependencyError
  pub verify_signature : List ℕ → List ℕ → List ℕ → Result (Unit {0}) DependencyError
  pub agree : E → List ℕ → Result S DependencyError
  pub extract : List ℕ → S → Result P DependencyError
  pub expand_key : P → List ℕ → Result K DependencyError
  pub expand_nonce_prefix : P → List ℕ → Result (List ℕ) DependencyError

pub record SessionKeys (K : Type 0) : Type 0 where
  pub send : DirectionKeys K
  pub receive : DirectionKeys K

-- b"CR2SE-NETWORK-KEYS-V1"
abbrev pub keys_domain : List ℕ
keys_domain =
    67 ∷ 82 ∷ 50 ∷ 83 ∷ 69 ∷ 45 ∷ 78 ∷ 69 ∷ 84 ∷ 87 ∷ 79 ∷ 82 ∷ 75 ∷ 45 ∷ 75 ∷ 69 ∷ 89 ∷ 83 ∷ 45
    ∷ 86 ∷ 49 ∷ []

-- b"CR2SE-NETWORK-V1-I2A-KEY"
abbrev pub i2a_key_label : List ℕ
i2a_key_label =
    67 ∷ 82 ∷ 50 ∷ 83 ∷ 69 ∷ 45 ∷ 78 ∷ 69 ∷ 84 ∷ 87 ∷ 79 ∷ 82 ∷ 75 ∷ 45 ∷ 86 ∷ 49 ∷ 45 ∷ 73 ∷ 50
    ∷ 65 ∷ 45 ∷ 75 ∷ 69 ∷ 89 ∷ []

-- b"CR2SE-NETWORK-V1-A2I-KEY"
abbrev pub a2i_key_label : List ℕ
a2i_key_label =
    67 ∷ 82 ∷ 50 ∷ 83 ∷ 69 ∷ 45 ∷ 78 ∷ 69 ∷ 84 ∷ 87 ∷ 79 ∷ 82 ∷ 75 ∷ 45 ∷ 86 ∷ 49 ∷ 45 ∷ 65 ∷ 50
    ∷ 73 ∷ 45 ∷ 75 ∷ 69 ∷ 89 ∷ []

-- b"CR2SE-NETWORK-V1-I2A-NONCE"
abbrev pub i2a_nonce_label : List ℕ
i2a_nonce_label =
    67 ∷ 82 ∷ 50 ∷ 83 ∷ 69 ∷ 45 ∷ 78 ∷ 69 ∷ 84 ∷ 87 ∷ 79 ∷ 82 ∷ 75 ∷ 45 ∷ 86 ∷ 49 ∷ 45 ∷ 73 ∷ 50
    ∷ 65 ∷ 45 ∷ 78 ∷ 79 ∷ 78 ∷ 67 ∷ 69 ∷ []

-- b"CR2SE-NETWORK-V1-A2I-NONCE"
abbrev pub a2i_nonce_label : List ℕ
a2i_nonce_label =
    67 ∷ 82 ∷ 50 ∷ 83 ∷ 69 ∷ 45 ∷ 78 ∷ 69 ∷ 84 ∷ 87 ∷ 79 ∷ 82 ∷ 75 ∷ 45 ∷ 86 ∷ 49 ∷ 45 ∷ 65 ∷ 50
    ∷ 73 ∷ 45 ∷ 78 ∷ 79 ∷ 78 ∷ 67 ∷ 69 ∷ []

abbrev pub salt_input : List ℕ → List ℕ
salt_input t = keys_domain ++ (0 ∷ t)

-- `match role { … }` at the end of `derive_keys`.
unfoldable pub oriented :
    {K : Type 0} → ConnectionRole → DirectionKeys K → DirectionKeys K → SessionKeys K
oriented ConnectionRole.initiator i2a a2i = record { send = i2a; receive = a2i }
oriented ConnectionRole.acceptor i2a a2i = record { send = a2i; receive = i2a }

module _ {E S P K : Type 0} (crypto : Primitives E S P K) where
  -- The material of both directions: the initiator's, and the acceptor's.
  unfoldable pub direction_keys :
      E → List ℕ → List ℕ → Result (DirectionKeys K × DirectionKeys K) DependencyError
  direction_keys private remote t = do
    shared ← crypto.agree private remote
    salt ← crypto.sha256 (salt_input t)
    prk ← crypto.extract salt shared
    i2a_key ← crypto.expand_key prk i2a_key_label
    a2i_key ← crypto.expand_key prk a2i_key_label
    i2a_prefix ← crypto.expand_nonce_prefix prk i2a_nonce_label
    a2i_prefix ← crypto.expand_nonce_prefix prk a2i_nonce_label
    ok (
      record { key = i2a_key; nonce_prefix = i2a_prefix },
      record { key = a2i_key; nonce_prefix = a2i_prefix },
    )

  unfoldable pub derive_keys :
      ConnectionRole → E → List ℕ → List ℕ → Result (SessionKeys K) DependencyError
  derive_keys role private remote t =
      direction_keys private remote t >>= λ keys. ok (oriented role keys.0 keys.1)
