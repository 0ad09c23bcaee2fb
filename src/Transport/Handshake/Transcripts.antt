-- ===== src/Transport/Handshake/Transcripts.antt =====
-- The role-ordered transcript of both HELLOs and what is signed over it: handshake/transcript.rs. A
-- signature and a public key are lists of octets.
use talk_sphere.Base.{ℕ, List, [], ◌∷◌, ◌++◌, Result}
use talk_sphere.Base.Bytes.{u32_bytes}
use talk_sphere.Transport.Api.{ConnectionRole, IdentityId}
use talk_sphere.Transport.Codec.Hello.{Hello, hello_encode}
use talk_sphere.Transport.Integrity.{DependencyError}

-- The operations of ports/identity.rs that the handshake calls.
pub record Identity : Type 0 where
  pub identify : List ℕ → Result IdentityId DependencyError
  pub sign_authentication : List ℕ → Result (List ℕ) DependencyError

-- `Transcript::new`: the octets of both HELLOs, the initiator's first, each after its length.
unfoldable pub transcript : Hello → Hello → List ℕ
transcript initiator acceptor =
    u32_bytes 100 ++ (hello_encode initiator ++ (u32_bytes 100 ++ hello_encode acceptor))

abbrev pub role_byte : ConnectionRole → ℕ
role_byte ConnectionRole.initiator = 1
role_byte ConnectionRole.acceptor = 2

-- b"CR2SE-NETWORK-AUTH-V1"
abbrev pub auth_domain : List ℕ
auth_domain =
    67 ∷ 82 ∷ 50 ∷ 83 ∷ 69 ∷ 45 ∷ 78 ∷ 69 ∷ 84 ∷ 87 ∷ 79 ∷ 82 ∷ 75 ∷ 45 ∷ 65 ∷ 85 ∷ 84 ∷ 72 ∷ 45
    ∷ 86 ∷ 49 ∷ []

-- `Transcript::authentication`
unfoldable pub authentication : ConnectionRole → List ℕ → List ℕ
authentication role t = auth_domain ++ (0 ∷ role_byte role ∷ t)

-- `Transcript::sign`
unfoldable pub sign : Identity → ConnectionRole → List ℕ → Result (List ℕ) DependencyError
sign identity role t = identity.sign_authentication (authentication role t)
