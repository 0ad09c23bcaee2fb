-- ===== src/Transport/Integrity.antt =====
-- Frame integrity: src/modules/transport/integrity/mod.rs, and `nonce` and `DirectionKeys` of
-- handshake/keys.rs. The adapter's cipher (ports/crypto.rs) is the parameter `crypto`, keys are of any type.
pub mod Channel
pub mod Nonces
pub mod Held
use talk_sphere.Base.{
  ℕ, ◌+◌, ◌-◌, ◌/◌, ◌%◌, ◌^◌, ◌<◌, Bool, true, false, not, List, ◌++◌, Option, none, some, is_some,
  Result, ok, err, ltb, ◌==◌, if◌then◌else◌,
}
use talk_sphere.Base.Bytes.{u32_bytes}
use talk_sphere.Transport.Codec.Frames.{FrameHeader, encode}
use talk_sphere.Transport.Framing.{FramingError, WireFrame, wire_frame}

pub data DependencyError : Type 0 where
  unavailable denied invalid_input verification_failed : DependencyError

-- The two operations of the port that frames use: key, nonce, authenticated data and, to verify, the tag.
pub record Cryptography (K : Type 0) : Type 0 where
  pub make_tag : K → List ℕ → List ℕ → Result (List ℕ) DependencyError
  pub verify_tag : K → List ℕ → List ℕ → List ℕ → Result (Unit {0}) DependencyError

pub data IntegrityError : Type 0 where
  closed busy shape exhausted : IntegrityError
  dependency : DependencyError → IntegrityError
  framing : FramingError → IntegrityError

pub record DirectionKeys (K : Type 0) : Type 0 where
  pub key : K
  pub nonce_prefix : List ℕ

pub record Integrity (K : Type 0) : Type 0 where
  pub send : Option (DirectionKeys K)
  pub receive : Option (DirectionKeys K)
  pub send_sequence : ℕ
  pub receive_sequence : ℕ
  pub pending_send : Bool

abbrev pub u64_bytes : ℕ → List ℕ
u64_bytes n = u32_bytes (n / 4294967296) ++ u32_bytes (n % 4294967296)

unfoldable pub nonce : List ℕ → ℕ → List ℕ
nonce prefix sequence = prefix ++ u64_bytes sequence

-- `[header.encode(), payload].concat()`
unfoldable pub authenticated_data : WireFrame → List ℕ
authenticated_data f = encode f.header ++ f.payload

module _ {K : Type 0} where
  -- `Integrity::new`
  unfoldable pub new_integrity : DirectionKeys K → DirectionKeys K → Integrity K
  new_integrity send receive = record {
    send = some send;
    receive = some receive;
    send_sequence = 0;
    receive_sequence = 0;
    pending_send = false;
  }

  unfoldable pub close_keys : Integrity K → Integrity K
  close_keys s = record s { send = none; receive = none; pending_send = false }

  unfoldable pub fail :
      {A : Type 0} → IntegrityError → Integrity K → Integrity K × Result A IntegrityError
  unfolding close_keys
  fail e s = (close_keys s, err e)

  -- The new frame around a tag, which keeps the reservation.
  unfoldable pub sealed_frame :
      WireFrame → List ℕ → Integrity K → Integrity K × Result WireFrame IntegrityError
  sealed_frame f t s = elim (wire_frame f.header f.payload (some t)) [
    | err e ↦ (s, err (framing e))
    | ok g ↦ (record s { pending_send = true }, ok (record g { reservation = f.reservation }))
  ]

  unfoldable pub seal_with :
      Cryptography K
      → WireFrame
      → DirectionKeys K
      → Integrity K
      → Integrity K × Result WireFrame IntegrityError
  unfolding fail sealed_frame
  seal_with crypto f d s =
      elim (crypto.make_tag d.key (nonce d.nonce_prefix s.send_sequence) (authenticated_data f)) [
        | err e ↦ fail (dependency e) s
        | ok t ↦ sealed_frame f t s
      ]

  unfoldable pub seal :
      Cryptography K → WireFrame → Integrity K → Integrity K × Result WireFrame IntegrityError
  unfolding fail seal_with
  seal crypto f s = elim s.send [
    | none ↦ (s, err closed)
    | some d ↦
        if s.pending_send
        then (s, err busy)
        else if is_some f.tag
        then fail shape s
        else if s.send_sequence == 2 ^ 64 - 1
        then fail exhausted s
        else seal_with crypto f d s
  ]

  unfoldable pub sent_sealed : Integrity K → Integrity K × Result (Unit {0}) IntegrityError
  unfolding fail
  sent_sealed s =
      if not (is_some s.send)
      then (s, err closed)
      else if not s.pending_send
      then fail shape s
      else if ltb (s.send_sequence + 1) (2 ^ 64)
      then (record s { send_sequence = s.send_sequence + 1; pending_send = false }, ok tt)
      else (s, err exhausted)

  unfoldable pub verify_with :
      Cryptography K
      → WireFrame
      → DirectionKeys K
      → List ℕ
      → Integrity K
      → Integrity K × Result WireFrame IntegrityError
  unfolding fail
  verify_with crypto f d t s =
      elim (crypto.verify_tag d.key (nonce d.nonce_prefix s.receive_sequence) (authenticated_data f)
        t) [
          | err e ↦ fail (dependency e) s
          | ok u ↦
              if ltb (s.receive_sequence + 1) (2 ^ 64)
              then (record s { receive_sequence = s.receive_sequence + 1 }, ok f)
              else fail exhausted s
        ]

  unfoldable pub verify :
      Cryptography K → WireFrame → Integrity K → Integrity K × Result WireFrame IntegrityError
  unfolding fail verify_with
  verify crypto f s = elim s.receive [
    | none ↦ (s, err closed)
    | some d ↦ elim f.tag [ none ↦ fail shape s | some t ↦ verify_with crypto f d t s ]
  ]
