-- ===== src/Transport/Failures.antt =====
-- Classification of connection failures: src/modules/transport/failure.rs, and the errors of
-- handshake/state.rs that it classifies.
use talk_sphere.Base.{◌≡◌, refl, Bool, true, false, Option, none, some, if◌then◌else◌, arith}
use talk_sphere.Transport.Api.{Failure, FailureCode, FailureOrigin}
use talk_sphere.Transport.Codec.Frames.{HeaderError}
use talk_sphere.Transport.Codec.Control.{ErrorCode}
use talk_sphere.Transport.Codec.Hello.{HandshakePayloadError}
use talk_sphere.Transport.Framing.{FramingError}
use talk_sphere.Transport.Integrity.{DependencyError, IntegrityError}
use talk_sphere.Transport.Session.Lifecycle.{failure_code}

pub data HandshakeError : Type 0 where
  order : HandshakeError
  peer : ErrorCode → HandshakeError
  payload : HandshakePayloadError → HandshakeError
  unexpected_identity : HandshakeError
  dependency : DependencyError → HandshakeError
  framing : FramingError → HandshakeError

pub record Disposition : Type 0 where
  pub failure : Failure
  pub response : Option ErrorCode

abbrev pub local_failure : FailureCode → Option ErrorCode → Disposition
local_failure code response = record {
  failure = record { origin = FailureOrigin.local; code = code };
  response = response;
}

unfoldable pub framing_disposition : FramingError → Disposition
framing_disposition (FramingError.bad_header (HeaderError.unsupported_version v)) =
    local_failure FailureCode.protocol_violation none
framing_disposition (FramingError.bad_header (HeaderError.payload_too_large n)) =
    local_failure FailureCode.frame_too_large (some ErrorCode.frame_size_error)
framing_disposition (FramingError.bad_header e) =
    local_failure FailureCode.protocol_violation (some ErrorCode.protocol_error)
framing_disposition FramingError.truncated = local_failure FailureCode.truncated_frame none
framing_disposition (FramingError.io kind) = local_failure FailureCode.connection_lost none
framing_disposition FramingError.closed = local_failure FailureCode.connection_lost none
framing_disposition FramingError.phase_changed = local_failure FailureCode.internal none
framing_disposition FramingError.shape = local_failure FailureCode.internal none
framing_disposition FramingError.busy = local_failure FailureCode.internal none

unfoldable pub handshake_disposition : HandshakeError → Disposition
unfolding framing_disposition
handshake_disposition (peer code) = record {
  failure = record { origin = FailureOrigin.peer; code = failure_code code };
  response = none;
}
handshake_disposition (framing e) = framing_disposition e
handshake_disposition order =
    local_failure FailureCode.protocol_violation (some ErrorCode.protocol_error)
handshake_disposition (payload e) =
    local_failure FailureCode.protocol_violation (some ErrorCode.protocol_error)
handshake_disposition e =
    local_failure FailureCode.authentication_failed (some ErrorCode.authentication_failed)

unfoldable pub integrity_disposition : IntegrityError → Disposition
integrity_disposition IntegrityError.exhausted = local_failure FailureCode.sequence_exhausted none
integrity_disposition e = local_failure FailureCode.integrity_failed none

unfoldable pub with_safe_output : Bool → Disposition → Disposition
with_safe_output safe d = if safe then d else record d { response = none }

-- A response that the peer turns into the failure that is reported locally.
abbrev pub IsAgreed : Disposition → Type 0
IsAgreed d =
    (code : ErrorCode)
    → d.response ≡ some code
    → (d.failure.origin ≡ FailureOrigin.local) × (failure_code code ≡ d.failure.code)

framing_disposition-IsAgreed : (e : FramingError) → IsAgreed (framing_disposition e)
unfolding framing_disposition failure_code
framing_disposition-IsAgreed e code h = ground (arith, h)

handshake_disposition-IsAgreed : (e : HandshakeError) → IsAgreed (handshake_disposition e)
unfolding handshake_disposition failure_code
handshake_disposition-IsAgreed (framing e) code h = framing_disposition-IsAgreed e code h
handshake_disposition-IsAgreed e code h = ground (arith, h)

-- A failure of framing or of the handshake is answered only where it is a local one, and then with the code that
-- the receiving peer classifies as the same failure; an integrity failure is never answered, and nothing is
-- answered once output is unsafe.
pub responses_agree :
    (e : FramingError) (h : HandshakeError) (i : IntegrityError) (safe : Bool)
    → IsAgreed (with_safe_output safe (framing_disposition e))
      × IsAgreed (with_safe_output safe (handshake_disposition h))
      × ((integrity_disposition i).response ≡ none)
      × ((with_safe_output false (handshake_disposition h)).response ≡ none)
unfolding with_safe_output integrity_disposition
responses_agree e h i true =
    (framing_disposition-IsAgreed e, handshake_disposition-IsAgreed h, ground arith, refl)
responses_agree e h i false =
    (λ code p. ground (arith, p), λ code p. ground (arith, p), ground arith, refl)
