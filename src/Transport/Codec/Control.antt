-- ===== src/Transport/Codec/Control.antt =====
-- Control payloads: src/modules/transport/codec/control/{mod,error,error_code,diagnostic,goaway,ping}.rs.
pub mod RoundTrip
use talk_sphere.Base.{
  ℕ, ◌+◌, ◌/◌, ◌%◌, ◌≤◌, ◌≡◌, ◌⊎◌, Bool, true, false, not, ◌&&◌, ◌||◌, List, [], ◌∷◌, ◌++◌, leb,
  ◌==◌, if◌then◌else◌, Result, ok, err, ◌>>=◌, ◌>>◌, ensure, map_err, length, All,
}
use talk_sphere.Base.Bytes.{u16_of, u32_of, u16_bytes, u32_bytes, IsU32, IsByte}
use talk_sphere.Transport.Codec.Text.{is_utf8, starts_with_bom}

pub data ErrorCode : Type 0 where
  no_error protocol_error authentication_failed frame_size_error unsupported_protocol : ErrorCode
  stream_state_error refused_stream internal_error id_exhausted cancelled resource_limit : ErrorCode

pub data PayloadError : Type 0 where
  too_short : ℕ → ℕ → PayloadError
  length_mismatch : ℕ → ℕ → PayloadError
  reason_too_long : ℕ → PayloadError
  invalid_utf8 byte_order_mark : PayloadError
  unknown_code : ℕ → PayloadError
  no_error_forbidden : PayloadError

abbrev pub max_reason_bytes : ℕ
max_reason_bytes = 1024

-- The discriminant, `self.code as u16`.
abbrev pub as_u16 : ErrorCode → ℕ
as_u16 no_error = 0
as_u16 protocol_error = 1
as_u16 authentication_failed = 2
as_u16 frame_size_error = 3
as_u16 unsupported_protocol = 4
as_u16 stream_state_error = 5
as_u16 refused_stream = 6
as_u16 internal_error = 7
as_u16 id_exhausted = 8
as_u16 cancelled = 9
as_u16 resource_limit = 10

-- The derived equality of the fieldless enum.
abbrev pub is_code : ErrorCode → ErrorCode → Bool
is_code a b = as_u16 a == as_u16 b

unfoldable pub error_code_try_from : ℕ → Result ErrorCode PayloadError
error_code_try_from value =
    if value == 0
    then ok no_error
    else if value == 1
    then ok protocol_error
    else if value == 2
    then ok authentication_failed
    else if value == 3
    then ok frame_size_error
    else if value == 4
    then ok unsupported_protocol
    else if value == 5
    then ok stream_state_error
    else if value == 6
    then ok refused_stream
    else if value == 7
    then ok internal_error
    else if value == 8
    then ok id_exhausted
    else if value == 9
    then ok cancelled
    else if value == 10
    then ok resource_limit
    else err (unknown_code value)

pub record Diagnostic : Type 0 where
  pub code : ErrorCode
  pub reason : List ℕ

unfoldable pub diagnostic : ErrorCode → List ℕ → Bool → Result Diagnostic PayloadError
diagnostic code reason allow_no_error = do
  ensure (leb (length reason) max_reason_bytes) (reason_too_long (length reason))
  ensure (not (starts_with_bom reason)) byte_order_mark
  ensure (not (is_code code no_error && not allow_no_error)) no_error_forbidden
  ok (record { code = code; reason = reason })

unfoldable pub diagnostic_decode : List ℕ → Bool → Result Diagnostic PayloadError
unfolding diagnostic
diagnostic_decode (c1 ∷ c0 ∷ n1 ∷ n0 ∷ text) allow_no_error = do
  let reason_len = u16_of n1 n0
  ensure (leb reason_len max_reason_bytes) (reason_too_long reason_len)
  ensure (length (c1 ∷ c0 ∷ n1 ∷ n0 ∷ text) == 4 + reason_len)
      (length_mismatch (4 + reason_len) (length (c1 ∷ c0 ∷ n1 ∷ n0 ∷ text)))
  ensure (is_utf8 text) invalid_utf8
  code ← error_code_try_from (u16_of c1 c0)
  diagnostic code text allow_no_error
diagnostic_decode payload allow_no_error = err (too_short 4 (length payload))

-- `append_to` on an empty buffer.
unfoldable pub diagnostic_encode : Diagnostic → List ℕ
diagnostic_encode d = u16_bytes (as_u16 d.code) ++ (u16_bytes (length d.reason % 65536) ++ d.reason)

-- `ErrorPayload` wraps a diagnostic that may not be NO_ERROR.
unfoldable pub error_payload : ErrorCode → List ℕ → Result Diagnostic PayloadError
unfolding diagnostic
error_payload code reason = diagnostic code reason false

unfoldable pub error_decode : List ℕ → Result Diagnostic PayloadError
unfolding diagnostic_decode
error_decode payload = diagnostic_decode payload false

unfoldable pub error_encode : Diagnostic → List ℕ
unfolding diagnostic_encode
error_encode d = diagnostic_encode d

pub record GoAway : Type 0 where
  pub last_accepted_remote_stream_id : ℕ
  pub diagnostic : Diagnostic

unfoldable pub go_away : ℕ → ErrorCode → List ℕ → Result GoAway PayloadError
unfolding diagnostic
go_away last code reason = do
  d ← diagnostic code reason true
  ok (record { last_accepted_remote_stream_id = last; diagnostic = d })

-- The nested envelope's sizes become those of the whole payload.
abbrev pub whole_size : PayloadError → PayloadError
whole_size (length_mismatch expected actual) = length_mismatch (expected + 4) (actual + 4)
whole_size other = other

unfoldable pub go_away_decode : List ℕ → Result GoAway PayloadError
unfolding diagnostic_decode
go_away_decode (a ∷ b ∷ c ∷ d ∷ e ∷ f ∷ g ∷ h ∷ rest) = do
  diag ← map_err whole_size (diagnostic_decode (e ∷ f ∷ g ∷ h ∷ rest) true)
  ok (record { last_accepted_remote_stream_id = u32_of a b c d; diagnostic = diag })
go_away_decode payload = err (too_short 8 (length payload))

unfoldable pub go_away_encode : GoAway → List ℕ
unfolding diagnostic_encode
go_away_encode g = u32_bytes g.last_accepted_remote_stream_id ++ diagnostic_encode g.diagnostic

-- `PingToken` holds its eight octets; decoding checks that there are eight.
unfoldable pub ping_token_decode : List ℕ → Result (List ℕ) PayloadError
ping_token_decode payload = do
  ensure (length payload == 8) (length_mismatch 8 (length payload))
  ok payload

-- The diagnostics that `Diagnostic::new` returns, over a well-formed `str`.
pub record IsDiagnostic (allow_no_error : Bool) (d : Diagnostic) : Type 0 where
  pub octets : All IsByte d.reason
  pub utf8 : is_utf8 d.reason ≡ true
  pub bounded : length d.reason ≤ max_reason_bytes
  pub no_bom : starts_with_bom d.reason ≡ false
  pub code_allowed : (is_code d.code no_error && not allow_no_error) ≡ false
