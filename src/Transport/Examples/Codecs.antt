-- ===== src/Transport/Examples/Codecs.antt =====
-- The theorems of the codecs at concrete inputs.
use talk_sphere.Base.{ℕ, ◌≡◌, ◌↔◌, true, false, List, [], ◌∷◌, ok, arith}
use talk_sphere.Base.Bytes.{IsU32}
use talk_sphere.Transport.Codec.Frames.{IsValid, decode, encode}
use talk_sphere.Transport.Codec.Frames.RoundTrip.{decode_iff}
use talk_sphere.Transport.Codec.Control.{
  ErrorCode, Diagnostic, GoAway, IsDiagnostic, error_decode, error_encode, go_away_decode,
  go_away_encode,
}
use talk_sphere.Transport.Codec.Control.RoundTrip.{error_decode_iff, go_away_decode_iff}
use talk_sphere.Transport.Codec.Hello.{Hello, IsHello, hello_decode, hello_encode}
use talk_sphere.Transport.Codec.Hello.RoundTrip.{hello_decode_iff}
use talk_sphere.Transport.Codec.Opening.{Open, IsOpen, open_decode, open_encode}
use talk_sphere.Transport.Codec.Opening.RoundTrip.{open_decode_iff}
use talk_sphere.Transport.Examples.Sessions.{opening_payload, data_header}

abbrev data_bytes : List ℕ
data_bytes = 1 ∷ 0x11 ∷ 0 ∷ 0 ∷ 0 ∷ 0 ∷ 0 ∷ 2 ∷ 0 ∷ 0 ∷ 0 ∷ 3 ∷ []

decode_iff_example :
    (decode data_bytes ≡ ok data_header) ↔ (IsValid data_header × (data_bytes ≡ encode data_header))
decode_iff_example = decode_iff data_bytes data_header (ground arith)

abbrev selection : Open
selection = record { id = b'a' ∷ []; version = 1 }

open_decode_iff_example :
    (open_decode opening_payload ≡ ok selection)
    ↔ (IsOpen selection × (opening_payload ≡ open_encode selection))
open_decode_iff_example = open_decode_iff opening_payload selection (ground arith)

abbrev diagnostic : Diagnostic
diagnostic = record { code = ErrorCode.cancelled; reason = [] }

abbrev diagnostic_bytes : List ℕ
diagnostic_bytes = 0 ∷ 9 ∷ 0 ∷ 0 ∷ []

error_decode_iff_example :
    (error_decode diagnostic_bytes ≡ ok diagnostic)
    ↔ (IsDiagnostic false diagnostic × (diagnostic_bytes ≡ error_encode diagnostic))
error_decode_iff_example = error_decode_iff diagnostic_bytes diagnostic (ground arith)

abbrev departure : GoAway
departure = record { last_accepted_remote_stream_id = 2; diagnostic = diagnostic }

abbrev departure_bytes : List ℕ
departure_bytes = 0 ∷ 0 ∷ 0 ∷ 2 ∷ 0 ∷ 9 ∷ 0 ∷ 0 ∷ []

go_away_decode_iff_example :
    (go_away_decode departure_bytes ≡ ok departure)
    ↔ (IsU32 2 × IsDiagnostic true diagnostic × (departure_bytes ≡ go_away_encode departure))
go_away_decode_iff_example = go_away_decode_iff departure_bytes departure (ground arith)

abbrev octets : List ℕ
octets =
    7 ∷ 7 ∷ 7 ∷ 7 ∷ 7 ∷ 7 ∷ 7 ∷ 7 ∷ 7 ∷ 7 ∷ 7 ∷ 7 ∷ 7 ∷ 7 ∷ 7 ∷ 7 ∷ 7 ∷ 7 ∷ 7 ∷ 7 ∷ 7 ∷ 7 ∷ 7 ∷ 7
    ∷ 7 ∷ 7 ∷ 7 ∷ 7 ∷ 7 ∷ 7 ∷ 7 ∷ 7 ∷ []

abbrev greeting : Hello
greeting = record { identity_public_key = octets; ephemeral_public_key = octets; nonce = octets }

hello_decode_iff_example :
    (hello_decode (hello_encode greeting) ≡ ok greeting)
    ↔ (IsHello greeting × (hello_encode greeting ≡ hello_encode greeting))
hello_decode_iff_example = hello_decode_iff (hello_encode greeting) greeting
