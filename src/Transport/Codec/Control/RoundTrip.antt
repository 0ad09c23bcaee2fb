-- ===== src/Transport/Codec/Control/RoundTrip.antt =====
-- The control codecs are canonical.
use talk_sphere.Base.{
  ℕ, ◌≡◌, ◌≤◌, ◌%◌, ◌↔◌, ◌≢◌, refl, Bool, true, false, List, [], ◌∷◌, ◌++◌, arith, ok, All, length,
  not, ◌&&◌,
}
use talk_sphere.Base.Bytes.{
  IsByte, IsU32, u16_of, u16_of-bytes, u16_bytes, u16_bytes-of, u32_of, u32_of-bytes, u32_bytes-of,
}
use talk_sphere.Transport.Codec.Text.{is_utf8, starts_with_bom}
use talk_sphere.Transport.Codec.Control.{
  ErrorCode, Diagnostic, GoAway, IsDiagnostic, as_u16, error_code_try_from, diagnostic_decode,
  is_code, diagnostic_encode, error_payload, error_decode, error_encode, go_away_decode,
  go_away_encode,
}

try_from-as_u16 : (c : ErrorCode) → error_code_try_from (as_u16 c) ≡ ok c
unfolding error_code_try_from
try_from-as_u16 = elim [ ErrorCode.no_error ↦ refl | _ ↦ refl ]

try_from_inv : (v : ℕ) (c : ErrorCode) → error_code_try_from v ≡ ok c → v ≡ as_u16 c
unfolding error_code_try_from
try_from_inv v c h = ground arith

diagnostic_decode-encode :
    (allow : Bool) (d : Diagnostic)
    → IsDiagnostic allow d
    → diagnostic_decode (diagnostic_encode d) allow ≡ ok d
unfolding diagnostic_decode diagnostic_encode
diagnostic_decode-encode allow d v =
    ground
      (arith, try_from-as_u16 d.code, u16_of-bytes (as_u16 d.code), u16_of-bytes (length d.reason))

-- The facts that a successful decoding has checked.
abbrev Checked : Bool → ℕ → ℕ → List ℕ → Diagnostic → Type 0
Checked allow code len text d =
    (code ≡ as_u16 d.code)
    × (text ≡ d.reason)
    × (length text ≡ len)
    × (len ≤ 1024)
    × (is_utf8 text ≡ true)
    × (starts_with_bom text ≡ false)
    × ((is_code d.code ErrorCode.no_error && not allow) ≡ false)

diagnostic-Checked :
    (allow : Bool) (c1 c0 n1 n0 : ℕ) (text : List ℕ) (d : Diagnostic)
    → diagnostic_decode (c1 ∷ c0 ∷ n1 ∷ n0 ∷ text) allow ≡ ok d
    → Checked allow (u16_of c1 c0) (u16_of n1 n0) text d
unfolding diagnostic_decode
diagnostic-Checked allow c1 c0 n1 n0 text d e = ground (arith, try_from_inv (u16_of c1 c0) d.code)

-- The two big-endian fields are the encodings of their values.
envelope :
    (c1 c0 n1 n0 code : ℕ) (text reason : List ℕ)
    → IsByte c1
    → IsByte c0
    → IsByte n1
    → IsByte n0
    → u16_of c1 c0 ≡ code
    → text ≡ reason
    → length text ≡ u16_of n1 n0
    → c1 ∷ c0 ∷ n1 ∷ n0 ∷ text ≡ u16_bytes code ++ (u16_bytes (length reason % 65536) ++ reason)
envelope c1 c0 n1 n0 code text reason h1 h2 h3 h4 ec et en =
    rw (← ec, ← et, en) (ground (arith, u16_bytes-of c1 c0 h1 h2, u16_bytes-of n1 n0 h3 h4))

diagnostic_decode_inv :
    (allow : Bool) (bytes : List ℕ) (d : Diagnostic)
    → All IsByte bytes
    → diagnostic_decode bytes allow ≡ ok d
    → IsDiagnostic allow d × (bytes ≡ diagnostic_encode d)
unfolding diagnostic_encode
diagnostic_decode_inv allow (c1 ∷ c0 ∷ n1 ∷ n0 ∷ text) d (h1, (h2, (h3, (h4, ht)))) e =
    let (code, reason, len, small, utf8, bom, allowed) =
      diagnostic-Checked allow c1 c0 n1 n0 text d e in
    (
      record {
        octets = rw reason at ht;
        utf8 = rw reason at utf8;
        bounded = rw reason at (let b : length text ≤ 1024 = omega arith in b);
        no_bom = rw reason at bom;
        code_allowed = allowed;
      },
      envelope c1 c0 n1 n0 (as_u16 d.code) text d.reason h1 h2 h3 h4 code reason len,
    )
diagnostic_decode_inv allow [] d h e = absurd (unfold diagnostic_decode in cc)
diagnostic_decode_inv allow bytes d h e = absurd (unfold diagnostic_decode in cc)

-- ERROR and CANCEL payloads: for octets, `decode` accepts exactly the encodings of the diagnostics
-- that `ErrorPayload::new` allows (a bounded UTF-8 reason without a BOM, any code but NO_ERROR).
pub error_decode_iff :
    (payload : List ℕ) (d : Diagnostic)
    → All IsByte payload
    → (error_decode payload ≡ ok d) ↔ (IsDiagnostic false d × (payload ≡ error_encode d))
unfolding error_decode error_encode
error_decode_iff payload d h =
    (diagnostic_decode_inv false payload d h, λ p. rw p.1 (diagnostic_decode-encode false d p.0))

go_away_decode-encode :
    (g : GoAway)
    → IsU32 g.last_accepted_remote_stream_id
    → IsDiagnostic true g.diagnostic
    → go_away_decode (go_away_encode g) ≡ ok g
unfolding go_away_decode go_away_encode
go_away_decode-encode g h v = ground (
  arith,
  u32_of-bytes g.last_accepted_remote_stream_id h,
  diagnostic_decode-encode true g.diagnostic v,
)

go_away_parts :
    (a b c d : ℕ) (rest : List ℕ) (g : GoAway)
    → go_away_decode (a ∷ b ∷ c ∷ d ∷ rest) ≡ ok g
    → (u32_of a b c d ≡ g.last_accepted_remote_stream_id)
      × (diagnostic_decode rest true ≡ ok g.diagnostic)
unfolding go_away_decode
go_away_parts a b c d (e ∷ f ∷ i ∷ j ∷ rest) g p = ground arith
go_away_parts a b c d rest g p = cc

go_away_decode_inv :
    (payload : List ℕ) (g : GoAway)
    → All IsByte payload
    → go_away_decode payload ≡ ok g
    → IsU32 g.last_accepted_remote_stream_id
      × IsDiagnostic true g.diagnostic
      × (payload ≡ go_away_encode g)
go_away_decode_inv (a ∷ b ∷ c ∷ d ∷ rest) g (ha, (hb, (hc, (hd, hr)))) p =
    let (id, diag) = go_away_parts a b c d rest g p in
    let (valid, same) = diagnostic_decode_inv true rest g.diagnostic hr diag in
    (
      omega arith,
      valid,
      unfold go_away_encode in rw (← id, ← same) (ground (arith, u32_bytes-of a b c d ha hb hc hd)),
    )
go_away_decode_inv [] g h p = absurd (unfold go_away_decode in cc)
go_away_decode_inv payload g h p = absurd (unfold go_away_decode in cc)

-- GOAWAY payloads: for octets, `decode` accepts exactly the encodings of a uint32 stream id and a
-- diagnostic that `GoAway::new` allows, NO_ERROR included.
pub go_away_decode_iff :
    (payload : List ℕ) (g : GoAway)
    → All IsByte payload
    → (go_away_decode payload ≡ ok g) ↔ (
        IsU32 g.last_accepted_remote_stream_id
        × IsDiagnostic true g.diagnostic
        × (payload ≡ go_away_encode g))
go_away_decode_iff payload g h =
    (go_away_decode_inv payload g h, λ p. rw p.2 (go_away_decode-encode g p.0 p.1))

-- What `ErrorPayload::new(code, "")` yields for the codes that the session sends.
pub error_payload_empty :
    (code : ErrorCode)
    → code ≢ ErrorCode.no_error
    → error_payload code [] ≡ ok (record { code = code; reason = [] })
unfolding error_payload starts_with_bom
error_payload_empty code h = ground arith
