-- ===== src/Transport/Codec/Opening/RoundTrip.antt =====
-- The OPEN codec is canonical.
use talk_sphere.Base.{
  ℕ, ◌≡◌, ◌↔◌, refl, ◌∙◌, List, [], ◌∷◌, ◌++◌, arith, ok, length, length-append, length-take,
  length-drop, take, drop, take-append-drop, take-append, drop-append, All, All-drop, not,
  ensure-eq_ok, ok-injective, true, Bool, ◌&&◌, ◌||◌, ◌==◌, ◌≤◌, ◌+◌,
}
use mathlib.Core.Path.{subst}
use talk_sphere.Base.Bytes.{
  IsByte, IsU32, u16_of, u16_of-bytes, u32_of-bytes, u16_bytes-of, u32_bytes-of, u32_bytes,
}
use talk_sphere.Transport.Codec.Text.{in_range, is_utf8, utf8_from}
use talk_sphere.Transport.Codec.Opening.{
  Open, IsOpen, alphanumeric, all_allowed, in_length, is_identifier, bad_length, bad_identifier,
  bad_version, open_new, open_encode, open_decode, version_of,
}

-- Identifiers are ASCII, so they are UTF-8.
ascii_range : (b : ℕ) → b ≤ 127 → in_range 0 0x7f b ≡ true
ascii_range b h = ground arith

allowed_ascii : (b : ℕ) → (alphanumeric b || (b == b'.' || b == b'-')) ≡ true → b ≤ 127
allowed_ascii b h = ground arith

utf8-ascii : (b : ℕ) (bs : List ℕ) → b ≤ 127 → utf8_from [] (b ∷ bs) ≡ utf8_from [] bs
unfolding utf8_from
utf8-ascii b bs h = rw (ascii_range b h, utf8_from)

&&-split : (a b : Bool) → (a && b) ≡ true → (a ≡ true) × (b ≡ true)
&&-split a b h = ground arith

utf8-all_allowed : (id : List ℕ) → all_allowed id ≡ true → utf8_from [] id ≡ true
utf8-all_allowed [] h = unfold utf8_from in refl
utf8-all_allowed (b ∷ bs) h =
    let (first, others) = &&-split _ _ h in
    utf8-ascii b bs (allowed_ascii b first) ∙ utf8-all_allowed bs others

utf8-IsOpen : (o : Open) → IsOpen o → is_utf8 o.id ≡ true
unfolding is_utf8
utf8-IsOpen o v = utf8-all_allowed o.id (ground arith)

pub open_decode-encode : (o : Open) → IsOpen o → open_decode (open_encode o) ≡ ok o
unfolding open_decode open_encode open_new
open_decode-encode o v = ground (
  arith,
  utf8-IsOpen o v,
  u16_of-bytes (length o.id),
  u32_of-bytes o.version v.version_fits,
  length-append o.id (u32_bytes o.version),
  take-append (length o.id) o.id (u32_bytes o.version) refl,
  drop-append (length o.id) o.id (u32_bytes o.version) refl,
)

opening_inv :
    (l1 l0 : ℕ) (rest : List ℕ) (o : Open)
    → open_decode (l1 ∷ l0 ∷ rest) ≡ ok o
    → (1 ≤ u16_of l1 l0)
      × (u16_of l1 l0 ≤ 255)
      × (length rest ≡ u16_of l1 l0 + 4)
      × (open_new (take (u16_of l1 l0) rest) (version_of (drop (u16_of l1 l0) rest)) ≡ ok o)
unfolding open_decode
opening_inv l1 l0 rest o e = ground arith

open_new_inv :
    (id : List ℕ) (version : ℕ) (o : Open)
    → IsU32 version
    → open_new id version ≡ ok o
    → IsOpen o × (id ≡ o.id) × (version ≡ o.version)
unfolding open_new
open_new_inv id version o h e =
    let (len, e') = ensure-eq_ok (in_length (length id)) bad_length _ o e in
    let (grammar, e'') = ensure-eq_ok (is_identifier id) bad_identifier _ o e' in
    let (nonzero, same) = ensure-eq_ok (not (version == 0)) bad_version _ o e'' in
    let made : Open = record { id = id; version = version } in
    let made-IsOpen : IsOpen made = record {
      id_nonempty = ground (arith, len);
      id_bounded = ground (arith, len);
      identifier = grammar;
      version_nonzero = ground (arith, nonzero);
      version_fits = h;
    } in
    subst (λ p. IsOpen p × (id ≡ p.id) × (version ≡ p.version)) (ok-injective made o same)
      (made-IsOpen, refl, refl)

four :
    (xs : List ℕ)
    → length xs ≡ 4
    → All IsByte xs
    → IsU32 (version_of xs) × (u32_bytes (version_of xs) ≡ xs)
four (a ∷ b ∷ c ∷ d ∷ []) h (ha, (hb, (hc, (hd, _)))) =
    (omega arith, ground (arith, u32_bytes-of a b c d ha hb hc hd))
four [] h p = absurd (omega arith)
four xs h p = absurd (omega arith)

-- Both parts of an accepted payload come back from its octets.
opening_parts :
    (l1 l0 : ℕ) (id tail rest : List ℕ) (o : Open)
    → IsByte l1
    → IsByte l0
    → id ++ tail ≡ rest
    → length id ≡ u16_of l1 l0
    → u32_bytes (version_of tail) ≡ tail
    → id ≡ o.id
    → version_of tail ≡ o.version
    → l1 ∷ l0 ∷ rest ≡ open_encode o
unfolding open_encode
opening_parts l1 l0 id tail rest o h1 h0 whole len tail_eq id_eq version_eq =
    rw (← whole, ← id_eq, ← version_eq, tail_eq, len) (ground (arith, u16_bytes-of l1 l0 h1 h0))

open_decode_inv :
    (bytes : List ℕ) (o : Open)
    → All IsByte bytes
    → open_decode bytes ≡ ok o
    → IsOpen o × (bytes ≡ open_encode o)
open_decode_inv (l1 ∷ l0 ∷ rest) o (h1, (h0, hr)) e =
    let n : ℕ = u16_of l1 l0 in
    let (lo, hi, len, made) = opening_inv l1 l0 rest o e in
    let (fits, tail_eq) =
      four (drop n rest) (omega (arith, length-drop n rest)) (All-drop IsByte n rest hr) in
    let (valid, id_eq, version_eq) =
      open_new_inv (take n rest) (version_of (drop n rest)) o fits made in
    (
      valid,
      opening_parts l1 l0 (take n rest) (drop n rest) rest o h1 h0 (take-append-drop n rest)
          (omega (arith, length-take n rest)) tail_eq id_eq version_eq,
    )
open_decode_inv [] o h e = absurd (unfold open_decode in cc)
open_decode_inv bytes o h e = absurd (unfold open_decode in cc)

-- OPEN payloads: for octets, `decode` accepts exactly the encodings of the selections that
-- `Open::new` allows (1 to 255 octets of the namespace grammar, and a nonzero uint32 version).
pub open_decode_iff :
    (payload : List ℕ) (o : Open)
    → All IsByte payload
    → (open_decode payload ≡ ok o) ↔ (IsOpen o × (payload ≡ open_encode o))
open_decode_iff payload o h = (open_decode_inv payload o h, λ p. rw p.1 (open_decode-encode o p.0))
