-- ===== src/Transport/Codec/Text.antt =====
-- What the codecs use of Rust's `str`: a `&str` is the list of its UTF-8 octets, `from_utf8` accepts
-- the well-formed sequences, and `starts_with('\u{feff}')` looks for the three octets of a BOM.
use talk_sphere.Base.{
  ℕ, ◌≡◌, refl, Bool, true, false, ◌&&◌, List, [], ◌∷◌, Option, none, some, leb, ◌==◌,
  if◌then◌else◌,
}

abbrev pub in_range : ℕ → ℕ → ℕ → Bool
in_range lo hi b = leb lo b && leb b hi

-- The ranges of the octets that must follow a first octet.
abbrev pub continuation : ℕ → Option (List (ℕ × ℕ))
continuation b =
    if in_range 0 0x7f b
    then some []
    else if in_range 0xc2 0xdf b
    then some ((0x80, 0xbf) ∷ [])
    else if b == 0xe0
    then some ((0xa0, 0xbf) ∷ (0x80, 0xbf) ∷ [])
    else if b == 0xed
    then some ((0x80, 0x9f) ∷ (0x80, 0xbf) ∷ [])
    else if in_range 0xe1 0xef b
    then some ((0x80, 0xbf) ∷ (0x80, 0xbf) ∷ [])
    else if b == 0xf0
    then some ((0x90, 0xbf) ∷ (0x80, 0xbf) ∷ (0x80, 0xbf) ∷ [])
    else if in_range 0xf1 0xf3 b
    then some ((0x80, 0xbf) ∷ (0x80, 0xbf) ∷ (0x80, 0xbf) ∷ [])
    else if b == 0xf4
    then some ((0x80, 0x8f) ∷ (0x80, 0xbf) ∷ (0x80, 0xbf) ∷ [])
    else none

-- The first list holds the ranges that the current character still expects.
unfoldable pub utf8_from : List (ℕ × ℕ) → List ℕ → Bool
utf8_from [] [] = true
utf8_from (r ∷ rs) [] = false
utf8_from [] (b ∷ bs) = elim (continuation b) [ none ↦ false | some rs ↦ utf8_from rs bs ]
utf8_from ((lo, hi) ∷ rs) (b ∷ bs) = in_range lo hi b && utf8_from rs bs

unfoldable pub is_utf8 : List ℕ → Bool
unfolding utf8_from
is_utf8 bytes = utf8_from [] bytes

unfoldable pub starts_with_bom : List ℕ → Bool
starts_with_bom (a ∷ b ∷ c ∷ rest) = a == 0xef && (b == 0xbb && c == 0xbf)
starts_with_bom _ = false

utf8_euro : is_utf8 (0xe2 ∷ 0x82 ∷ 0xac ∷ []) ≡ true
unfolding is_utf8
utf8_euro = refl

utf8_surrogate : is_utf8 (0xed ∷ 0xa0 ∷ 0x80 ∷ []) ≡ false
unfolding is_utf8
utf8_surrogate = refl
