-- ===== src/Transport/Codec/Hello/RoundTrip.antt =====
-- The HELLO codec is canonical.
use talk_sphere.Base.{
  ℕ, zero, suc, ◌≡◌, ◌↔◌, refl, ap, ◌∙◌, List, [], ◌∷◌, ◌++◌, arith, ok, length, length-append,
  length-take, length-drop, take, drop, take-append-drop, take-append, drop-append, take_all, All,
  ◌+◌, ◌<◌, ◌==◌, ==_iff, ensure-eq_ok, >>-eq_ok, ok-injective, slice, get_or,
}
use mathlib.Core.Path.{subst}
use Prim.Native.Nat.add
use talk_sphere.Transport.Codec.Hello.{Hello, IsHello, check_selectors, hello_encode, hello_decode}

get_or-append : (n : ℕ) (xs ys : List ℕ) (y : ℕ) → length xs ≡ n → get_or (xs ++ y ∷ ys) n 0 ≡ y
get_or-append zero [] ys y h = refl
get_or-append zero (x ∷ xs) ys y h = absurd (omega arith)
get_or-append (suc n) [] ys y h = absurd (omega arith)
get_or-append (suc n) (x ∷ xs) ys y h = get_or-append n xs ys y (omega arith)

drop-append_suc :
    (n : ℕ) (xs ys : List ℕ) (y : ℕ) → length xs ≡ n → drop (suc n) (xs ++ y ∷ ys) ≡ ys
drop-append_suc zero [] ys y h = refl
drop-append_suc zero (x ∷ xs) ys y h = absurd (omega arith)
drop-append_suc (suc n) [] ys y h = absurd (omega arith)
drop-append_suc (suc n) (x ∷ xs) ys y h = drop-append_suc n xs ys y (omega arith)

drop-drop : (n m : ℕ) (xs : List ℕ) → drop (n + m) xs ≡ drop m (drop n xs)
drop-drop zero m xs = rw (add.zero m)
drop-drop (suc n) zero [] = rw (add.suc n zero)
drop-drop (suc n) (suc m) [] = rw (add.suc n (suc m))
drop-drop (suc n) m (x ∷ xs) = rw (add.suc n m) (drop-drop n m xs)

-- What `decode` looks at.
hello_decode_at :
    (bytes : List ℕ) (h : Hello)
    → length bytes ≡ 100
    → get_or bytes 0 0 ≡ 1
    → get_or bytes 1 0 ≡ 1
    → get_or bytes 2 0 ≡ 1
    → get_or bytes 35 0 ≡ 1
    → slice 3 35 bytes ≡ h.identity_public_key
    → slice 36 68 bytes ≡ h.ephemeral_public_key
    → slice 68 100 bytes ≡ h.nonce
    → hello_decode bytes ≡ ok h
unfolding hello_decode
hello_decode_at bytes h len s0 s1 s2 s35 id eph nonce =
    rw (len, s0, s1, s2, s35, id, eph, nonce) refl

pub hello_decode-encode : (h : Hello) → IsHello h → hello_decode (hello_encode h) ≡ ok h
unfolding hello_encode
hello_decode-encode h v =
    let id = h.identity_public_key in
    let eph = h.ephemeral_public_key in
    let more : List ℕ = eph ++ h.nonce in
    let past_id : drop 33 (id ++ 1 ∷ more) ≡ more = drop-append_suc 32 id more 1 v.identity_width in
    let past_eph : drop 65 (id ++ 1 ∷ more) ≡ h.nonce =
      drop-drop 33 32 (id ++ 1 ∷ more)
      ∙ ap (drop 32) past_id
      ∙ drop-append 32 eph h.nonce v.ephemeral_width in
    hello_decode_at _ h (omega (arith, length-append id (1 ∷ more), length-append eph h.nonce)) refl
      refl refl (get_or-append 32 id more 1 v.identity_width)
      (take-append 32 id (1 ∷ more) v.identity_width)
      (ap (take 32) past_id ∙ take-append 32 eph h.nonce v.ephemeral_width)
      (ap (take 32) past_eph ∙ take_all 32 h.nonce v.nonce_width)

-- The list around its element at `n`.
split_at : (n : ℕ) (xs : List ℕ) → n < length xs → xs ≡ take n xs ++ get_or xs n 0 ∷ drop (suc n) xs
split_at n [] h = elim h [ ]
split_at zero (x ∷ xs) h = refl
split_at (suc n) (x ∷ xs) h = ap (◌∷◌ x) (split_at n xs (omega arith))

-- The pieces between the selectors, put together again.
assemble :
    (rest : List ℕ)
    → length rest ≡ 97
    → get_or rest 32 0 ≡ 1
    → rest ≡ take 32 rest ++ 1 ∷ (take 32 (drop 33 rest) ++ take 32 (drop 65 rest))
assemble rest h s =
    split_at 32 rest (omega arith)
    ∙ cc (
      s,
      drop-drop 33 32 rest,
      take-append-drop 32 (drop 33 rest),
      take_all 32 (drop 65 rest) (omega (arith, length-drop 65 rest)),
    )

check_selectors_inv :
    (offsets bytes : List ℕ)
    → check_selectors offsets bytes ≡ ok tt
    → All (λ o. get_or bytes o 0 ≡ 1) offsets
unfolding check_selectors
check_selectors_inv [] bytes h = tt
check_selectors_inv (o ∷ rest) bytes h = ground (arith, check_selectors_inv rest bytes)

hello_checked :
    (bytes : List ℕ) (h : Hello)
    → hello_decode bytes ≡ ok h
    → (length bytes ≡ 100)
      × All (λ o. get_or bytes o 0 ≡ 1) (0 ∷ 1 ∷ 2 ∷ 35 ∷ [])
      × (record {
        identity_public_key = slice 3 35 bytes;
        ephemeral_public_key = slice 36 68 bytes;
        nonce = slice 68 100 bytes;
      }
          ≡ h)
unfolding hello_decode
hello_checked bytes h e =
    let (len, e') = ensure-eq_ok (length bytes == 100) _ _ h e in
    let (selectors, made) = >>-eq_ok (check_selectors (0 ∷ 1 ∷ 2 ∷ 35 ∷ []) bytes) _ h e' in
    (
      (==_iff _ 100).0 len,
      check_selectors_inv (0 ∷ 1 ∷ 2 ∷ 35 ∷ []) bytes selectors,
      ok-injective _ h made,
    )

hello_decode_inv :
    (bytes : List ℕ) (h : Hello) → hello_decode bytes ≡ ok h → IsHello h × (bytes ≡ hello_encode h)
unfolding hello_encode
hello_decode_inv (b0 ∷ b1 ∷ b2 ∷ rest) h e =
    let (len, (s0, (s1, (s2, (s35, _)))), made) = hello_checked (b0 ∷ b1 ∷ b2 ∷ rest) h e in
    let whole = assemble rest (omega arith) s35 in
    subst (λ (g : Hello). IsHello g × (b0 ∷ b1 ∷ b2 ∷ rest ≡ hello_encode g)) made
      (
        record {
          identity_width = omega (arith, length-take 32 rest);
          ephemeral_width = omega (arith, length-take 32 (drop 33 rest), length-drop 33 rest);
          nonce_width = omega (arith, length-take 32 (drop 65 rest), length-drop 65 rest);
        },
        cc (s0, s1, s2, whole),
      )
hello_decode_inv [] h e = absurd (omega (arith, (hello_checked [] h e).0))
hello_decode_inv bytes h e = absurd (omega (arith, (hello_checked bytes h e).0))

-- HELLO payloads: `decode` accepts exactly the 100-octet encodings of its three 32-octet fields with
-- every selector one.
pub hello_decode_iff :
    (payload : List ℕ) (h : Hello)
    → (hello_decode payload ≡ ok h) ↔ (IsHello h × (payload ≡ hello_encode h))
hello_decode_iff payload h = (hello_decode_inv payload h, λ p. rw p.1 (hello_decode-encode h p.0))
