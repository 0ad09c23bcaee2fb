-- ===== src/Base/Bytes.antt =====
-- Octets and the big-endian integers that `to_be_bytes` and `from_be_bytes` convert.
use Prim.Native.Nat.{ℕ, ◌+◌, ◌*◌, ◌/◌, ◌%◌, ◌^◌, ◌<◌}
use mathlib.Core.Path.{◌≡◌}
use mathlib.Core.List.{List, [], ◌∷◌}
use native.Mathlib.Omega.{arith}

abbrev pub IsByte : ℕ → Type 0
IsByte b = b < 256

abbrev pub IsU16 : ℕ → Type 0
IsU16 n = n < 2 ^ 16

abbrev pub IsU32 : ℕ → Type 0
IsU32 n = n < 2 ^ 32

abbrev pub IsU64 : ℕ → Type 0
IsU64 n = n < 2 ^ 64

abbrev pub u16_bytes : ℕ → List ℕ
u16_bytes n = n / 256 % 256 ∷ n % 256 ∷ []

abbrev pub u32_bytes : ℕ → List ℕ
u32_bytes n = n / 16777216 % 256 ∷ n / 65536 % 256 ∷ n / 256 % 256 ∷ n % 256 ∷ []

abbrev pub u16_of : ℕ → ℕ → ℕ
u16_of a b = a * 256 + b

abbrev pub u32_of : ℕ → ℕ → ℕ → ℕ → ℕ
u32_of a b c d = a * 16777216 + b * 65536 + c * 256 + d

pub u32_of-bytes :
    (n : ℕ) → IsU32 n → u32_of (n / 16777216 % 256) (n / 65536 % 256) (n / 256 % 256) (n % 256) ≡ n
u32_of-bytes n h = omega arith

pub u16_of-bytes : (n : ℕ) → IsU16 n → u16_of (n / 256 % 256) (n % 256) ≡ n
u16_of-bytes n h = omega arith

pub u32_bytes-of :
    (a b c d : ℕ)
    → IsByte a
    → IsByte b
    → IsByte c
    → IsByte d
    → (u32_of a b c d / 16777216 % 256 ≡ a)
      × (u32_of a b c d / 65536 % 256 ≡ b)
      × (u32_of a b c d / 256 % 256 ≡ c)
      × (u32_of a b c d % 256 ≡ d)
u32_bytes-of a b c d ha hb hc hd = (omega arith, omega arith, omega arith, omega arith)

pub u16_bytes-of :
    (a b : ℕ) → IsByte a → IsByte b → (u16_of a b / 256 % 256 ≡ a) × (u16_of a b % 256 ≡ b)
u16_bytes-of a b ha hb = (omega arith, omega arith)
