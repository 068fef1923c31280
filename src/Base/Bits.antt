-- ===== src/Base/Bits.antt =====
-- Words and bits: casts to fixed widths, shifts, and the `|` of disjoint fields.
use Prim.Native.Nat.{
  ℕ, zero, suc, ◌+◌, ◌*◌, ◌/◌, ◌%◌, ◌^◌, ◌≤◌, ◌<◌, max, bit_or, digits, bit_or-bitwise,
}
use mathlib.Core.Path.{◌≡◌, refl, ap, ◌∙◌}
use native.Mathlib.Nat.{pow-suc}
use native.Mathlib.Omega.{arith}

abbrev pub u8 : ℕ → ℕ
u8 n = n % 0x100

abbrev pub u16 : ℕ → ℕ
u16 n = n % 0x1_0000

abbrev pub u32 : ℕ → ℕ
u32 n = n % 0x1_0000_0000

-- The fuel of the native digit recursion does not matter once it reaches the first number.
module _ (pad : ℕ → ℕ) (op : ℕ → ℕ → ℕ) where
  digits_enough : (p q x y : ℕ) → x ≤ p → x ≤ q → digits pad op p x y ≡ digits pad op q x y
  digits_enough zero zero x y hp hq = refl
  digits_enough zero (suc q) zero y hp hq = refl
  digits_enough zero (suc q) (suc x) y hp hq = absurd (omega arith)
  digits_enough (suc p) zero zero y hp hq = refl
  digits_enough (suc p) zero (suc x) y hp hq = absurd (omega arith)
  digits_enough (suc p) (suc q) zero y hp hq = refl
  digits_enough (suc p) (suc q) (suc x) y hp hq =
      omega (arith, digits_enough p q (suc x / 2) (y / 2) (omega arith) (omega arith))

-- One binary digit of `|`.
pub bit_or_digit : (x y : ℕ) → bit_or x y ≡ bit_or (x / 2) (y / 2) * 2 + max (x % 2) (y % 2)
bit_or_digit zero y = omega (arith, bit_or-bitwise 0 y, bit_or-bitwise 0 (y / 2))
bit_or_digit (suc x) y = omega (
  arith,
  bit_or-bitwise (suc x) y,
  bit_or-bitwise (suc x / 2) (y / 2),
  digits_enough (λ b. b) max x (suc x / 2) (suc x / 2) (y / 2) (omega arith) (omega arith),
)

bit_or-zero : (k x : ℕ) → x ≤ k → bit_or x 0 ≡ x
bit_or-zero k zero h = refl
bit_or-zero zero (suc x) h = absurd (omega arith)
bit_or-zero (suc k) (suc x) h =
    omega (arith, bit_or_digit (suc x) 0, bit_or-zero k (suc x / 2) (omega arith))

zero-bit_or : (y : ℕ) → bit_or 0 y ≡ y
zero-bit_or y = bit_or-bitwise 0 y

-- `|` of a low field and a shifted high field is their sum.
pub bit_or_fields : (k low high : ℕ) → low < 2 ^ k → bit_or low (high * 2 ^ k) ≡ low + high * 2 ^ k
bit_or_fields zero zero high h = rw zero-bit_or (omega arith)
bit_or_fields zero (suc low) high h = absurd (omega arith)
bit_or_fields (suc k) low high h = ground (
  arith,
  bit_or_digit low (high * 2 ^ suc k),
  ap (λ (t : ℕ). high * t) (pow-suc 2 k),
  pow-suc 2 k,
  bit_or_fields k (low / 2) high (omega (arith, pow-suc 2 k)),
)

-- The same with the high field first.
bit_or_high_first : (k low high : ℕ) → low < 2 ^ k → bit_or (high * 2 ^ k) low ≡ high * 2 ^ k + low
bit_or_high_first zero zero high h = bit_or-zero (high * 1) (high * 1) (omega arith) ∙ omega arith
bit_or_high_first zero (suc low) high h = absurd (omega arith)
bit_or_high_first (suc k) low high h = ground (
  arith,
  bit_or_digit (high * 2 ^ suc k) low,
  ap (λ (t : ℕ). high * t) (pow-suc 2 k),
  pow-suc 2 k,
  bit_or_high_first k (low / 2) high (omega (arith, pow-suc 2 k)),
)

pub short-bit_or :
    (low high : ℕ) → low < 0x1_0000 → bit_or (high * 0x1_0000) low ≡ high * 0x1_0000 + low
short-bit_or low high h = bit_or_high_first 16 low high h

pub bit_or-byte : (low high : ℕ) → low < 0x100 → bit_or low (high * 0x100) ≡ low + high * 0x100
bit_or-byte low high h = bit_or_fields 8 low high h

pub bit_or-short :
    (low high : ℕ) → low < 0x1_0000 → bit_or low (high * 0x1_0000) ≡ low + high * 0x1_0000
bit_or-short low high h = bit_or_fields 16 low high h

pub bit_or-triple :
    (low high : ℕ) → low < 0x100_0000 → bit_or low (high * 0x100_0000) ≡ low + high * 0x100_0000
bit_or-triple low high h = bit_or_fields 24 low high h

abbrev pub u64 : ℕ → ℕ
u64 n = n % 0x1_0000_0000_0000_0000
