-- ===== src/Network/Xtea.antt =====
-- src/xtea.cpp. `data` is the memory from the pointer on, as bytes; a read past its end is `none`.
pub mod Words
pub mod Laws
pub mod Local
use asca_ci.Base.{
  ℕ, zero, suc, ◌+◌, ◌-◌, ◌*◌, ◌/◌, ◌%◌, bit_and, bit_or, bit_xor, List, [], ◌∷◌, Option, none,
  some, get_or,
}
use asca_ci.Base.Bits.{u8, u32}
use mathlib.Core.Option

abbrev pub delta : ℕ
delta = 0x9E37_79B9

-- Two 32-bit halves of a block.
pub record Halves : Type 0 where
  pub left : ℕ
  pub right : ℕ

unfoldable pub load32 : ℕ → ℕ → ℕ → ℕ → ℕ
load32 a b c d = u32 (bit_or (bit_or (bit_or a (b * 0x100)) (c * 0x1_0000)) (d * 0x100_0000))

-- The bytes of both halves, low byte first.
unfoldable pub store : Halves → List ℕ → List ℕ
store w rest =
    u8 w.left
    ∷ u8 (w.left / 0x100)
    ∷ u8 (w.left / 0x1_0000)
    ∷ u8 (w.left / 0x100_0000)
    ∷ u8 w.right
    ∷ u8 (w.right / 0x100)
    ∷ u8 (w.right / 0x1_0000)
    ∷ u8 (w.right / 0x100_0000)
    ∷ rest

-- The loop `j = 0, 8, ... < length`, by the rounds that are left.
pub apply_blocks : (Halves → Halves) → ℕ → List ℕ → Option (List ℕ)
apply_blocks round zero bytes = some bytes
apply_blocks round (suc n) (a ∷ b ∷ c ∷ d ∷ e ∷ f ∷ g ∷ h ∷ rest) =
    let w : Halves = record { left = load32 a b c d; right = load32 e f g h } in
    Option.map (store (round w)) (apply_blocks round n rest)
apply_blocks round (suc n) bytes = none

pub apply_rounds : (Halves → Halves) → ℕ → List ℕ → Option (List ℕ)
apply_rounds round length bytes = apply_blocks round ((length + 7) / 8) bytes

-- `(v << 4 ^ v >> 5) + v`, on 32 bits.
pub mix : ℕ → ℕ
mix v = u32 (bit_xor (u32 (v * 16)) (v / 32) + v)

-- The four words of the key; the index is below 4.
pub key_at : List ℕ → ℕ → ℕ
key_at k i = get_or k i 0

pub encrypt_round : List ℕ → ℕ → ℕ → Halves → Halves
encrypt_round k sum next_sum w =
    let l = u32 (w.left + bit_xor (mix w.right) (u32 (sum + key_at k (bit_and sum 3)))) in
    let r =
      u32 (w.right + bit_xor (mix l) (u32 (next_sum + key_at k (bit_and (next_sum / 2048) 3)))) in
    record { left = l; right = r }

-- `a - b` on 32 bits.
abbrev pub sub32 : ℕ → ℕ → ℕ
sub32 a b = u32 (a + 0x1_0000_0000 - u32 b)

pub decrypt_round : List ℕ → ℕ → ℕ → Halves → Halves
decrypt_round k sum next_sum w =
    let r = sub32 w.right (bit_xor (mix w.left) (u32 (sum + key_at k (bit_and (sum / 2048) 3)))) in
    let l = sub32 w.left (bit_xor (mix r) (u32 (next_sum + key_at k (bit_and next_sum 3)))) in
    record { left = l; right = r }

infixl 5 ◌>>=◌
abbrev ◌>>=◌ : Option (List ℕ) → (List ℕ → Option (List ℕ)) → Option (List ℕ)
none >>= f = none
some x >>= f = f x

-- The loop of `encrypt` by the rounds left: `sum = next_sum, next_sum += delta`.
pub encrypt_loop : List ℕ → ℕ → ℕ → ℕ → ℕ → List ℕ → Option (List ℕ)
encrypt_loop k length zero sum next_sum bytes = some bytes
encrypt_loop k length (suc n) sum next_sum bytes = do
  bytes' ← apply_rounds (encrypt_round k sum next_sum) length bytes
  encrypt_loop k length n next_sum (u32 (next_sum + delta)) bytes'

pub encrypt : List ℕ → ℕ → List ℕ → Option (List ℕ)
encrypt bytes length k = encrypt_loop k length 32 0 (u32 (0 + delta)) bytes

pub decrypt_loop : List ℕ → ℕ → ℕ → ℕ → ℕ → List ℕ → Option (List ℕ)
decrypt_loop k length zero sum next_sum bytes = some bytes
decrypt_loop k length (suc n) sum next_sum bytes = do
  bytes' ← apply_rounds (decrypt_round k sum next_sum) length bytes
  decrypt_loop k length n next_sum (sub32 next_sum delta) bytes'

pub decrypt : List ℕ → ℕ → List ℕ → Option (List ℕ)
decrypt bytes length k =
    let sum = u32 (delta * 32) in decrypt_loop k length 32 sum (sub32 sum delta) bytes
