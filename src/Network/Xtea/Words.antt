-- ===== src/Network/Xtea/Words.antt =====
-- One block: its eight bytes and its two 32-bit halves determine each other.
use asca_ci.Base.{ℕ, ◌+◌, ◌*◌, ◌/◌, ◌<◌, ◌≡◌, List, ◌∷◌, arith, All}
use asca_ci.Base.Bits.{u8, bit_or-byte, bit_or-short, bit_or-triple}
use asca_ci.Network.Xtea.{Halves, load32, store}

abbrev pub IsByte : ℕ → Type 0
IsByte n = n < 0x100

abbrev pub IsWords : Halves → Type 0
IsWords w = (w.left < 0x1_0000_0000) × (w.right < 0x1_0000_0000)

-- On bytes the shifted fields add up.
pub load32_as_sum :
    (a b c d : ℕ)
    → IsByte a
    → IsByte b
    → IsByte c
    → IsByte d
    → load32 a b c d ≡ a + b * 0x100 + c * 0x1_0000 + d * 0x100_0000
unfolding load32
load32_as_sum a b c d ha hb hc hd =
    rw
      (
        bit_or-byte a b ha,
        bit_or-short (a + b * 0x100) c (omega arith),
        bit_or-triple (a + b * 0x100 + c * 0x1_0000) d (omega arith),
      )
      (omega arith)

-- The eight bytes that `store` writes are bytes, and give the halves back.
module _ (v : ℕ) (small : v < 0x1_0000_0000) where
  pub load32-bytes : load32 (u8 v) (u8 (v / 0x100)) (u8 (v / 0x1_0000)) (u8 (v / 0x100_0000)) ≡ v
  load32-bytes = omega (
    arith,
    load32_as_sum (u8 v) (u8 (v / 0x100)) (u8 (v / 0x1_0000)) (u8 (v / 0x100_0000)) (omega arith)
        (omega arith) (omega arith) (omega arith),
  )

module _ (a b c d e f g h : ℕ) (ha : IsByte a) (hb : IsByte b) (hc : IsByte c) (hd : IsByte d)
    (he : IsByte e) (hf : IsByte f) (hg : IsByte g) (hh : IsByte h) where
  pub store-load32 :
      (rest : List ℕ)
      → store (record { left = load32 a b c d; right = load32 e f g h }) rest
        ≡ a ∷ b ∷ c ∷ d ∷ e ∷ f ∷ g ∷ h ∷ rest
  unfolding store
  store-load32 rest =
      rw (load32_as_sum a b c d ha hb hc hd, load32_as_sum e f g h he hf hg hh) (ground arith)

  pub load32-IsWords : IsWords (record { left = load32 a b c d; right = load32 e f g h })
  load32-IsWords =
      omega (arith, load32_as_sum a b c d ha hb hc hd, load32_as_sum e f g h he hf hg hh)

pub store-bytes : (w : Halves) (rest : List ℕ) → All IsByte rest → All IsByte (store w rest)
unfolding store
store-bytes w rest h = (
  omega arith,
  (
    omega arith,
    (omega arith, (omega arith, (omega arith, (omega arith, (omega arith, (omega arith, h)))))),
  ),
)
