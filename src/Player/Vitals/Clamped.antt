-- ===== src/Player/Vitals/Clamped.antt =====
-- No change overflows or leaves the bounds.
use asca_ci.Base.{
  ℕ, ◌+◌, ◌-◌, ◌≤◌, ◌<◌, ◌≡◌, refl, ap, ◌∙◌, true, false, not, List, [], ◌∷◌, ltb, ◌==◌,
  if◌then◌else◌, arith, All,
}
use asca_ci.Base.Bits.{u8, u32}
use asca_ci.Player.Vitals.{
  change_points, change_health, change_mana, change_soul, change_healths, is_positive,
}

-- A change by a number, and its 32 bits.
pub data Change : Type 0 where
  gains : ℕ → Change
  loses : ℕ → Change

abbrev pub bits : Change → ℕ
bits (gains n) = n
bits (loses n) = u32 (0x1_0000_0000 - n)

-- That it fits 32 bits with a sign.
abbrev pub Fits : Change → Type 0
Fits (gains n) = n < 0x8000_0000
Fits (loses n) = n ≤ 0x8000_0000

-- The points as a number: a gain stops at the most, a loss at 0.
abbrev pub clamped : ℕ → Change → ℕ → ℕ
clamped most (gains n) points =
    if n == 0 then points else if ltb most (points + n) then most else points + n
clamped most (loses n) points = points - n

change_points-clamped :
    (most : ℕ) (c : Change) (points : ℕ)
    → most < 0x8000_0000
    → points < 0x8000_0000
    → Fits c
    → change_points most (bits c) points ≡ clamped most c points
unfolding change_points
change_points-clamped most (gains n) points h k fits = ground (arith, h, k, fits)
change_points-clamped most (loses n) points h k fits = ground (arith, h, k, fits)

-- The soul stays within its 8 bits.
change_soul-clamped :
    (most : ℕ) (c : Change) (soul : ℕ)
    → most < 0x100
    → soul < 0x100
    → Fits c
    → change_soul most (bits c) soul ≡ clamped most c soul
unfolding change_soul
change_soul-clamped most (gains n) soul h k fits =
    ap u8 (change_points-clamped most (gains n) soul (omega arith) (omega arith) fits)
    ∙ ground (arith, h, k)
change_soul-clamped most (loses n) soul h k fits =
    ap u8 (change_points-clamped most (loses n) soul (omega arith) (omega arith) fits)
    ∙ ground (arith, h, k)

-- A change of at most 31 bits to points that have at most 31 bits, or 8 bits for the soul, ends
-- at the sum, at most at the limit, or at the difference, at least at 0; no step of it overflows.
-- A death follows exactly where no health is left. Unlimited mana does not change.
pub change_health-clamped :
    (most : ℕ) (c : Change) (health mana soul_most soul : ℕ)
    → most < 0x8000_0000
    → health < 0x8000_0000
    → mana < 0x8000_0000
    → soul_most < 0x100
    → soul < 0x100
    → Fits c
    → (change_health most (bits c) health ≡ (clamped most c health, clamped most c health == 0))
      × (change_mana false most (bits c) mana ≡ clamped most c mana)
      × (change_mana true most (bits c) mana ≡ mana)
      × (change_soul soul_most (bits c) soul ≡ clamped soul_most c soul)
unfolding change_health change_mana
change_health-clamped most c health mana soul_most soul h k m s t fits =
    let e = change_points-clamped most c health h k fits in
    (
      rw e (ap (λ b. (clamped most c health, b)) (deadly c fits)),
      change_points-clamped most c mana h m fits,
      refl,
      change_soul-clamped soul_most c soul s t fits,
    )
  where
    deadly :
        (c : Change)
        → Fits c
        → not (is_positive (clamped most c health)) ≡ (clamped most c health == 0)
    deadly (gains n) fits = ground (arith, h, k, fits)
    deadly (loses n) fits = ground (arith, h, k, fits)

clamped_bound : (most : ℕ) (c : Change) (points : ℕ) → points ≤ most → clamped most c points ≤ most
clamped_bound most (gains n) points h = ground (arith, h)
clamped_bound most (loses n) points h = omega (arith, h)

abbrev pub all_bits : List Change → List ℕ
all_bits [] = []
all_bits (c ∷ cs) = bits c ∷ all_bits cs

abbrev pub all_clamped : ℕ → List Change → ℕ → ℕ
all_clamped most [] points = points
all_clamped most (c ∷ cs) points = all_clamped most cs (clamped most c points)

-- Changes of at most 31 bits, one after the other, to a health that is not above its limit of at
-- most 31 bits: the health is what the bounded sums and differences give, and not above the limit.
pub change_healths-clamped :
    (most : ℕ) (cs : List Change) (health : ℕ)
    → most < 0x8000_0000
    → health ≤ most
    → All Fits cs
    → (change_healths most (all_bits cs) health ≡ all_clamped most cs health)
      × (change_healths most (all_bits cs) health ≤ most)
unfolding change_healths
change_healths-clamped most [] health h k fits = (refl, k)
change_healths-clamped most (c ∷ cs) health h k (fit, fits) =
    rw (change_healths, change_points-clamped most c health h (omega (arith, h, k)) fit)
      (change_healths-clamped most cs (clamped most c health) h (clamped_bound most c health k)
        fits)
