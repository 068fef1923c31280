-- ===== src/Player/Experience/Curve.antt =====
-- The thresholds of the levels: without overflow, and strictly growing.
use asca_ci.Base.{ℕ, zero, suc, ◌+◌, ◌-◌, ◌*◌, ◌/◌, ◌≤◌, ◌<◌, ◌≡◌, subst, false, leb, ◌==◌, arith}
use asca_ci.Player.Experience.{get_exp_for_level}

-- The polynomial of the experience table, before it is divided by 3.
abbrev cubic : ℕ → ℕ
cubic u = 50 * (u * u * u) + 400 * u - 150 * (u * u)

-- The experience that level `u + 1` needs.
abbrev pub threshold : ℕ → ℕ
threshold u = cubic u / 3

square-le : (u : ℕ) → 150 * (u * u) ≤ 50 * (u * u * u) + 400 * u
square-le zero = omega arith
square-le (suc zero) = omega arith
square-le (suc (suc zero)) = omega arith
square-le (suc (suc (suc k))) = omega arith

cubic-suc : (u : ℕ) → cubic (suc u) + 150 * u ≡ cubic u + 150 * (u * u) + 300
cubic-suc u = omega (arith, square-le u, square-le (suc u))

-- Each level needs at least 100 more than the one before.
pub threshold-suc : (u : ℕ) → threshold u + 100 ≤ threshold (suc u)
threshold-suc zero = omega arith
threshold-suc (suc k) = omega (arith, cubic-suc (suc k))

pub threshold-le_add : (u k : ℕ) → threshold u ≤ threshold (k + u)
threshold-le_add u zero = omega arith
threshold-le_add u (suc k) = omega (arith, threshold-suc (k + u), threshold-le_add u k)

pub threshold_mono : (u w : ℕ) → u ≤ w → threshold u ≤ threshold w
threshold_mono u w h =
    let e : w - u + u ≡ w = omega arith in
    subst (λ n. threshold u ≤ threshold n) e (threshold-le_add u (w - u))

-- The level above which the table is not followed here; its threshold fits 63 bits.
abbrev pub level_limit : ℕ
level_limit = 700000

pub threshold-ge : (u : ℕ) → u ≤ threshold u
threshold-ge zero = omega arith
threshold-ge (suc u) = omega (arith, threshold-suc u, threshold-ge u)

cube-small : (u : ℕ) → u ≤ 700000 → 50 * u * u * u + 400 * u < 0x1_0000_0000_0000_0000
cube-small u h =
    let square : u * u ≤ 700000 * u = grind arith in
    let cube : u * u * u ≤ 700000 * u * u = grind arith in omega arith

-- Up to the limit the 64-bit arithmetic of the table does not overflow.
pub get_exp_for_level-threshold :
    (u : ℕ) → u ≤ level_limit → get_exp_for_level (suc u) ≡ threshold u
unfolding get_exp_for_level
get_exp_for_level-threshold u h =
    let e : suc u - 1 ≡ u = omega arith in
    let zero_test : (suc u == 0) ≡ false = ground arith in
    let sign_test : leb 0x8000_0000 (suc u) ≡ false = ground arith in
    rw (zero_test, sign_test, e) (omega (arith, square-le u, cube-small u h))
