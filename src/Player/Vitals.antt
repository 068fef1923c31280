-- ===== src/Player/Vitals.antt =====
-- Health, mana and soul points, of src/creature.cpp and src/player.cpp. A number of 32 bits with a
-- sign is its bit pattern. Packets to clients are left out.
pub mod Clamped
pub mod Tests
use asca_ci.Base.{
  ℕ, ◌+◌, ◌-◌, Bool, true, false, not, List, [], ◌∷◌, ltb, leb, ◌==◌, if◌then◌else◌, ◌&&◌,
}
use asca_ci.Base.Bits.{u8, u32}

abbrev pub is_negative : ℕ → Bool
is_negative x = leb 0x8000_0000 x

-- `x > 0`.
abbrev pub is_positive : ℕ → Bool
is_positive x = not (is_negative x) && not (x == 0)

abbrev pub less_signed : ℕ → ℕ → Bool
less_signed a b =
    if is_negative a
    then if is_negative b then ltb a b else true
    else if is_negative b
    then false
    else ltb a b

-- `std::min<int32_t>`, and `std::max<int32_t>` with 0.
abbrev pub min_signed : ℕ → ℕ → ℕ
min_signed a b = if less_signed b a then b else a

abbrev pub max_zero : ℕ → ℕ
max_zero x = if is_negative x then 0 else x

-- `a - b`.
abbrev pub sub32 : ℕ → ℕ → ℕ
sub32 a b = u32 (a + 0x1_0000_0000 - u32 b)

-- The points after a change, given the most that there may be.
unfoldable pub change_points : ℕ → ℕ → ℕ → ℕ
change_points most change points =
    if is_positive change
    then u32 (points + min_signed change (sub32 most points))
    else max_zero (u32 (points + change))

-- `Creature::changeHealth`: the health, and whether the death is given to the dispatcher.
unfoldable pub change_health : ℕ → ℕ → ℕ → ℕ × Bool
unfolding change_points
change_health most change health =
    let health' = change_points most change health in (health', not (is_positive health'))

unfoldable pub change_mana : Bool → ℕ → ℕ → ℕ → ℕ
unfolding change_points
change_mana infinite most change mana = if infinite then mana else change_points most change mana

-- The soul has 8 bits.
unfoldable pub change_soul : ℕ → ℕ → ℕ → ℕ
unfolding change_points
change_soul most change soul = u8 (change_points most change soul)

-- Changes one after the other; whether the last one was deadly.
unfoldable pub change_healths : ℕ → List ℕ → ℕ → ℕ
unfolding change_health
change_healths most [] health = health
change_healths most (change ∷ changes) health =
    change_healths most changes (change_health most change health).0
