-- ===== src/Place.antt =====
-- The order and the distances of positions, of src/position.h.
pub mod Order
pub mod Tests
use asca_ci.Base.{ℕ, ◌+◌, ◌-◌, Bool, true, false, not, ltb, leb, if◌then◌else◌, ◌&&◌}
use asca_ci.Network.Message.{Position}

-- `operator<`.
unfoldable pub less : Position → Position → Bool
less p q =
    if ltb p.z q.z
    then true
    else if ltb q.z p.z
    then false
    else if ltb p.y q.y
    then true
    else if ltb q.y p.y
    then false
    else if ltb p.x q.x
    then true
    else if ltb q.x p.x
    then false
    else false

-- `operator>`.
unfoldable pub greater : Position → Position → Bool
unfolding less
greater p q = not (less p q)

-- `std::abs` of the difference; the coordinates are too small for it to overflow.
abbrev pub distance : ℕ → ℕ → ℕ
distance a b = (a - b) + (b - a)

-- `areInRange` in three dimensions.
unfoldable pub are_in_range : ℕ → ℕ → ℕ → Position → Position → Bool
are_in_range delta_x delta_y delta_z p q =
    leb (distance p.x q.x) delta_x
    && leb (distance p.y q.y) delta_y
    && leb (distance p.z q.z) delta_z
