-- ===== src/Place/Order.antt =====
-- The order of positions is that of a number.
use asca_ci.Base.{ℕ, ◌+◌, ◌*◌, ◌<◌, ◌≡◌, ltb, leb, arith}
use asca_ci.Network.Message.{Position}
use asca_ci.Place.{less, greater}

-- The floor, the row and the column as the digits of a number.
abbrev pub key : Position → ℕ
key p = (p.z * 0x1_0000 + p.y) * 0x1_0000 + p.x

-- Where the coordinates fit 16 bits, `operator<` is the order of the numbers, so it is strict and
-- total; `operator>` is its negation, so it also holds between a position and itself.
pub less-key :
    (p q : Position)
    → p.x < 0x1_0000
    → p.y < 0x1_0000
    → q.x < 0x1_0000
    → q.y < 0x1_0000
    → (less p q ≡ ltb (key p) (key q)) × (greater p q ≡ leb (key q) (key p))
unfolding less greater
less-key p q hpx hpy hqx hqy = ground arith
