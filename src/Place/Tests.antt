-- ===== src/Place/Tests.antt =====
-- Two neighbouring positions.
use asca_ci.Base.{◌≡◌, ltb, leb, arith}
use asca_ci.Network.Message.{Position}
use asca_ci.Place.{less, greater}
use asca_ci.Place.Order.{key, less-key}

abbrev temple : Position
temple = record { x = 1000; y = 1024; z = 7 }

less-key_example :
    (less temple temple ≡ ltb (key temple) (key temple))
    × (greater temple temple ≡ leb (key temple) (key temple))
less-key_example = less-key temple temple (omega arith) (omega arith) (omega arith) (omega arith)
