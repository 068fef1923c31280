-- ===== src/Player/Vitals/Tests.antt =====
-- A fight.
use asca_ci.Base.{◌≡◌, ◌==◌, false, true, arith}
use asca_ci.Player.Vitals.{change_health, change_mana, change_soul}
use asca_ci.Player.Vitals.Clamped.{loses, bits, clamped, change_health-clamped}

change_health-clamped_example :
    (change_health 150 (bits (loses 200)) 90
      ≡ (clamped 150 (loses 200) 90, clamped 150 (loses 200) 90 == 0))
    × (change_mana false 150 (bits (loses 200)) 300 ≡ clamped 150 (loses 200) 300)
    × (change_mana true 150 (bits (loses 200)) 300 ≡ 300)
    × (change_soul 200 (bits (loses 200)) 201 ≡ clamped 200 (loses 200) 201)
change_health-clamped_example =
    change_health-clamped 150 (loses 200) 90 300 200 201 (omega arith) (omega arith) (omega arith)
      (omega arith) (omega arith) (omega arith)
