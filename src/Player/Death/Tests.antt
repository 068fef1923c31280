-- ===== src/Player/Death/Tests.antt =====
-- A death that takes a tenth.
use asca_ci.Base.{ℕ, ◌≡◌, ◌≤◌, ◌<◌, ◌+◌, ◌-◌, ◌*◌, ◌/◌, suc, false, arith}
use asca_ci.Player.Death.{lose_magic, lose_skill, lose_experience}
use asca_ci.Player.Death.Balance.{total_mana, total_tries, lose_magic-exact, lose_skill-exact}
use asca_ci.Player.Death.Experience.{lose_experience-IsLevelled}
use asca_ci.Player.Experience.Levels.{IsLevelled}
use asca_ci.Player.Experience.{Player, Vocation}
use asca_ci.Player.Magic.{Magic}
use asca_ci.Player.Skills.{Skill}

abbrev tenth : ℕ → ℕ
tenth n = n / 10

abbrev needs : ℕ → ℕ
needs level = 10 * level

abbrev magic : Magic
magic = record { mana_spent = 3; mag_level = 4; mag_level_percent = 6 }

lose_magic-exact_example :
    (total_mana needs (lose_magic needs tenth magic).mag_level
        + (lose_magic needs tenth magic).mana_spent
        + tenth (total_mana needs 4 + 3)
      ≡ total_mana needs 4 + 3)
    × ((lose_magic needs tenth magic).mana_spent
        < needs (suc (lose_magic needs tenth magic).mag_level))
    × ((lose_magic needs tenth magic).mag_level ≤ 4)
lose_magic-exact_example =
    lose_magic-exact needs tenth magic (λ l. omega arith) (omega arith) (omega arith) (omega arith)

abbrev sword : Skill
sword = record { tries = 5; level = 12; percent = 3 }

lose_skill-exact_example :
    (total_tries needs (lose_skill needs tenth sword).level
        + (lose_skill needs tenth sword).tries
        + tenth (total_tries needs 12 + 5)
      ≡ total_tries needs 12 + 5)
    × ((lose_skill needs tenth sword).tries < needs (suc (lose_skill needs tenth sword).level))
    × ((lose_skill needs tenth sword).level ≤ 12)
    × (10 ≤ (lose_skill needs tenth sword).level)
lose_skill-exact_example =
    lose_skill-exact needs tenth sword (λ l. omega arith) (omega arith) (omega arith) (omega arith)
      (omega arith)

abbrev knight : Vocation
knight = record { hp_gain = 15; mana_gain = 5; cap_gain = 2500; base_speed = 220 }

-- Level 9 starts at 6400 experience points.
abbrev player : Player
player = record {
  level = 9;
  experience = 6500;
  level_percent = 3;
  health = 0;
  health_max = 260;
  mana = 5;
  mana_max = 95;
  capacity = 60000;
  base_speed = 236;
  var_max_health = 0;
  var_max_mana = 0;
  set_max_speed = false;
}

player-IsLevelled : IsLevelled player
player-IsLevelled = record { positive = omega arith; reached = omega arith; below = omega arith }

lose_experience-IsLevelled_example :
    IsLevelled (lose_experience knight false (λ n. n) tenth player)
    × ((lose_experience knight false (λ n. n) tenth player).experience ≡ 6500 - 650)
    × ((lose_experience knight false (λ n. n) tenth player).level ≤ 9)
lose_experience-IsLevelled_example =
    lose_experience-IsLevelled knight false (λ n. n) tenth player player-IsLevelled (omega arith)
      (omega arith)
