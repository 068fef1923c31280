-- ===== src/Player/Tests.antt =====
-- The player's theorems at concrete inputs.
use asca_ci.Base.{ltb, if◌then◌else◌, ℕ, ◌≡◌, ◌≤◌, ◌+◌, ◌*◌, ◌-◌, arith, false}
use asca_ci.Player.Magic.{Magic, add_mana_spent}
use asca_ci.Player.Magic.Spent.{IsSpent, add_mana_spent-IsSpent}
use asca_ci.Player.Offline.{add_offline_mana_tries}
use asca_ci.Player.Offline.Agreement.{Agrees, add_offline_mana_tries-add_mana_spent}
use asca_ci.Player.Skills.{Skill, add_skill_advance}
use asca_ci.Player.Skills.Advance.{IsAdvanced, add_skill_advance-IsAdvanced}
use asca_ci.Player.Experience.{Player, Vocation, add_experience, remove_experience}
use asca_ci.Player.Experience.Levels.{
  IsLevelled, add_experience-IsLevelled, remove_experience-IsLevelled,
}

abbrev knight : Vocation
knight = record { hp_gain = 15; mana_gain = 5; cap_gain = 2500; base_speed = 220 }

-- Level 2 starts at 100 experience points, level 3 at 200.
abbrev player : Player
player = record {
  level = 2;
  experience = 150;
  level_percent = 50;
  health = 100;
  health_max = 155;
  mana = 5;
  mana_max = 60;
  capacity = 42500;
  base_speed = 222;
  var_max_health = 0;
  var_max_mana = 0;
  set_max_speed = false;
}

player-IsLevelled : IsLevelled player
player-IsLevelled = record { positive = omega arith; reached = omega arith; below = omega arith }

add_experience-IsLevelled_example :
    IsLevelled (add_experience knight (λ n. 2 * n) 500 player)
    × ((add_experience knight (λ n. 2 * n) 500 player).experience ≡ 150 + 2 * 500)
    × (2 ≤ (add_experience knight (λ n. 2 * n) 500 player).level)
add_experience-IsLevelled_example =
    add_experience-IsLevelled knight (λ n. 2 * n) 500 player player-IsLevelled (omega arith)

remove_experience-IsLevelled_example :
    IsLevelled (remove_experience knight (λ n. n) 90 player)
    × ((remove_experience knight (λ n. n) 90 player).experience ≡ 150 - 90)
    × ((remove_experience knight (λ n. n) 90 player).level ≤ 2)
remove_experience-IsLevelled_example =
    remove_experience-IsLevelled knight (λ n. n) 90 player player-IsLevelled (omega arith)
      (omega arith) (λ e. e)

-- Each level of the skill needs ten tries more than the one before, up to level 20.
abbrev tries_for : ℕ → ℕ
tries_for level = if ltb 20 level then 0 else 10 * level

abbrev sword : Skill
sword = record { tries = 30; level = 10; percent = 27 }

add_skill_advance-IsAdvanced_example :
    IsAdvanced tries_for 10
      (30 + 300)
      (add_skill_advance tries_for (λ n. 3 * n) 100 sword).level
      (add_skill_advance tries_for (λ n. 3 * n) 100 sword).tries
add_skill_advance-IsAdvanced_example =
    add_skill_advance-IsAdvanced tries_for (λ n. 3 * n) 100 sword (omega arith) (omega arith)
      (omega arith) (omega arith)

abbrev magic : Magic
magic = record { mana_spent = 5; mag_level = 18; mag_level_percent = 2 }

-- Reaches the largest level.
add_mana_spent-IsSpent_example :
    IsSpent tries_for 18 (5 + 900) 2 (add_mana_spent tries_for false (λ n. 3 * n) 300 magic)
add_mana_spent-IsSpent_example =
    add_mana_spent-IsSpent tries_for (λ n. 3 * n) 300 magic (omega arith) (omega arith)
      (omega arith) (omega arith)

-- Reaches the largest level, where the percentages differ.
add_offline_mana_tries-add_mana_spent_example :
    Agrees tries_for
      (add_offline_mana_tries tries_for (λ n. 3 * n) 300 magic)
      (add_mana_spent tries_for false (λ n. 3 * n) 300 magic)
add_offline_mana_tries-add_mana_spent_example =
    add_offline_mana_tries-add_mana_spent tries_for (λ n. 3 * n) 300 magic (omega arith)
      (omega arith)
