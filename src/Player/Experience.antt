-- ===== src/Player/Experience.antt =====
-- Experience and levels of src/player.cpp and src/player.h. Texts, packets and the other systems
-- that are told of a new level are left out; the scripts' event handlers are arguments.
pub mod Curve
pub mod Levels
use asca_ci.Base.{
  ℕ, zero, suc, ◌+◌, ◌-◌, ◌*◌, ◌/◌, Bool, true, false, ltb, leb, ◌==◌, if◌then◌else◌, ◌||◌, ◌&&◌,
}
use asca_ci.Base.Bits.{u8, u32, u64}

-- `getExpForLevel`: the argument is an `int32_t`, given here as its bit pattern.
unfoldable pub get_exp_for_level : ℕ → ℕ
get_exp_for_level lv =
    if lv == 0 || leb 0x8000_0000 lv
    then 0
    else (let u = lv - 1 in
        u64 (u64 (50 * u * u * u) + 0x1_0000_0000_0000_0000 - u64 (150 * u * u) + 400 * u) / 3)

-- `getPercentLevel`: the quotient is cut to a byte before it is tested.
unfoldable pub get_percent_level : ℕ → ℕ → ℕ
get_percent_level count next_level_count =
    if next_level_count == 0
    then 0
    else (let result = u8 (u64 (count * 100) / next_level_count) in
        if ltb 100 result then 0 else result)

-- The gains of a vocation for each level.
pub record Vocation : Type 0 where
  pub hp_gain : ℕ
  pub mana_gain : ℕ
  pub cap_gain : ℕ
  pub base_speed : ℕ

-- Signed fields are their 32-bit patterns.
pub record Player : Type 0 where
  pub level : ℕ
  pub experience : ℕ
  pub level_percent : ℕ
  pub health : ℕ
  pub health_max : ℕ
  pub mana : ℕ
  pub mana_max : ℕ
  pub capacity : ℕ
  pub base_speed : ℕ
  pub var_max_health : ℕ
  pub var_max_mana : ℕ
  pub set_max_speed : Bool

-- `std::max<int32_t>(low, value)` for a `low` that is not negative.
abbrev pub max_signed : ℕ → ℕ → ℕ
max_signed low value = if leb 0x8000_0000 value || ltb value low then low else value

abbrev pub sub32 : ℕ → ℕ → ℕ
sub32 a b = u32 (a + 0x1_0000_0000 - u32 b)

unfoldable pub get_max_health : Player → ℕ
get_max_health p = max_signed 1 (u32 (p.health_max + p.var_max_health))

unfoldable pub get_max_mana : Player → ℕ
get_max_mana p = max_signed 0 (u32 (p.mana_max + p.var_max_mana))

abbrev pub player_max_speed : ℕ
player_max_speed = 1500

unfoldable pub update_base_speed : Vocation → Player → Player
update_base_speed v p = record p {
  base_speed =
      if p.set_max_speed then player_max_speed else u32 (v.base_speed + 2 * sub32 p.level 1);
}

-- The body of the loop that raises the level.
unfoldable pub gain_level : Vocation → Player → Player
gain_level v p = record p {
  level = u32 (p.level + 1);
  health_max = u32 (p.health_max + v.hp_gain);
  health = u32 (p.health + v.hp_gain);
  mana_max = u32 (p.mana_max + v.mana_gain);
  mana = u32 (p.mana + v.mana_gain);
  capacity = u32 (p.capacity + v.cap_gain);
}

-- A player with the thresholds of the current and of the next level.
pub record Climb : Type 0 where
  pub player : Player
  pub curr_level_exp : ℕ
  pub next_level_exp : ℕ

abbrev pub climbed : Vocation → Climb → Climb
climbed v c =
    let p = gain_level v c.player in
    record {
      player = p;
      curr_level_exp = c.next_level_exp;
      next_level_exp = get_exp_for_level (u32 (p.level + 1));
    }

-- The loop, on fuel; it also stops at the largest level, where the thresholds stop growing.
unfoldable pub raise_levels : ℕ → Vocation → Climb → Climb
raise_levels zero v c = c
raise_levels (suc fuel) v c =
    let next = climbed v c in
    let rest = raise_levels fuel v next in
    if ltb c.player.experience c.next_level_exp
    then c
    else if leb next.next_level_exp next.curr_level_exp
    then next
    else rest

-- What follows a change of level.
unfoldable pub refresh : Vocation → ℕ → Player → Player
unfolding update_base_speed
refresh v old_level p =
    if p.level == old_level
    then p
    else update_base_speed v (record p { health = get_max_health p; mana = get_max_mana p })

unfoldable pub set_percent : ℕ → ℕ → Player → Player
set_percent curr next p = record p {
  level_percent =
      if ltb curr next
      then get_percent_level (u64 (p.experience + 0x1_0000_0000_0000_0000 - curr)) (next - curr)
      else 0;
}

-- The start of the loop: the experience is paid, and the thresholds are those of the old level.
abbrev pub climb_of : ℕ → Player → Climb
climb_of granted p = record {
  player = record p { experience = u64 (p.experience + granted) };
  curr_level_exp = get_exp_for_level p.level;
  next_level_exp = get_exp_for_level (u32 (p.level + 1));
}

unfoldable pub grant : Vocation → ℕ → Player → Player
unfolding refresh set_percent
grant v granted p =
    let c = raise_levels (u64 (p.experience + granted) + 1) v (climb_of granted p) in
    set_percent c.curr_level_exp c.next_level_exp (refresh v p.level c.player)

-- `on_gain` is the script's handler, which may change the amount.
unfoldable pub add_experience : Vocation → (ℕ → ℕ) → ℕ → Player → Player
unfolding grant
add_experience v on_gain exp p =
    if leb (get_exp_for_level (u32 (p.level + 1))) (get_exp_for_level p.level)
    then record p { level_percent = 0 }
    else if on_gain exp == 0
    then p
    else grant v (on_gain exp) p

unfoldable pub lose_level : Vocation → Player → Player
lose_level v p = record p {
  level = p.level - 1;
  health_max = max_signed 0 (sub32 p.health_max v.hp_gain);
  mana_max = max_signed 0 (sub32 p.mana_max v.mana_gain);
  capacity = max_signed 0 (sub32 p.capacity v.cap_gain);
}

-- The loop by the level, which falls each time.
unfoldable pub lower_levels : ℕ → Vocation → Player → Player
lower_levels zero v p = p
lower_levels (suc fuel) v p =
    let rest = lower_levels fuel v (lose_level v p) in
    if ltb 1 p.level && ltb p.experience (get_exp_for_level p.level) then rest else p

-- `std::max<int64_t>(0, experience - exp)`: a difference with the sign bit counts as negative.
abbrev pub less_exp : ℕ → ℕ → ℕ
less_exp experience exp =
    let d = u64 (experience + 0x1_0000_0000_0000_0000 - u64 exp) in
    if leb 0x8000_0000_0000_0000 d then 0 else d

unfoldable pub remove_experience : Vocation → (ℕ → ℕ) → ℕ → Player → Player
unfolding refresh set_percent
remove_experience v on_lose exp p =
    if p.experience == 0 || exp == 0
    then p
    else (let taken = on_lose exp in
        if taken == 0
        then p
        else (let q =
              lower_levels p.level v (record p { experience = less_exp p.experience taken }) in
            set_percent (get_exp_for_level q.level) (get_exp_for_level (u32 (q.level + 1)))
              (refresh v p.level q)))
