-- ===== src/Party/Shared.antt =====
-- A party's own fields and its shared experience, of src/party.h and src/party.cpp.
use asca_ci.Base.{
  update, ℕ, ◌+◌, ◌-◌, Bool, true, false, not, List, [], ◌∷◌, Option, none, some, ltb, leb, ◌==◌,
  if◌then◌else◌, ◌&&◌, ◌||◌,
}
use asca_ci.Base.Bits.{u64}
use asca_ci.Network.Message.{Position}
use asca_ci.Place.{are_in_range}

-- `ticks` is `ticksMap`, by the player.
pub record Party : Type 0 where
  pub leader : ℕ
  pub members : List ℕ
  pub invitees : List ℕ
  pub ticks : ℕ → Option ℕ
  pub shared_exp_active : Bool
  pub shared_exp_enabled : Bool

-- What the party sees of the players, the clock and the configuration. `min_level` is the least
-- level beside a highest one: two thirds of it, rounded up, in floating point.
pub record View : Type 0 where
  pub level : ℕ → ℕ
  pub place : ℕ → Position
  pub not_gain_in_fight : ℕ → Bool
  pub now : ℕ
  pub pz_locked : ℕ
  pub min_level : ℕ → ℕ

abbrev pub is_empty : List ℕ → Bool
is_empty [] = true
is_empty (x ∷ xs) = false

unfoldable pub highest_level : View → ℕ → List ℕ → ℕ
highest_level v highest [] = highest
highest_level v highest (m ∷ ms) =
    highest_level v (if ltb highest (v.level m) then v.level m else highest) ms

-- Whether the player has healed or attacked lately.
unfoldable pub is_recent : View → Option ℕ → Bool
is_recent v none = false
is_recent v (some t) = leb (u64 (v.now + 0x1_0000_0000_0000_0000 - u64 t)) v.pz_locked

unfoldable pub can_use_shared_experience : View → Party → ℕ → Bool
unfolding highest_level is_recent
can_use_shared_experience v p player =
    not (is_empty p.members)
    && leb (v.min_level (highest_level v (v.level p.leader) p.members)) (v.level player)
    && are_in_range 30 30 1 (v.place p.leader) (v.place player)
    && (v.not_gain_in_fight player || is_recent v (p.ticks player))

unfoldable pub all_can_use : View → Party → List ℕ → Bool
unfolding can_use_shared_experience
all_can_use v p [] = true
all_can_use v p (m ∷ ms) = can_use_shared_experience v p m && all_can_use v p ms

unfoldable pub can_enable_shared_experience : View → Party → Bool
unfolding all_can_use
can_enable_shared_experience v p =
    can_use_shared_experience v p p.leader && all_can_use v p p.members

unfoldable pub update_shared_experience : View → Party → Party
unfolding can_enable_shared_experience
update_shared_experience v p =
    if p.shared_exp_active
    then record p { shared_exp_enabled = can_enable_shared_experience v p }
    else p

abbrev same_bool : Bool → Bool → Bool
same_bool true b = b
same_bool false b = not b

unfoldable pub set_shared_experience : View → ℕ → Bool → Party → Bool × Party
set_shared_experience v player active p =
    if not (p.leader == player)
    then (false, p)
    else if same_bool p.shared_exp_active active
    then (true, p)
    else (let q = record p { shared_exp_active = active } in
        (
          true,
          if active then record q { shared_exp_enabled = can_enable_shared_experience v q } else q,
        ))

unfoldable pub update_player_ticks : View → ℕ → ℕ → Party → Party
unfolding update_shared_experience
update_player_ticks v player points p =
    if not (points == 0) && not (v.not_gain_in_fight player)
    then update_shared_experience v (record p { ticks = update p.ticks player (some v.now) })
    else p

abbrev is_some : Option ℕ → Bool
is_some none = false
is_some (some t) = true

unfoldable pub clear_player_points : View → ℕ → Party → Party
unfolding update_shared_experience
clear_player_points v player p =
    if is_some (p.ticks player)
    then update_shared_experience v (record p { ticks = update p.ticks player none })
    else p
