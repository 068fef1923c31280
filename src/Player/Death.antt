-- ===== src/Player/Death.antt =====
-- What a death takes: magic levels, skills and experience, of `Player::death` of src/player.cpp. The share that
-- is lost is a floating-point number, so what it takes of a sum is an argument.
pub mod Balance
pub mod Tests
pub mod Experience
use asca_ci.Base.{
  ℕ, zero, suc, ◌+◌, ◌-◌, Bool, true, false, List, [], ◌∷◌, ltb, leb, ◌==◌, ◌||◌, if◌then◌else◌,
}
use asca_ci.Base.Bits.{u32, u64}
use asca_ci.Player.Experience.{
  get_percent_level, Player, Vocation, get_exp_for_level, lower_levels, set_percent,
}
use asca_ci.Player.Magic.{Magic}
use asca_ci.Player.Skills.{Skill, sub64}

-- The loop's variables: the level, what is spent at it and what is still to be lost.
pub record Loss : Type 0 where
  pub level : ℕ
  pub spent : ℕ
  pub lost : ℕ

module _ (req_mana : ℕ → ℕ) where
  -- The loop that sums up the mana of the levels.
  unfoldable pub sum_mana : ℕ → ℕ
  sum_mana zero = 0
  sum_mana (suc level) = u64 (sum_mana level + req_mana (suc level))

  -- The loop, by the magic level, which falls each time.
  unfoldable pub lose_mana : ℕ → ℕ → ℕ → Loss
  lose_mana zero spent lost = record { level = 0; spent = spent; lost = lost }
  lose_mana (suc level) spent lost =
      let rest = lose_mana level (req_mana (suc level)) (lost - spent) in
      if ltb spent lost then rest else record { level = suc level; spent = spent; lost = lost }

  unfoldable pub lower_magic : Loss → Magic
  lower_magic l =
      let spent = sub64 l.spent l.lost in
      let next_req_mana = req_mana (u32 (l.level + 1)) in
      record {
        mana_spent = spent;
        mag_level = l.level;
        mag_level_percent =
            if ltb (req_mana l.level) next_req_mana
            then get_percent_level spent next_req_mana
            else 0;
      }

  unfoldable pub lose_magic : (ℕ → ℕ) → Magic → Magic
  unfolding sum_mana lose_mana lower_magic
  lose_magic share m =
      lower_magic
        (lose_mana m.mag_level m.mana_spent (share (u64 (sum_mana m.mag_level + m.mana_spent))))

module _ (req_tries : ℕ → ℕ) where
  -- The loop that sums up the tries of the levels above 10.
  unfoldable pub sum_tries : ℕ → ℕ
  sum_tries zero = 0
  sum_tries (suc level) =
      let below = sum_tries level in
      if leb (suc level) 10 then 0 else u64 (below + req_tries (suc level))

  -- The loop, by the level; at level 10 nothing more is lost.
  unfoldable pub lose_tries : ℕ → ℕ → ℕ → Loss
  lose_tries zero tries lost =
      if ltb tries lost
      then record { level = 10; spent = 0; lost = 0 }
      else record { level = 0; spent = tries; lost = lost }
  lose_tries (suc level) tries lost =
      let rest = lose_tries level (req_tries (suc level)) (lost - tries) in
      if ltb tries lost
      then if leb (suc level) 10 then record { level = 10; spent = 0; lost = 0 } else rest
      else record { level = suc level; spent = tries; lost = lost }

  -- `std::max<int32_t>(0, tries - lost)`.
  unfoldable pub less_tries : ℕ → ℕ → ℕ
  less_tries tries lost = let d = u32 (sub64 tries lost) in if leb 0x8000_0000 d then 0 else d

  -- The percentage is that of the tries which the level itself has needed.
  unfoldable pub lower_skill : Loss → Skill
  unfolding less_tries
  lower_skill l = record {
    tries = less_tries l.spent l.lost;
    level = l.level;
    percent = get_percent_level (less_tries l.spent l.lost) (req_tries l.level);
  }

  unfoldable pub lose_skill : (ℕ → ℕ) → Skill → Skill
  unfolding sum_tries lose_tries lower_skill
  lose_skill share s =
      lower_skill (lose_tries s.level s.tries (u32 (share (u64 (sum_tries s.level + s.tries)))))

-- The skills with what their levels need.
unfoldable pub lose_skills : (ℕ → ℕ) → List ((ℕ → ℕ) × Skill) → List Skill
unfolding lose_skill
lose_skills share [] = []
lose_skills share ((req_tries, s) ∷ skills) =
    lose_skill req_tries share s ∷ lose_skills share skills

-- The experience that is left before the level falls: it is kept up to level 7 where the player
-- has a vocation.
unfoldable pub after_loss : Bool → ℕ → Player → Player
after_loss no_vocation taken p =
    if no_vocation || ltb 7 p.level then record p { experience = sub64 p.experience taken } else p

-- `on_lose` is the script's handler, which may change the amount.
unfoldable pub lose_experience : Vocation → Bool → (ℕ → ℕ) → (ℕ → ℕ) → Player → Player
unfolding after_loss
lose_experience v no_vocation on_lose share p =
    let taken = on_lose (share p.experience) in
    if taken == 0
    then p
    else (let q =
          lower_levels (after_loss no_vocation taken p).level v (after_loss no_vocation taken p) in
        set_percent (get_exp_for_level q.level) (get_exp_for_level (u32 (q.level + 1))) q)
