-- ===== src/Player/Skills.antt =====
-- Skills and magic levels of src/player.cpp. The vocation's required tries and mana are powers of
-- a floating-point number, so they are arguments; so are the scripts' event handlers. Texts and
-- packets are left out.
pub mod Advance
use asca_ci.Base.{ℕ, zero, suc, ◌+◌, ◌-◌, Bool, true, false, ltb, leb, ◌==◌, if◌then◌else◌}
use asca_ci.Base.Bits.{u16, u32, u64}
use asca_ci.Player.Experience.{get_percent_level}

pub record Skill : Type 0 where
  pub tries : ℕ
  pub level : ℕ
  pub percent : ℕ

-- The loop's variables.
pub record Training : Type 0 where
  pub skill : Skill
  pub count : ℕ
  pub curr_req_tries : ℕ
  pub next_req_tries : ℕ

-- `a - b` on 64 bits.
abbrev pub sub64 : ℕ → ℕ → ℕ
sub64 a b = u64 (a + 0x1_0000_0000_0000_0000 - u64 b)

module _ (req_tries : ℕ → ℕ) where
  -- The body of the loop, up to the test of the largest level.
  unfoldable pub train : Training → Training
  train t =
      let level = u16 (t.skill.level + 1) in
      record {
        skill = record { tries = 0; level = level; percent = 0 };
        count = sub64 t.count (sub64 t.next_req_tries t.skill.tries);
        curr_req_tries = t.next_req_tries;
        next_req_tries = req_tries (u16 (level + 1));
      }

  -- The loop, on fuel.
  unfoldable pub train_levels : ℕ → Training → Training
  train_levels zero t = t
  train_levels (suc fuel) t =
      let rest = train_levels fuel (train t) in
      if ltb (u64 (t.skill.tries + t.count)) t.next_req_tries
      then t
      else if leb (train t).next_req_tries (train t).curr_req_tries
      then record (train t) { count = 0 }
      else rest

  -- What follows the loop.
  unfoldable pub credit : Training → Skill
  credit t =
      let tries = u64 (t.skill.tries + t.count) in
      record {
        tries = tries;
        level = t.skill.level;
        percent =
            if ltb t.curr_req_tries t.next_req_tries
            then get_percent_level tries t.next_req_tries
            else 0;
      }

  abbrev pub training_of : ℕ → Skill → Training
  training_of count s = record {
    skill = s;
    count = count;
    curr_req_tries = req_tries s.level;
    next_req_tries = req_tries (u16 (s.level + 1));
  }

  unfoldable pub add_skill_advance : (ℕ → ℕ) → ℕ → Skill → Skill
  unfolding train_levels credit
  add_skill_advance on_gain count s =
      if leb (req_tries (u16 (s.level + 1))) (req_tries s.level)
      then s
      else if on_gain count == 0
      then s
      else credit (train_levels (on_gain count + 1) (training_of (on_gain count) s))
