-- ===== src/Player/Offline.antt =====
-- `addOfflineTrainingTries` of src/player.cpp, for a skill and for the magic level. The returned
-- flag and the texts are left out.
pub mod Agreement
use asca_ci.Base.{ℕ, zero, suc, ◌+◌, Bool, leb, ltb, ◌==◌, if◌then◌else◌}
use asca_ci.Base.Bits.{u16, u32, u64}
use asca_ci.Player.Experience.{get_percent_level}
use asca_ci.Player.Magic.{Magic}
use asca_ci.Player.Skills.{Skill, sub64}

-- The variables of the loop over skill levels, and of the one over magic levels.
pub record Workout : Type 0 where
  pub skill : Skill
  pub tries : ℕ
  pub curr_req_tries : ℕ
  pub next_req_tries : ℕ

pub record Exercise : Type 0 where
  pub magic : Magic
  pub tries : ℕ
  pub curr_req_mana : ℕ
  pub next_req_mana : ℕ

module _ (req_tries : ℕ → ℕ) where
  -- The body of the loop, up to the test of the largest level.
  unfoldable pub work_out : Workout → Workout
  work_out w =
      let level = u16 (w.skill.level + 1) in
      record {
        skill = record { tries = 0; level = level; percent = 0 };
        tries = sub64 w.tries (sub64 w.next_req_tries w.skill.tries);
        curr_req_tries = w.next_req_tries;
        next_req_tries = req_tries (u16 (level + 1));
      }

  -- The loop, on fuel.
  unfoldable pub work_out_levels : ℕ → Workout → Workout
  unfolding work_out
  work_out_levels zero w = w
  work_out_levels (suc fuel) w =
      let w' = work_out w in
      let rest = work_out_levels fuel w' in
      if leb w.next_req_tries (u64 (w.skill.tries + w.tries))
      then if leb w'.next_req_tries w'.curr_req_tries then record w' { tries = 0 } else rest
      else w

  -- What follows the loop.
  unfoldable pub settle_skill : Workout → Skill
  settle_skill w =
      let tries = u64 (w.skill.tries + w.tries) in
      record (w.skill) {
        tries = tries;
        percent =
            if ltb w.curr_req_tries w.next_req_tries
            then get_percent_level tries w.next_req_tries
            else 0;
      }

  -- The branch of a skill. Nothing stops it where the script grants no tries.
  unfoldable pub add_offline_skill_tries : (ℕ → ℕ) → ℕ → Skill → Skill
  unfolding work_out_levels settle_skill
  add_offline_skill_tries on_gain tries s =
      if tries == 0
      then s
      else let next = req_tries (u16 (s.level + 1)) in
        let w : Workout = record {
          skill = s;
          tries = on_gain tries;
          curr_req_tries = req_tries s.level;
          next_req_tries = next;
        } in
        if leb next (req_tries s.level)
        then s
        else settle_skill (work_out_levels (on_gain tries + 1) w)

module _ (req_mana : ℕ → ℕ) where
  -- The body of the loop, up to the test of the largest level.
  unfoldable pub exercise : Exercise → Exercise
  exercise e =
      let level = u32 (e.magic.mag_level + 1) in
      record {
        magic = record (e.magic) { mag_level = level; mana_spent = 0 };
        tries = sub64 e.tries (sub64 e.next_req_mana e.magic.mana_spent);
        curr_req_mana = e.next_req_mana;
        next_req_mana = req_mana (u32 (level + 1));
      }

  -- The loop, on fuel. At the largest level it is left with no tries.
  unfoldable pub exercise_levels : ℕ → Exercise → Exercise
  unfolding exercise
  exercise_levels zero e = e
  exercise_levels (suc fuel) e =
      let e' = exercise e in
      let rest = exercise_levels fuel e' in
      if leb e.next_req_mana (u64 (e.magic.mana_spent + e.tries))
      then if leb e'.next_req_mana e'.curr_req_mana then record e' { tries = 0 } else rest
      else e

  -- What follows the loop.
  unfoldable pub settle_offline : Exercise → Magic
  settle_offline e =
      let mana = u64 (e.magic.mana_spent + e.tries) in
      record (e.magic) {
        mana_spent = mana;
        mag_level_percent =
            if ltb e.curr_req_mana e.next_req_mana
            then get_percent_level mana e.next_req_mana
            else 0;
      }

  -- The branch of the magic level.
  unfoldable pub add_offline_mana_tries : (ℕ → ℕ) → ℕ → Magic → Magic
  unfolding exercise_levels settle_offline
  add_offline_mana_tries on_gain tries m =
      if tries == 0
      then m
      else let next = req_mana (u32 (m.mag_level + 1)) in
        let e : Exercise = record {
          magic = m;
          tries = on_gain tries;
          curr_req_mana = req_mana m.mag_level;
          next_req_mana = next;
        } in
        if leb next (req_mana m.mag_level)
        then m
        else settle_offline (exercise_levels (on_gain tries + 1) e)
