-- ===== src/Player/Offline/Agreement.antt =====
-- Offline training and training advance alike.
use asca_ci.Base.{
  ℕ, zero, suc, ◌+◌, ◌<◌, ◌≡◌, refl, true, false, leb, ltb, ◌==◌, arith, Bool-cases, inl, inr, ◌⊎◌,
}
use asca_ci.Base.Bits.{u16, u32, u64}
use asca_ci.Player.Magic.{Magic, Casting, spend, settle, add_mana_spent, spend_levels}
use asca_ci.Player.Magic.Spent.{add_mana_spent-IsSpent}
use asca_ci.Player.Skills.Advance.{IsAdvanced}
use asca_ci.Player.Offline.{
  Workout, Exercise, exercise, exercise_levels, settle_offline, work_out, work_out_levels,
  settle_skill, add_offline_skill_tries, add_offline_mana_tries,
}
use asca_ci.Player.Skills.{Skill, Training, train, train_levels, credit, add_skill_advance}

stays : (n a : ℕ) → ltb a n ≡ true → leb n a ≡ false
stays n a h = ground (arith, h)

rises : (n a : ℕ) → ltb a n ≡ false → leb n a ≡ true
rises n a h = ground (arith, h)

module _ (req_tries : ℕ → ℕ) where
  abbrev training : Workout → Training
  training w = record {
    skill = w.skill;
    count = w.tries;
    curr_req_tries = w.curr_req_tries;
    next_req_tries = w.next_req_tries;
  }

  settle_skill-credit :
      (fuel : ℕ) (w : Workout)
      → settle_skill req_tries (work_out_levels req_tries fuel w)
        ≡ credit req_tries (train_levels req_tries fuel (training w))
  unfolding work_out_levels work_out train_levels train settle_skill credit
  settle_skill-credit zero w = refl
  settle_skill-credit (suc fuel) w =
      let sum = u64 (w.skill.tries + w.tries) in
      elim (Bool-cases (ltb sum w.next_req_tries)) [
        | inl stop ↦ rw (stop, stays w.next_req_tries sum stop) refl
        | inr go ↦ elim (Bool-cases (leb (work_out req_tries w).next_req_tries w.next_req_tries)) [
          | inl top ↦ rw (go, rises w.next_req_tries sum go, top) refl
          | inr on ↦
              rw (go, rises w.next_req_tries sum go, on)
                (settle_skill-credit fuel (work_out req_tries w))
        ]
      ]

  -- Where there are tries, and the script grants some, a skill comes to the same offline.
  pub add_offline_skill_tries-add_skill_advance :
      (on_gain : ℕ → ℕ) (tries : ℕ) (s : Skill)
      → 0 < tries
      → 0 < on_gain tries
      → add_offline_skill_tries req_tries on_gain tries s
        ≡ add_skill_advance req_tries on_gain tries s
  unfolding add_offline_skill_tries add_skill_advance
  add_offline_skill_tries-add_skill_advance on_gain tries s some granted =
      let some' : (tries == 0) ≡ false = ground (arith, some) in
      let granted' : (on_gain tries == 0) ≡ false = ground (arith, granted) in
      elim (Bool-cases (leb (req_tries (u16 (s.level + 1))) (req_tries s.level))) [
        | inl top ↦ rw (some', top) refl
        | inr below ↦
            rw (some', granted', below)
              (settle_skill-credit (on_gain tries + 1) (record {
                skill = s;
                tries = on_gain tries;
                curr_req_tries = req_tries s.level;
                next_req_tries = req_tries (u16 (s.level + 1));
              }))
      ]

module _ (req_mana : ℕ → ℕ) where
  abbrev casting : Exercise → Casting
  casting e = record {
    magic = e.magic;
    amount = e.tries;
    curr_req_mana = e.curr_req_mana;
    next_req_mana = e.next_req_mana;
  }

  -- The mana and the level are the same, and so is the percentage, but at the largest level, where
  -- it becomes 0 offline.
  pub record Agrees (offline m : Magic) : Type 0 where
    pub mana : offline.mana_spent ≡ m.mana_spent
    pub level : offline.mag_level ≡ m.mag_level
    pub percent :
        (offline.mag_level_percent ≡ m.mag_level_percent)
        ⊎ ((offline.mag_level_percent ≡ 0)
            × (leb (req_mana (u32 (m.mag_level + 1))) (req_mana m.mag_level) ≡ true))

  same-Agrees : (m : Magic) → Agrees m m
  same-Agrees m = record { mana = refl; level = refl; percent = inl refl }

  settle_offline-Agrees :
      (fuel : ℕ) (e : Exercise)
      → e.next_req_mana ≡ req_mana (u32 (e.magic.mag_level + 1))
      → Agrees
          (settle_offline req_mana (exercise_levels req_mana fuel e))
          (settle req_mana (spend_levels req_mana fuel (casting e)))
  unfolding exercise_levels exercise spend_levels spend settle_offline settle
  settle_offline-Agrees zero e next = record { mana = refl; level = refl; percent = inl refl }
  settle_offline-Agrees (suc fuel) e next =
      let sum = u64 (e.magic.mana_spent + e.tries) in
      elim (Bool-cases (ltb sum e.next_req_mana)) [
        | inl stop ↦
            rw (stop, stays e.next_req_mana sum stop)
              (record { mana = refl; level = refl; percent = inl refl })
        | inr go ↦ elim (Bool-cases (leb (exercise req_mana e).next_req_mana e.next_req_mana)) [
          | inl top ↦
              let no_next : ltb e.next_req_mana (exercise req_mana e).next_req_mana ≡ false =
                ground (arith, top) in
              rw (go, rises e.next_req_mana sum go, top)
                (record {
                  mana = refl;
                  level = refl;
                  percent = inr (rw no_next refl, rw (← next) top);
                })
          | inr on ↦
              rw (go, rises e.next_req_mana sum go, on)
                (settle_offline-Agrees fuel (exercise req_mana e) refl)
        ]
      ]

  -- Where there are tries, and the script grants some, a player that may gain mana comes to the same
  -- mana and the same magic level offline as by spending mana, and to the same percentage, or the
  -- largest magic level is reached, where the percentage becomes 0 offline.
  pub add_offline_mana_tries-add_mana_spent :
      (on_gain : ℕ → ℕ) (tries : ℕ) (m : Magic)
      → 0 < tries
      → 0 < on_gain tries
      → Agrees
          (add_offline_mana_tries req_mana on_gain tries m)
          (add_mana_spent req_mana false on_gain tries m)
  unfolding add_offline_mana_tries add_mana_spent
  add_offline_mana_tries-add_mana_spent on_gain tries m some granted =
      let some' : (tries == 0) ≡ false = ground (arith, some) in
      let granted' : (on_gain tries == 0) ≡ false = ground (arith, granted) in
      elim (Bool-cases (leb (req_mana (u32 (m.mag_level + 1))) (req_mana m.mag_level))) [
        | inl top ↦ rw (some', top) (same-Agrees m)
        | inr below ↦
            rw (some', granted', below)
              (settle_offline-Agrees (on_gain tries + 1)
                (record {
                  magic = m;
                  tries = on_gain tries;
                  curr_req_mana = req_mana m.mag_level;
                  next_req_mana = req_mana (u32 (m.mag_level + 1));
                })
                refl)
      ]

  -- So the tries that are granted offline are neither lost nor invented, under the conditions of
  -- `add_mana_spent-IsSpent`, under which the fuel is enough.
  pub add_offline_mana_tries-IsAdvanced :
      (on_gain : ℕ → ℕ) (tries : ℕ) (m : Magic)
      → 0 < tries
      → 0 < on_gain tries
      → req_mana m.mag_level < req_mana (suc m.mag_level)
      → m.mana_spent < req_mana (suc m.mag_level)
      → m.mana_spent + on_gain tries < 0x1_0000_0000_0000_0000
      → m.mag_level + on_gain tries < 0xFFFF_FFFF
      → IsAdvanced req_mana m.mag_level
          (m.mana_spent + on_gain tries)
          (add_offline_mana_tries req_mana on_gain tries m).mag_level
          (add_offline_mana_tries req_mana on_gain tries m).mana_spent
  add_offline_mana_tries-IsAdvanced on_gain tries m some granted open_ended short room low =
      let a = add_offline_mana_tries-add_mana_spent on_gain tries m some granted in
      rw (a.mana, a.level)
        (add_mana_spent-IsSpent req_mana on_gain tries m open_ended short room low).advanced
