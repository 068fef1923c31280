-- ===== src/Player/Skills/Advance.antt =====
-- Tries are neither lost nor invented on the way to the next levels.
use asca_ci.Base.{
  ℕ, zero, suc, ◌+◌, ◌≤◌, ◌<◌, ◌≡◌, refl, sym, ap, subst, ◌∙◌, false, ltb, leb, ◌==◌, arith,
  Bool-cases, inl, inr, ◌⊎◌,
}
use asca_ci.Base.Bits.{u16, u64}
use asca_ci.Player.Skills.{
  Skill, Training, train, train_levels, credit, training_of, add_skill_advance,
}

module _ (req_tries : ℕ → ℕ) where
  -- The tries that `n` levels above a level need.
  abbrev pub total : ℕ → ℕ → ℕ
  total level zero = 0
  total level (suc n) = req_tries (suc level) + total (suc level) n

  -- `given` tries at `level` have come to `tries` tries at `level'`: what the levels in between
  -- needed and what is left make up what was given, and what is left is short of the next level;
  -- or the largest level is reached.
  pub record IsAdvanced (level given level' tries : ℕ) : Type 0 where
    pub gained : ℕ
    pub risen : level' ≡ level + gained
    pub balance :
        ((total level gained + tries ≡ given) × (tries < req_tries (suc level')))
        ⊎ ((req_tries (suc level') ≤ req_tries level') × (tries ≡ 0))

  pub IsAdvanced-suc :
      {level given given' level' tries : ℕ}
      → given ≡ req_tries (suc level) + given'
      → IsAdvanced (suc level) given' level' tries
      → IsAdvanced level given level' tries
  IsAdvanced-suc {level} {given} {given'} {level'} {tries} e a = record {
    gained = suc a.gained;
    risen = omega (arith, a.risen);
    balance = elim a.balance [
      | inl (sum, short) ↦ inl (omega (arith, sum), short)
      | inr top ↦ inr top
    ];
  }

  -- The loop's variables fit.
  record IsTraining (t : Training) : Type 0 where
    next : t.next_req_tries ≡ req_tries (suc t.skill.level)
    open_ended : t.skill.tries < t.next_req_tries
    room : t.skill.tries + t.count < 0x1_0000_0000_0000_0000
    low : t.skill.level + t.count < 0xFFFF

  -- The loop's result.
  record IsTrained (t t' : Training) : Type 0 where
    fits : t'.skill.tries + t'.count < 0x1_0000_0000_0000_0000
    advanced :
        IsAdvanced t.skill.level
          (t.skill.tries + t.count)
          t'.skill.level
          (t'.skill.tries + t'.count)

  train_levels-IsTrained :
      (fuel : ℕ) (t : Training)
      → t.count < fuel
      → IsTraining t
      → IsTrained t (train_levels req_tries fuel t)
  unfolding train_levels train
  train_levels-IsTrained zero t enough i = absurd (omega arith)
  train_levels-IsTrained (suc fuel) t enough i =
      let sum : u64 (t.skill.tries + t.count) ≡ t.skill.tries + t.count = omega (arith, i.room) in
      elim (Bool-cases (ltb (u64 (t.skill.tries + t.count)) t.next_req_tries)) [
        | inl stop ↦ rw stop (record {
          fits = i.room;
          advanced = record {
            gained = 0;
            risen = omega arith;
            balance = inl (
              omega arith,
              subst (λ n. t.skill.tries + t.count < n) i.next (ground (arith, stop)),
            );
          };
        })
        | inr go ↦
            let enough_tries : t.next_req_tries ≤ t.skill.tries + t.count = ground (arith, go) in
            let up : u16 (t.skill.level + 1) ≡ suc t.skill.level =
              omega (arith, i.open_ended, i.low) in
            let next' : (train req_tries t).next_req_tries ≡ req_tries (suc (suc t.skill.level)) =
              ap req_tries (omega (arith, i.open_ended, i.low)) in
            let count' : (train req_tries t).count + t.next_req_tries ≡ t.skill.tries + t.count =
              omega (arith, i.open_ended, i.room) in
            elim (Bool-cases (leb (train req_tries t).next_req_tries t.next_req_tries)) [
              | inl top ↦
                  rw (go, top)
                    (record {
                      fits = omega arith;
                      advanced = record {
                        gained = 1;
                        risen = omega (arith, up);
                        balance = inr (rw up (ground (arith, top, next', i.next)), omega arith);
                      };
                    })
              | inr on ↦
                  let i' : IsTraining (train req_tries t) = record {
                    next = next' ∙ ap (λ n. req_tries (suc n)) (sym up);
                    open_ended = ground (arith, on);
                    room = omega (arith, i.room);
                    low = omega (arith, i.low, i.open_ended);
                  } in
                  let r =
                    train_levels-IsTrained fuel (train req_tries t) (omega (arith, i.open_ended))
                      i' in
                  rw (go, on)
                    (record {
                      fits = r.fits;
                      advanced = IsAdvanced-suc (omega (arith, count', i.next)) (
                          subst
                            (λ l.
                              IsAdvanced l
                                ((train req_tries t).skill.tries + (train req_tries t).count)
                                (train_levels req_tries fuel (train req_tries t)).skill.level
                                ((train_levels req_tries fuel (train req_tries t)).skill.tries
                                  + (train_levels req_tries fuel (train req_tries t)).count))
                            up r.advanced);
                    })
            ]
      ]

  credit-same :
      (t : Training)
      → t.skill.tries + t.count < 0x1_0000_0000_0000_0000
      → ((credit req_tries t).level ≡ t.skill.level)
        × ((credit req_tries t).tries ≡ t.skill.tries + t.count)
  unfolding credit
  credit-same t h = (refl, omega arith)

  -- A skill below the largest level, with fewer tries than the next level needs, is given tries
  -- that fit the counters: the required tries of the levels gained and the tries left add up to
  -- the tries there were and those granted, and fewer are left than the next level needs; or the
  -- largest level is reached, with none left.
  pub add_skill_advance-IsAdvanced :
      (on_gain : ℕ → ℕ) (count : ℕ) (s : Skill)
      → req_tries s.level < req_tries (suc s.level)
      → s.tries < req_tries (suc s.level)
      → s.tries + on_gain count < 0x1_0000_0000_0000_0000
      → s.level + on_gain count < 0xFFFF
      → IsAdvanced s.level
          (s.tries + on_gain count)
          (add_skill_advance req_tries on_gain count s).level
          (add_skill_advance req_tries on_gain count s).tries
  unfolding add_skill_advance
  add_skill_advance-IsAdvanced on_gain count s open_ended short room low =
      let up : u16 (s.level + 1) ≡ suc s.level = omega arith in
      let not_top : leb (req_tries (u16 (s.level + 1))) (req_tries s.level) ≡ false =
        rw up (ground arith) in
      elim (Bool-cases (on_gain count == 0)) [
        | inl nothing ↦
            rw (not_top, nothing)
              (record {
                gained = 0;
                risen = omega arith;
                balance = inl (ground (arith, nothing), short);
              })
        | inr some ↦
            let t =
              train_levels req_tries (on_gain count + 1)
                (training_of req_tries (on_gain count) s) in
            let r =
              train_levels-IsTrained (on_gain count + 1) (training_of req_tries (on_gain count) s)
                (omega arith)
                (record {
                  next = ap req_tries up;
                  open_ended = rw up short;
                  room = room;
                  low = low;
                }) in
            let (level', tries') = credit-same t r.fits in
            rw (not_top, some) (rw (level', tries') r.advanced)
      ]
