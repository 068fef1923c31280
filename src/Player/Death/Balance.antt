-- ===== src/Player/Death/Balance.antt =====
-- A death takes exactly the share that is lost.
use asca_ci.Base.{
  ℕ, zero, suc, ◌+◌, ◌-◌, ◌≤◌, ◌<◌, ◌≡◌, refl, ltb, leb, arith, if◌then◌else◌, Bool-cases, inl, inr,
}
use asca_ci.Base.Bits.{u32, u64}
use asca_ci.Player.Magic.{Magic}
use asca_ci.Player.Skills.{Skill}
use asca_ci.Player.Death.{
  Loss, sum_mana, lose_mana, lower_magic, lose_magic, sum_tries, lose_tries, less_tries,
  lower_skill, lose_skill,
}

module _ (req_mana : ℕ → ℕ) where
  -- The mana of all the levels up to one, without bounds.
  abbrev pub total_mana : ℕ → ℕ
  total_mana zero = 0
  total_mana (suc level) = total_mana level + req_mana (suc level)

  sum_mana-total_mana :
      (level : ℕ)
      → total_mana level < 0x1_0000_0000_0000_0000
      → sum_mana req_mana level ≡ total_mana level
  unfolding sum_mana
  sum_mana-total_mana zero h = refl
  sum_mana-total_mana (suc level) h = omega (arith, sum_mana-total_mana level (omega (arith, h)), h)

  -- What was there is what is left and what was lost; less is left than the next level needs.
  pub record IsLost (level spent lost : ℕ) (l : Loss) : Type 0 where
    pub balance : total_mana l.level + l.spent + lost ≡ total_mana level + spent + l.lost
    pub whole : total_mana l.level + l.spent ≤ total_mana level + spent
    pub enough : l.lost ≤ l.spent
    pub short : l.spent - l.lost < req_mana (suc l.level)
    pub lower : l.level ≤ level

  lose_mana-IsLost :
      ((l : ℕ) → 0 < req_mana (suc l))
      → (level spent lost : ℕ) → lost ≤ total_mana level + spent
      → spent - lost < req_mana (suc level)
      → IsLost level spent lost (lose_mana req_mana level spent lost)
  unfolding lose_mana
  lose_mana-IsLost positive zero spent lost h short = record {
    balance = omega arith;
    whole = omega arith;
    enough = omega (arith, h);
    short = short;
    lower = omega arith;
  }
  lose_mana-IsLost positive (suc level) spent lost h short = elim (Bool-cases (ltb spent lost)) [
    | inr done ↦ rw done (record {
      balance = omega arith;
      whole = omega arith;
      enough = ground (arith, done);
      short = short;
      lower = omega arith;
    })
    | inl more ↦
        let r =
          lose_mana-IsLost positive level (req_mana (suc level)) (lost - spent)
            (ground (arith, h, more)) (ground (arith, positive level, more)) in
        rw more (record {
          balance = ground (arith, r.balance, more);
          whole = omega (arith, r.whole);
          enough = r.enough;
          short = r.short;
          lower = omega (arith, r.lower);
        })
  ]

  lower_magic-exact :
      (l : Loss)
      → l.lost ≤ l.spent
      → l.spent < 0x1_0000_0000_0000_0000
      → ((lower_magic req_mana l).mana_spent ≡ l.spent - l.lost)
        × ((lower_magic req_mana l).mag_level ≡ l.level)
  unfolding lower_magic
  lower_magic-exact l h small = (omega (arith, h, small), refl)

  -- A magic level with less mana spent than the next level needs, where each level needs some
  -- mana and all of it fits 64 bits, and where the share that is lost is not more than the sum:
  -- the mana of the levels that are left and the mana spent are less than before by exactly this
  -- share, less is spent than the next level needs, and the level has not risen.
  pub lose_magic-exact :
      (share : ℕ → ℕ) (m : Magic)
      → ((l : ℕ) → 0 < req_mana (suc l))
      → m.mana_spent < req_mana (suc m.mag_level)
      → total_mana m.mag_level + m.mana_spent < 0x1_0000_0000_0000_0000
      → share (total_mana m.mag_level + m.mana_spent) ≤ total_mana m.mag_level + m.mana_spent
      → (total_mana (lose_magic req_mana share m).mag_level
            + (lose_magic req_mana share m).mana_spent
            + share (total_mana m.mag_level + m.mana_spent)
          ≡ total_mana m.mag_level + m.mana_spent)
        × ((lose_magic req_mana share m).mana_spent
            < req_mana (suc (lose_magic req_mana share m).mag_level))
        × ((lose_magic req_mana share m).mag_level ≤ m.mag_level)
  unfolding lose_magic
  lose_magic-exact share m positive short small most =
      let all = total_mana m.mag_level + m.mana_spent in
      let sum : u64 (sum_mana req_mana m.mag_level + m.mana_spent) ≡ all =
        omega (arith, small, sum_mana-total_mana m.mag_level (omega (arith, small))) in
      let i =
        lose_mana-IsLost positive m.mag_level m.mana_spent (share all) most
          (omega (arith, short)) in
      let l = lose_mana req_mana m.mag_level m.mana_spent (share all) in
      let (left, same) = lower_magic-exact l i.enough (omega (arith, i.whole, small)) in
      rw (sum, left) (omega (arith, i.balance, i.enough), i.short, i.lower)

module _ (req_tries : ℕ → ℕ) where
  -- The tries of the levels above 10, without bounds.
  abbrev pub total_tries : ℕ → ℕ
  total_tries zero = 0
  total_tries (suc level) =
      let below = total_tries level in
      if leb (suc level) 10 then 0 else below + req_tries (suc level)

  sum_tries-total_tries :
      (level : ℕ)
      → total_tries level < 0x1_0000_0000_0000_0000
      → sum_tries req_tries level ≡ total_tries level
  unfolding sum_tries
  sum_tries-total_tries zero h = refl
  sum_tries-total_tries (suc level) h = elim (Bool-cases (leb (suc level) 10)) [
    | inl low ↦ rw low refl
    | inr high ↦
        let below : total_tries level < 0x1_0000_0000_0000_0000 = ground (arith, h, high) in
        ground (arith, sum_tries-total_tries level below, h, high)
  ]

  -- What was there is what is left and what was lost; less is left than the next level needs.
  pub record IsUnlearned (level tries lost : ℕ) (l : Loss) : Type 0 where
    pub balance : total_tries l.level + l.spent + lost ≡ total_tries level + tries + l.lost
    pub whole : total_tries l.level + l.spent ≤ total_tries level + tries
    pub enough : l.lost ≤ l.spent
    pub short : l.spent - l.lost < req_tries (suc l.level)
    pub least : 10 ≤ l.level
    pub lower : l.level ≤ level

  lose_tries-IsUnlearned :
      ((l : ℕ) → 0 < req_tries (suc l))
      → (level tries lost : ℕ) → 10 ≤ level
      → lost ≤ total_tries level + tries
      → tries - lost < req_tries (suc level)
      → IsUnlearned level tries lost (lose_tries req_tries level tries lost)
  unfolding lose_tries
  lose_tries-IsUnlearned positive zero tries lost ten h short = absurd (omega (arith, ten))
  lose_tries-IsUnlearned positive (suc level) tries lost ten h short =
      elim (Bool-cases (ltb tries lost)) [
        | inr done ↦ rw done (record {
          balance = omega arith;
          whole = omega arith;
          enough = ground (arith, done);
          short = short;
          least = ten;
          lower = omega arith;
        })
        | inl more ↦ elim (Bool-cases (leb (suc level) 10)) [
          | inl low ↦ absurd (ground (arith, low, h, more))
          | inr high ↦
              let r =
                lose_tries-IsUnlearned positive level (req_tries (suc level)) (lost - tries)
                  (ground (arith, high)) (ground (arith, h, more, high))
                  (ground (arith, positive level, more)) in
              rw (more, high)
                (record {
                  balance = ground (arith, r.balance, more, high);
                  whole = ground (arith, r.whole, high);
                  enough = r.enough;
                  short = r.short;
                  least = r.least;
                  lower = omega (arith, r.lower);
                })
        ]
      ]

  lower_skill-exact :
      (l : Loss)
      → l.lost ≤ l.spent
      → l.spent < 0x8000_0000
      → ((lower_skill req_tries l).tries ≡ l.spent - l.lost)
        × ((lower_skill req_tries l).level ≡ l.level)
  unfolding lower_skill less_tries
  lower_skill-exact l h small = (ground (arith, h, small), refl)

  -- A skill of at least level 10 with fewer tries than the next level needs, where each level
  -- needs some tries, all of them above level 10 are fewer than 2^31, and the share that is lost
  -- is not more than their sum: the tries of the levels that are left above 10 and those at the
  -- level are fewer than before by exactly this share, fewer are left than the next level needs,
  -- and the level has not risen, nor fallen below 10.
  pub lose_skill-exact :
      (share : ℕ → ℕ) (s : Skill)
      → ((l : ℕ) → 0 < req_tries (suc l))
      → 10 ≤ s.level
      → s.tries < req_tries (suc s.level)
      → total_tries s.level + s.tries < 0x8000_0000
      → share (total_tries s.level + s.tries) ≤ total_tries s.level + s.tries
      → (total_tries (lose_skill req_tries share s).level
            + (lose_skill req_tries share s).tries
            + share (total_tries s.level + s.tries)
          ≡ total_tries s.level + s.tries)
        × ((lose_skill req_tries share s).tries
            < req_tries (suc (lose_skill req_tries share s).level))
        × ((lose_skill req_tries share s).level ≤ s.level)
        × (10 ≤ (lose_skill req_tries share s).level)
  unfolding lose_skill
  lose_skill-exact share s positive ten short small most =
      let all = total_tries s.level + s.tries in
      let sum : u64 (sum_tries req_tries s.level + s.tries) ≡ all =
        omega (arith, small, sum_tries-total_tries s.level (omega (arith, small))) in
      let narrow : u32 (share all) ≡ share all = omega (arith, small, most) in
      let i =
        lose_tries-IsUnlearned positive s.level s.tries (share all) ten most
          (omega (arith, short)) in
      let (left, same) =
        lower_skill-exact (lose_tries req_tries s.level s.tries (share all)) i.enough
          (omega (arith, i.whole, small)) in
      rw (sum, narrow, left) (omega (arith, i.balance, i.enough), i.short, i.lower, i.least)
