-- ===== src/Player/Magic/Spent.antt =====
-- Mana spent is neither lost nor invented on the way to the next magic levels.
use asca_ci.Base.{
  ℕ, zero, suc, ◌+◌, ◌≤◌, ◌<◌, ◌≡◌, refl, sym, ap, subst, ◌∙◌, false, ltb, leb, ◌==◌, arith,
  Bool-cases, inl, inr, ◌⊎◌,
}
use asca_ci.Base.Bits.{u32, u64}
use asca_ci.Player.Magic.{Magic, Casting, spend, spend_levels, settle, casting_of, add_mana_spent}
use asca_ci.Player.Skills.Advance.{IsAdvanced, IsAdvanced-suc}

module _ (req_mana : ℕ → ℕ) where
  -- The loop's variables fit.
  record IsCasting (c : Casting) : Type 0 where
    next : c.next_req_mana ≡ req_mana (suc c.magic.mag_level)
    open_ended : c.magic.mana_spent < c.next_req_mana
    room : c.magic.mana_spent + c.amount < 0x1_0000_0000_0000_0000
    low : c.magic.mag_level + c.amount < 0xFFFF_FFFF

  -- The mana `given` at a level has come to `m`; at the largest level, the percentage is `stale`.
  pub record IsSpent (level given stale : ℕ) (m : Magic) : Type 0 where
    pub advanced : IsAdvanced req_mana level given m.mag_level m.mana_spent
    pub percent :
        (req_mana m.mag_level < req_mana (suc m.mag_level)) ⊎ (m.mag_level_percent ≡ stale)

  settle-IsSpent :
      (fuel : ℕ) (c : Casting)
      → c.amount < fuel
      → IsCasting c
      → c.curr_req_mana ≡ req_mana c.magic.mag_level
      → c.curr_req_mana < c.next_req_mana
      → IsSpent c.magic.mag_level
          (c.magic.mana_spent + c.amount)
          c.magic.mag_level_percent
          (settle req_mana (spend_levels req_mana fuel c))
  unfolding spend_levels spend settle
  settle-IsSpent zero c enough i curr grows = absurd (omega arith)
  settle-IsSpent (suc fuel) c enough i curr grows =
      let sum : u64 (c.magic.mana_spent + c.amount) ≡ c.magic.mana_spent + c.amount =
        omega (arith, i.room) in
      elim (Bool-cases (ltb (u64 (c.magic.mana_spent + c.amount)) c.next_req_mana)) [
        | inl stop ↦
            rw (stop, sum)
              (record {
                advanced = record {
                  gained = 0;
                  risen = omega arith;
                  balance = inl (
                    omega arith,
                    subst (λ n. c.magic.mana_spent + c.amount < n) i.next (ground (arith, stop)),
                  );
                };
                percent = inl (omega (arith, i.next, curr, grows));
              })
        | inr go ↦
            let enough_mana : c.next_req_mana ≤ c.magic.mana_spent + c.amount =
              ground (arith, go) in
            let up : u32 (c.magic.mag_level + 1) ≡ suc c.magic.mag_level =
              omega (arith, i.open_ended, i.low) in
            let next' : (spend req_mana c).next_req_mana ≡ req_mana (suc (suc c.magic.mag_level)) =
              ap req_mana (omega (arith, i.open_ended, i.low)) in
            let amount' : (spend req_mana c).amount + c.next_req_mana
                ≡ c.magic.mana_spent + c.amount =
              omega (arith, i.open_ended, i.room) in
            elim (Bool-cases (leb (spend req_mana c).next_req_mana c.next_req_mana)) [
              | inl top ↦
                  rw (go, top)
                    (record {
                      advanced = record {
                        gained = 1;
                        risen = omega (arith, up);
                        balance = inr (rw up (ground (arith, top, next', i.next)), refl);
                      };
                      percent = inr refl;
                    })
              | inr on ↦
                  let i' : IsCasting (spend req_mana c) = record {
                    next = next' ∙ ap (λ n. req_mana (suc n)) (sym up);
                    open_ended = ground (arith, on);
                    room = omega (arith, i.room);
                    low = omega (arith, i.low, i.open_ended);
                  } in
                  let r =
                    settle-IsSpent fuel (spend req_mana c) (omega (arith, i.open_ended)) i'
                      (i.next ∙ ap req_mana (sym up)) (ground (arith, on)) in
                  rw (go, on)
                    (record {
                      advanced = IsAdvanced-suc req_mana (omega (arith, amount', i.next)) (
                          subst
                            (λ l.
                              IsAdvanced req_mana l
                                ((spend req_mana c).magic.mana_spent + (spend req_mana c).amount)
                                (settle req_mana
                                  (spend_levels req_mana fuel (spend req_mana c))).mag_level
                                (settle req_mana
                                  (spend_levels req_mana fuel (spend req_mana c))).mana_spent)
                            up r.advanced);
                      percent = r.percent;
                    })
            ]
      ]

  -- A player below the largest magic level, with less mana spent than the next level needs, is
  -- credited with mana that fits the counters: the mana of the levels gained and what is left add
  -- up to what there was and what is granted, and less is left than the next level needs; or the
  -- largest level is reached with none left, and the percentage is still the old one.
  pub add_mana_spent-IsSpent :
      (on_gain : ℕ → ℕ) (amount : ℕ) (m : Magic)
      → req_mana m.mag_level < req_mana (suc m.mag_level)
      → m.mana_spent < req_mana (suc m.mag_level)
      → m.mana_spent + on_gain amount < 0x1_0000_0000_0000_0000
      → m.mag_level + on_gain amount < 0xFFFF_FFFF
      → IsSpent m.mag_level
          (m.mana_spent + on_gain amount)
          m.mag_level_percent
          (add_mana_spent req_mana false on_gain amount m)
  unfolding add_mana_spent
  add_mana_spent-IsSpent on_gain amount m open_ended short room low =
      let up : u32 (m.mag_level + 1) ≡ suc m.mag_level = omega arith in
      let not_top : leb (req_mana (u32 (m.mag_level + 1))) (req_mana m.mag_level) ≡ false =
        rw up (ground arith) in
      elim (Bool-cases (on_gain amount == 0)) [
        | inl nothing ↦
            rw (not_top, nothing)
              (record {
                advanced = record {
                  gained = 0;
                  risen = omega arith;
                  balance = inl (ground (arith, nothing), short);
                };
                percent = inr refl;
              })
        | inr some ↦
            rw (not_top, some)
              (settle-IsSpent (on_gain amount + 1) (casting_of req_mana (on_gain amount) m)
                (omega arith)
                (record { next = ap req_mana up; open_ended = rw up short; room = room; low = low })
                refl (rw up open_ended))
      ]
