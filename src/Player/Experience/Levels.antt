-- ===== src/Player/Experience/Levels.antt =====
-- Level and experience stay in step.
use asca_ci.Base.{
  ℕ, zero, suc, ◌+◌, ◌-◌, ◌≤◌, ◌<◌, ◌≡◌, refl, sym, ap, subst, ◌∙◌, true, false, ◌&&◌, ◌||◌, ◌⊎◌,
  ltb, leb, arith, ◌==◌, lt→leb_false, Bool-cases, inl, inr,
}
use asca_ci.Base.Bits.{u32, u64}
use asca_ci.Player.Experience.{
  Player, Vocation, Climb, get_exp_for_level, gain_level, climbed, raise_levels, lose_level,
  lower_levels, add_experience, remove_experience, refresh, set_percent, less_exp, climb_of, grant,
}
use asca_ci.Player.Experience.Curve.{
  threshold, threshold-suc, threshold_mono, threshold-ge, level_limit, get_exp_for_level-threshold,
}

-- The experience lies between the threshold of the level and that of the next.
pub record IsLevelled (p : Player) : Type 0 where
  pub positive : 0 < p.level
  pub reached : threshold (p.level - 1) ≤ p.experience
  pub below : p.experience < threshold p.level

-- A player on the way up whose experience is below the limit.
record IsClimb (e0 : ℕ) (c : Climb) : Type 0 where
  same : c.player.experience ≡ e0
  small : e0 < threshold 699999
  positive : 0 < c.player.level
  reached : threshold (c.player.level - 1) ≤ e0
  curr : c.curr_level_exp ≡ threshold (c.player.level - 1)
  next : c.next_level_exp ≡ threshold c.player.level

IsClimb-level : {e0 : ℕ} {c : Climb} → IsClimb e0 c → c.player.level < level_limit
IsClimb-level {e0} {c} i = elim (Bool-cases (leb level_limit c.player.level)) [
  | inl high ↦
      let far : 699999 ≤ c.player.level - 1 = ground arith in
      absurd (omega (arith, i.small, i.reached, threshold_mono 699999 (c.player.level - 1) far))
  | inr low ↦ ground arith
]

climbed-IsClimb :
    (v : Vocation) (e0 : ℕ) (c : Climb)
    → IsClimb e0 c
    → c.next_level_exp ≤ e0
    → IsClimb e0 (climbed v c) × ((climbed v c).player.level ≡ suc c.player.level)
unfolding gain_level
climbed-IsClimb v e0 c i h =
    let l = c.player.level in
    let low = IsClimb-level i in
    let up : u32 (l + 1) ≡ suc l = omega arith in
    let up_two : u32 (u32 (l + 1) + 1) ≡ suc (suc l) = omega arith in
    let down : u32 (l + 1) - 1 ≡ l = omega arith in
    (
      record {
        same = i.same;
        small = i.small;
        positive = omega arith;
        reached = rw down (subst (λ n. n ≤ e0) i.next h);
        curr = rw down i.next;
        next =
            ap get_exp_for_level up_two
            ∙ get_exp_for_level-threshold (suc l) low
            ∙ ap threshold (sym up);
      },
      up,
    )

-- The loop ends, with enough fuel, at the level of the experience.
raise_levels-IsClimb :
    (fuel : ℕ) (v : Vocation) (e0 : ℕ) (c : Climb)
    → e0 + 1 < c.player.level + fuel
    → IsClimb e0 c
    → IsClimb e0 (raise_levels fuel v c)
      × (e0 < (raise_levels fuel v c).next_level_exp)
      × (c.player.level ≤ (raise_levels fuel v c).player.level)
unfolding raise_levels
raise_levels-IsClimb zero v e0 c fuel i =
    absurd (omega (arith, i.reached, threshold-ge (c.player.level - 1)))
raise_levels-IsClimb (suc fuel) v e0 c enough i =
    elim (Bool-cases (ltb c.player.experience c.next_level_exp)) [
      | inl stop ↦ rw stop (i, ground (arith, i.same), omega arith)
      | inr go ↦
          let h : c.next_level_exp ≤ e0 = ground (arith, i.same) in
          let (i', up) = climbed-IsClimb v e0 c i h in
          let (j, below, more) =
            raise_levels-IsClimb fuel v e0 (climbed v c) (omega (arith, up)) i' in
          let strict : (climbed v c).curr_level_exp < (climbed v c).next_level_exp =
            omega (arith, i.next, i'.next ∙ ap threshold up, threshold-suc c.player.level) in
          let grows : leb (climbed v c).next_level_exp (climbed v c).curr_level_exp ≡ false =
            ground arith in
          rw (go, grows) (j, below, omega (arith, up, more))
    ]

refresh-same :
    (v : Vocation) (old : ℕ) (p : Player)
    → ((refresh v old p).level ≡ p.level) × ((refresh v old p).experience ≡ p.experience)
unfolding refresh
refresh-same v old p = ground arith

pub set_percent-same :
    (curr next : ℕ) (p : Player)
    → ((set_percent curr next p).level ≡ p.level)
      × ((set_percent curr next p).experience ≡ p.experience)
unfolding set_percent
set_percent-same curr next p = (refl, refl)

pub IsLevelled-low :
    (p : Player) → IsLevelled p → p.experience < threshold 699999 → p.level < level_limit
IsLevelled-low p l small = elim (Bool-cases (leb level_limit p.level)) [
  | inl high ↦
      let far : 699999 ≤ p.level - 1 = ground arith in
      absurd (omega (arith, l.reached, threshold_mono 699999 (p.level - 1) far))
  | inr low ↦ ground arith
]

level_exp :
    (p : Player)
    → 0 < p.level
    → p.level < level_limit
    → get_exp_for_level p.level ≡ threshold (p.level - 1)
level_exp p h low =
    let e : suc (p.level - 1) ≡ p.level = omega arith in
    subst (λ n. get_exp_for_level n ≡ threshold (p.level - 1)) e
      (get_exp_for_level-threshold (p.level - 1) (omega arith))

next_level_exp :
    (p : Player) → p.level < level_limit → get_exp_for_level (u32 (p.level + 1)) ≡ threshold p.level
next_level_exp p low =
    let e : u32 (p.level + 1) ≡ suc p.level = omega arith in
    ap get_exp_for_level e ∙ get_exp_for_level-threshold p.level (omega arith)

climb_of-IsClimb :
    (granted : ℕ) (p : Player)
    → IsLevelled p
    → p.experience + granted < threshold 699999
    → IsClimb (p.experience + granted) (climb_of granted p)
climb_of-IsClimb granted p l room =
    let low = IsLevelled-low p l (omega arith) in
    record {
      same = omega arith;
      small = room;
      positive = l.positive;
      reached = omega (arith, l.reached);
      curr = level_exp p l.positive low;
      next = next_level_exp p low;
    }

grant-IsLevelled :
    (v : Vocation) (granted : ℕ) (p : Player)
    → IsLevelled p
    → p.experience + granted < threshold 699999
    → IsLevelled (grant v granted p)
      × ((grant v granted p).experience ≡ p.experience + granted)
      × (p.level ≤ (grant v granted p).level)
unfolding grant
grant-IsLevelled v granted p l room =
    let e : u64 (p.experience + granted) ≡ p.experience + granted = omega arith in
    let c = raise_levels (u64 (p.experience + granted) + 1) v (climb_of granted p) in
    let (i, below, more) =
      raise_levels-IsClimb (u64 (p.experience + granted) + 1) v (p.experience + granted)
        (climb_of granted p) (omega (arith, e, l.positive)) (climb_of-IsClimb granted p l room) in
    let (level', exp') = refresh-same v p.level c.player in
    (
      record {
        positive = rw level' i.positive;
        reached = rw (level', exp', i.same) i.reached;
        below = rw (level', exp', i.same) (subst (λ n. p.experience + granted < n) i.next below);
      },
      exp' ∙ i.same,
      rw level' more,
    )

-- A player whose level fits the experience gains experience that stays below the one of level
-- 700000: all of what the script grants is added, the level fits again, and it has not fallen.
pub add_experience-IsLevelled :
    (v : Vocation) (on_gain : ℕ → ℕ) (exp : ℕ) (p : Player)
    → IsLevelled p
    → p.experience + on_gain exp < threshold 699999
    → IsLevelled (add_experience v on_gain exp p)
      × ((add_experience v on_gain exp p).experience ≡ p.experience + on_gain exp)
      × (p.level ≤ (add_experience v on_gain exp p).level)
unfolding add_experience
add_experience-IsLevelled v on_gain exp p l room =
    let low = IsLevelled-low p l (omega arith) in
    let e : suc (p.level - 1) ≡ p.level = omega (arith, l.positive) in
    let open_ended : leb (get_exp_for_level (u32 (p.level + 1))) (get_exp_for_level p.level)
        ≡ false =
      rw (level_exp p l.positive low, next_level_exp p low)
        (lt→leb_false (threshold (p.level - 1)) (threshold p.level)
          (omega (arith, l.reached, l.below))) in
    elim (Bool-cases (on_gain exp == 0)) [
      | inl none ↦ rw (open_ended, none) (l, ground arith, omega arith)
      | inr some ↦ rw (open_ended, some) (grant-IsLevelled v (on_gain exp) p l room)
    ]

-- The loop has stopped: the level is 1, or its threshold is reached.
reached_of :
    (level experience : ℕ)
    → 0 < level
    → get_exp_for_level level ≡ threshold (level - 1)
    → (ltb 1 level ≡ false) ⊎ (ltb experience (get_exp_for_level level) ≡ false)
    → threshold (level - 1) ≤ experience
reached_of zero experience pos t stop = elim pos [ ]
reached_of (suc zero) experience pos t stop = omega arith
reached_of (suc (suc k)) experience pos t (inl one) = absurd (ground (arith, one))
reached_of (suc (suc k)) experience pos t (inr high) = rw (← t) (ground arith)

pub lower_levels-IsLevelled :
    (fuel : ℕ) (v : Vocation) (p : Player)
    → 0 < p.level
    → p.level < level_limit
    → p.level ≤ fuel
    → p.experience < threshold p.level
    → IsLevelled (lower_levels fuel v p)
      × ((lower_levels fuel v p).experience ≡ p.experience)
      × ((lower_levels fuel v p).level ≤ p.level)
unfolding lower_levels lose_level
lower_levels-IsLevelled zero v p pos low enough below = absurd (omega arith)
lower_levels-IsLevelled (suc fuel) v p pos low enough below =
    let t = level_exp p pos low in
    elim (Bool-cases (ltb 1 p.level && ltb p.experience (get_exp_for_level p.level))) [
      | inl down ↦
          let high : 1 < p.level = ground (arith, down) in
          let short : p.experience < get_exp_for_level p.level = ground (arith, down) in
          let (i, same, less) =
            lower_levels-IsLevelled fuel v (lose_level v p) (omega arith) (omega arith)
              (omega arith) (subst (λ n. p.experience < n) t short) in
          rw down (i, same, omega (arith, less))
      | inr stay ↦ rw stay (
        record {
          positive = pos;
          reached = reached_of p.level p.experience pos t (ground (arith, stay));
          below = below;
        },
        refl,
        omega arith,
      )
    ]

nothing_lost :
    (experience exp taken : ℕ)
    → (experience == 0 || exp == 0) ≡ true
    → (exp ≡ 0 → taken ≡ 0)
    → experience ≡ experience - taken
nothing_lost zero exp taken test none = omega arith
nothing_lost (suc e) exp taken test none =
    let zero_taken : taken ≡ 0 = none (ground (arith, test)) in omega (arith, zero_taken)

settled-IsLevelled :
    (v : Vocation) (old curr next : ℕ) (q : Player)
    → IsLevelled q
    → IsLevelled (set_percent curr next (refresh v old q))
settled-IsLevelled v old curr next q i =
    let (level', exp') = refresh-same v old q in
    let (level'', exp'') = set_percent-same curr next (refresh v old q) in
    record {
      positive = rw (level'', level') i.positive;
      reached = rw (level'', exp'', level', exp') i.reached;
      below = rw (level'', exp'', level', exp') i.below;
    }

less_exp-sub :
    (experience taken : ℕ)
    → experience < 0x8000_0000_0000_0000
    → taken < 0x8000_0000_0000_0000
    → less_exp experience taken ≡ experience - taken
less_exp-sub experience taken h k = ground arith

-- A player whose level fits an experience below the limit loses what the script makes of a loss,
-- which is less than 2^63 and nothing where nothing was to be lost: the experience falls by this
-- much, down to 0, the level fits again, and it has not risen.
pub remove_experience-IsLevelled :
    (v : Vocation) (on_lose : ℕ → ℕ) (exp : ℕ) (p : Player)
    → IsLevelled p
    → p.experience < threshold 699999
    → on_lose exp < 0x8000_0000_0000_0000
    → (exp ≡ 0 → on_lose exp ≡ 0)
    → IsLevelled (remove_experience v on_lose exp p)
      × ((remove_experience v on_lose exp p).experience ≡ p.experience - on_lose exp)
      × ((remove_experience v on_lose exp p).level ≤ p.level)
unfolding remove_experience
remove_experience-IsLevelled v on_lose exp p l small in_range none =
    elim (Bool-cases (p.experience == 0 || exp == 0)) [
      | inl nothing ↦
          let same : p.experience ≡ p.experience - on_lose exp =
            nothing_lost p.experience exp (on_lose exp) nothing none in
          rw nothing (l, same, omega arith)
      | inr some ↦ elim (Bool-cases (on_lose exp == 0)) [
        | inl kept ↦ rw (some, kept) (l, ground arith, omega arith)
        | inr lost ↦
            let less_exp_lem : less_exp p.experience (on_lose exp) ≡ p.experience - on_lose exp =
              less_exp-sub p.experience (on_lose exp) (omega arith) in_range in
            let q =
              lower_levels p.level v
                (record p { experience = less_exp p.experience (on_lose exp) }) in
            let (i, same, less) =
              lower_levels-IsLevelled p.level v
                (record p { experience = less_exp p.experience (on_lose exp) }) l.positive
                (IsLevelled-low p l small) (omega arith) (omega (arith, l.below, less_exp_lem)) in
            rw (some, lost)
              (
                settled-IsLevelled v p.level (get_exp_for_level q.level)
                    (get_exp_for_level (u32 (q.level + 1))) q i,
                (refresh-same v p.level q).1 ∙ same ∙ less_exp_lem,
                rw (refresh-same v p.level q).0 less,
              )
      ]
    ]
