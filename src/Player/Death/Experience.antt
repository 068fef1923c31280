-- ===== src/Player/Death/Experience.antt =====
-- The level after a death.
use asca_ci.Base.{
  ℕ, ◌+◌, ◌-◌, ◌≤◌, ◌<◌, ◌≡◌, refl, ◌∙◌, Bool, ltb, ◌==◌, ◌||◌, arith, if◌then◌else◌, Bool-cases,
  inl, inr,
}
use asca_ci.Base.Bits.{u32}
use asca_ci.Player.Death.{lose_experience, after_loss}
use asca_ci.Player.Experience.Curve.{threshold}
use asca_ci.Player.Experience.Levels.{
  IsLevelled, IsLevelled-low, lower_levels-IsLevelled, set_percent-same,
}
use asca_ci.Player.Experience.{Player, Vocation, get_exp_for_level, lower_levels, set_percent}

set_percent-IsLevelled :
    (curr next : ℕ) (q : Player) → IsLevelled q → IsLevelled (set_percent curr next q)
unfolding set_percent
set_percent-IsLevelled curr next q i = record {
  positive = i.positive;
  reached = i.reached;
  below = i.below;
}

after_loss-same :
    (no_vocation : Bool) (taken : ℕ) (p : Player)
    → taken ≤ p.experience
    → p.experience < 0x8000_0000_0000_0000
    → ((after_loss no_vocation taken p).level ≡ p.level)
      × ((after_loss no_vocation taken p).experience
          ≡ p.experience - (if no_vocation || ltb 7 p.level then taken else 0))
unfolding after_loss
after_loss-same no_vocation taken p fits small = elim (Bool-cases (no_vocation || ltb 7 p.level)) [
  | inl loses ↦ rw loses (refl, omega arith)
  | inr keeps ↦ rw keeps (refl, omega arith)
]

-- A player whose level fits an experience below the limit dies, and the script makes of the share
-- of the experience a loss that is not more than all of it: the experience falls by this much, or
-- by nothing for a player with a vocation up to level 7, the level fits again, and it has not
-- risen.
pub lose_experience-IsLevelled :
    (v : Vocation) (no_vocation : Bool) (on_lose share : ℕ → ℕ) (p : Player)
    → IsLevelled p
    → p.experience < threshold 699999
    → on_lose (share p.experience) ≤ p.experience
    → IsLevelled (lose_experience v no_vocation on_lose share p)
      × ((lose_experience v no_vocation on_lose share p).experience
          ≡ p.experience
            - (if no_vocation || ltb 7 p.level then on_lose (share p.experience) else 0))
      × ((lose_experience v no_vocation on_lose share p).level ≤ p.level)
unfolding lose_experience
lose_experience-IsLevelled v no_vocation on_lose share p l small fits =
    elim (Bool-cases (on_lose (share p.experience) == 0)) [
      | inl nothing ↦ rw nothing (l, ground (arith, nothing), omega arith)
      | inr some_loss ↦
          let taken = on_lose (share p.experience) in
          let p' = after_loss no_vocation taken p in
          let (level', exp') = after_loss-same no_vocation taken p fits (omega (arith, small)) in
          let q = lower_levels p'.level v p' in
          let (i, same, less) =
            lower_levels-IsLevelled p'.level v p' (omega (arith, level', l.positive))
              (omega (arith, level', IsLevelled-low p l small)) (omega arith)
              (rw level' (omega (arith, exp', l.below))) in
          let (level'', exp'') =
            set_percent-same (get_exp_for_level q.level) (get_exp_for_level (u32 (q.level + 1)))
              q in
          rw some_loss (
            set_percent-IsLevelled (get_exp_for_level q.level)
                (get_exp_for_level (u32 (q.level + 1))) q i,
            exp'' ∙ same ∙ exp',
            omega (arith, level'', less, level'),
          )
    ]
