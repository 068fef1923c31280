-- ===== src/Player/Magic.antt =====
-- `addManaSpent` of src/player.cpp. The mana that a magic level needs is a power of a
-- floating-point number and an argument, as are the flag and the scripts' event handler.
pub mod Spent
use asca_ci.Base.{ℕ, zero, suc, ◌+◌, Bool, ltb, leb, ◌==◌, if◌then◌else◌}
use asca_ci.Base.Bits.{u32, u64}
use asca_ci.Player.Experience.{get_percent_level}
use asca_ci.Player.Skills.{sub64}

pub record Magic : Type 0 where
  pub mana_spent : ℕ
  pub mag_level : ℕ
  pub mag_level_percent : ℕ

-- The loop's variables.
pub record Casting : Type 0 where
  pub magic : Magic
  pub amount : ℕ
  pub curr_req_mana : ℕ
  pub next_req_mana : ℕ

-- The loop's end: the function goes on, or it has returned.
pub data Outcome : Type 0 where
  goes_on : Casting → Outcome
  returned : Magic → Outcome

module _ (req_mana : ℕ → ℕ) where
  -- The body of the loop, up to the test of the largest level.
  unfoldable pub spend : Casting → Casting
  spend c =
      let level = u32 (c.magic.mag_level + 1) in
      record {
        magic = record (c.magic) { mana_spent = 0; mag_level = level };
        amount = sub64 c.amount (sub64 c.next_req_mana c.magic.mana_spent);
        curr_req_mana = c.next_req_mana;
        next_req_mana = req_mana (u32 (level + 1));
      }

  -- The loop, on fuel.
  unfoldable pub spend_levels : ℕ → Casting → Outcome
  spend_levels zero c = goes_on c
  spend_levels (suc fuel) c =
      let rest = spend_levels fuel (spend c) in
      if ltb (u64 (c.magic.mana_spent + c.amount)) c.next_req_mana
      then goes_on c
      else if leb (spend c).next_req_mana (spend c).curr_req_mana
      then returned (spend c).magic
      else rest

  -- What follows the loop.
  unfoldable pub settle : Outcome → Magic
  settle (returned m) = m
  settle (goes_on c) =
      let mana = u64 (c.magic.mana_spent + c.amount) in
      record {
        mana_spent = mana;
        mag_level = c.magic.mag_level;
        mag_level_percent =
            if ltb c.curr_req_mana c.next_req_mana
            then get_percent_level mana c.next_req_mana
            else 0;
      }

  abbrev pub casting_of : ℕ → Magic → Casting
  casting_of amount m = record {
    magic = m;
    amount = amount;
    curr_req_mana = req_mana m.mag_level;
    next_req_mana = req_mana (u32 (m.mag_level + 1));
  }

  unfoldable pub add_mana_spent : Bool → (ℕ → ℕ) → ℕ → Magic → Magic
  unfolding spend_levels settle
  add_mana_spent not_gain_mana on_gain amount m =
      if not_gain_mana
      then m
      else if leb (req_mana (u32 (m.mag_level + 1))) (req_mana m.mag_level)
      then m
      else if on_gain amount == 0
      then m
      else settle (spend_levels (on_gain amount + 1) (casting_of (on_gain amount) m))
