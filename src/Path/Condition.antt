-- ===== src/Path/Condition.antt =====
-- What a path search looks for: `FrozenPathingConditionCall` of src/creature.cpp, with the
-- parameters of src/creature.h. A limit of -1, within which no position lies, is left out.
use asca_ci.Base.{ℕ, ◌+◌, Bool, true, false, not, ltb, leb, ◌==◌, if◌then◌else◌, ◌&&◌, ◌||◌}
use asca_ci.Place.{distance}

pub record FindPathParams : Type 0 where
  pub full_path_search : Bool
  pub clear_sight : Bool
  pub allow_diagonal : Bool
  pub keep_distance : Bool
  pub max_search_dist : ℕ
  pub min_target_dist : ℕ
  pub max_target_dist : ℕ

-- `isInRange` on one axis; the limit holds on the side of the start only, unless all is searched.
unfoldable pub is_near : FindPathParams → ℕ → ℕ → ℕ → Bool
is_near fpp start target test =
    let above = if fpp.full_path_search || leb target start then fpp.max_target_dist else 0 in
    let below = if fpp.full_path_search || leb start target then fpp.max_target_dist else 0 in
    not (ltb (target + above) test) && not (ltb (test + below) target)

abbrev pub larger : ℕ → ℕ → ℕ
larger a b = if ltb a b then b else a

module _ (fpp : FindPathParams) (is_sight_clear : ℕ → ℕ → Bool) (target_x target_y : ℕ) where
  unfoldable pub is_in_range : ℕ → ℕ → ℕ → ℕ → Bool
  unfolding is_near
  is_in_range start_x start_y x y = is_near fpp start_x target_x x && is_near fpp start_y target_y y

  -- The call: whether the position matches, and the new best distance.
  unfoldable pub matches : ℕ → ℕ → ℕ → ℕ → ℕ → Bool × ℕ
  unfolding is_in_range
  matches start_x start_y x y best_match =
      let test_dist = larger (distance target_x x) (distance target_y y) in
      if not (is_in_range start_x start_y x y)
      then (false, best_match)
      else if fpp.clear_sight && not (is_sight_clear x y)
      then (false, best_match)
      else if fpp.max_target_dist == 1
      then (not (ltb test_dist fpp.min_target_dist || ltb 1 test_dist), best_match)
      else if ltb fpp.max_target_dist test_dist || ltb test_dist fpp.min_target_dist
      then (false, best_match)
      else if test_dist == fpp.max_target_dist
      then (true, 0)
      else if ltb best_match test_dist
      then (true, test_dist)
      else (false, best_match)
