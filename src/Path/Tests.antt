-- ===== src/Path/Tests.antt =====
-- The path search on a small map.
use asca_ci.Base.{
  ℕ, ◌+◌, ◌≡◌, refl, Bool, true, false, List, [], ◌∷◌, Option, some, ltb, if◌then◌else◌, ◌==◌, ◌&&◌,
  not, arith,
}
use asca_ci.Path.Tree.{is_inside}
use asca_ci.Path.Steps.{arrive, is_walkable}
use asca_ci.Path.Ways.{IsGoal, get_path_matching-ends, get_path_matching-IsGoal}
use asca_ci.Path.{Query, Terrain, Direction, east, south, can_walk_to, get_path_matching}

-- A field of nine by nine with a wall in it.
abbrev is_field : ℕ → ℕ → Bool
is_field x y = ltb 100 x && ltb x 110 && ltb 100 y && ltb y 110 && not (x == 104 && ltb y 107)

abbrev field : Terrain
field = record {
  walk_cache = λ x y. if is_field x y then 2 else 0;
  has_tile = is_field;
  is_own_tile = λ x y. false;
  may_enter = is_field;
  has_creature = λ x y. x == 105 && y == 108;
  has_harmful_field = λ x y. false;
  is_sight_clear = λ x y. true;
}

abbrev hunt : Query
hunt = record {
  params = record {
    full_path_search = true;
    clear_sight = true;
    allow_diagonal = true;
    keep_distance = false;
    max_search_dist = 8;
    min_target_dist = 1;
    max_target_dist = 1;
  };
  terrain = field;
  start_x = 103;
  start_y = 106;
  target_x = 106;
  target_y = 106;
}

hunt-border : (x y : ℕ) → can_walk_to field x y ≡ true → is_inside x y ≡ true
unfolding can_walk_to
hunt-border x y h = ground (arith, h)

hunt_path : get_path_matching 100 hunt ≡ some (some (east ∷ east ∷ south ∷ []))
unfolding get_path_matching
hunt_path = refl

get_path_matching-ends_example :
    (fuel : ℕ) × (r : Option (List Direction)) × ((more : ℕ)
      → get_path_matching (more + fuel) hunt ≡ some r)
get_path_matching-ends_example = get_path_matching-ends hunt hunt-border refl

get_path_matching-IsGoal_example :
    (is_walkable hunt (east ∷ east ∷ south ∷ []) ≡ true)
    × IsGoal hunt (arrive (east ∷ east ∷ south ∷ []) (103, 106))
get_path_matching-IsGoal_example =
    get_path_matching-IsGoal hunt hunt-border 100 (east ∷ east ∷ south ∷ []) refl hunt_path
