-- ===== src/Path.antt =====
-- The path search of creatures, `getPathMatching` of src/map.cpp, on one floor. What the map and
-- the creature say of each position is an argument. A coordinate has 16 bits.
pub mod Nodes
pub mod Condition
pub mod Tree
pub mod Reached
pub mod Offsets
pub mod Visit
pub mod Work
pub mod Turns
pub mod Steps
pub mod Ways
pub mod Tests
use asca_ci.Base.Bits.{u16}
use asca_ci.Base.{
  ℕ, zero, suc, ◌+◌, ◌-◌, Bool, true, false, not, List, [], ◌∷◌, ◌++◌, take, Option, none, some,
  ltb, leb, ◌==◌, if◌then◌else◌, ◌&&◌, ◌||◌, update,
}
use asca_ci.Path.Condition.{FindPathParams, is_in_range, matches}
use asca_ci.Path.Nodes.{
  AStarNode, AStarNodes, start_nodes, create_open_node, get_best_node, close_node, open_node,
  get_node_by_position, get_map_walk_cost, get_tile_walk_cost,
}
use asca_ci.Place.{distance}

-- What is known of the positions: the creature's walk cache, the tiles, which of them the creature
-- stands on, which it may enter, and what is in the way on them.
pub record Terrain : Type 0 where
  pub walk_cache : ℕ → ℕ → ℕ
  pub has_tile : ℕ → ℕ → Bool
  pub is_own_tile : ℕ → ℕ → Bool
  pub may_enter : ℕ → ℕ → Bool
  pub has_creature : ℕ → ℕ → Bool
  pub has_harmful_field : ℕ → ℕ → Bool
  pub is_sight_clear : ℕ → ℕ → Bool

-- The search's own arguments.
pub record Query : Type 0 where
  pub params : FindPathParams
  pub terrain : Terrain
  pub start_x : ℕ
  pub start_y : ℕ
  pub target_x : ℕ
  pub target_y : ℕ

unfoldable pub can_walk_to : Terrain → ℕ → ℕ → Bool
can_walk_to t x y =
    if t.walk_cache x y == 0
    then false
    else if t.walk_cache x y == 1
    then t.has_tile x y
    else t.has_tile x y && (t.is_own_tile x y || t.may_enter x y)

pub data Direction : Type 0 where
  north east south west : Direction
  south_west south_east north_west north_east : Direction

-- -1 in 16 bits.
abbrev pub minus : ℕ
minus = 0xffff

abbrev pub all_neighbors : List (ℕ × ℕ)
all_neighbors =
    (minus, 0)
    ∷ (0, 1)
    ∷ (1, 0)
    ∷ (0, minus)
    ∷ (minus, minus)
    ∷ (1, minus)
    ∷ (1, 1)
    ∷ (minus, 1)
    ∷ []

-- The neighbours of a node that is left in a direction, the straight ones first.
abbrev pub dir_neighbors : Direction → List (ℕ × ℕ)
dir_neighbors north = (minus, 0) ∷ (0, 1) ∷ (1, 0) ∷ (1, 1) ∷ (minus, 1) ∷ []
dir_neighbors east = (minus, 0) ∷ (0, 1) ∷ (0, minus) ∷ (minus, minus) ∷ (minus, 1) ∷ []
dir_neighbors south = (minus, 0) ∷ (1, 0) ∷ (0, minus) ∷ (minus, minus) ∷ (1, minus) ∷ []
dir_neighbors west = (0, 1) ∷ (1, 0) ∷ (0, minus) ∷ (1, minus) ∷ (1, 1) ∷ []
dir_neighbors south_west = (1, 0) ∷ (0, minus) ∷ (minus, minus) ∷ (1, minus) ∷ (1, 1) ∷ []
dir_neighbors south_east = (minus, 0) ∷ (0, minus) ∷ (minus, minus) ∷ (1, minus) ∷ (minus, 1) ∷ []
dir_neighbors north_west = (0, 1) ∷ (1, 0) ∷ (1, minus) ∷ (1, 1) ∷ (minus, 1) ∷ []
dir_neighbors north_east = (minus, 0) ∷ (0, 1) ∷ (minus, minus) ∷ (1, 1) ∷ (minus, 1) ∷ []

-- The direction from a node to its parent.
unfoldable pub facing : Bool → AStarNode → AStarNode → Direction
facing allow_diagonal p n =
    let left = p.x + 1 == n.x in
    let up = p.y + 1 == n.y in
    if p.y == n.y
    then if left then west else east
    else if not allow_diagonal || p.x == n.x
    then if up then north else south
    else if up
    then if left then north_west else north_east
    else if left
    then south_west
    else south_east

abbrev pub neighbors_from : Bool → (ℕ → AStarNode) → AStarNode → Option ℕ → List (ℕ × ℕ)
neighbors_from allow_diagonal nodes n none = all_neighbors
neighbors_from allow_diagonal nodes n (some p) =
    take (if allow_diagonal then 5 else 3) (dir_neighbors (facing allow_diagonal (nodes p) n))

unfoldable pub neighbors_of : Bool → AStarNodes → ℕ → List (ℕ × ℕ)
unfolding facing
neighbors_of allow_diagonal s i =
    neighbors_from allow_diagonal s.nodes (s.nodes i) (s.nodes i).parent

unfoldable pub tile_cost : Terrain → ℕ → ℕ → ℕ
unfolding get_tile_walk_cost
tile_cost t x y = get_tile_walk_cost (t.has_creature x y) (t.has_harmful_field x y)

-- A known node that is reached at less cost.
unfoldable pub reparent : ℕ → ℕ → ℕ → AStarNodes → AStarNodes
unfolding update open_node
reparent i parent f s =
    open_node i
      (record s { nodes = update s.nodes i (record (s.nodes i) { parent = some parent; f = f }) })

module _ (q : Query) where
  unfoldable pub is_skipped : ℕ → ℕ → Bool
  unfolding is_in_range
  is_skipped x y =
      not (q.params.max_search_dist == 0)
        && (ltb q.params.max_search_dist (distance q.start_x x)
            || ltb q.params.max_search_dist (distance q.start_y y))
      || q.params.keep_distance
        && not (
            is_in_range q.params q.terrain.is_sight_clear q.target_x q.target_y q.start_x q.start_y
              x y)

  -- One neighbour of the node `i`, which is `n` at the start of the loop; none where the array is
  -- full.
  abbrev pub reach : ℕ → AStarNode → ℕ → ℕ → AStarNodes → Option ℕ → Option AStarNodes
  reach i n x y s (some k) =
      let new_f = n.f + get_map_walk_cost n x y + tile_cost q.terrain x y in
      if leb (s.nodes k).f new_f then some s else some (reparent k i new_f s)
  reach i n x y s none =
      let new_f = n.f + get_map_walk_cost n x y + tile_cost q.terrain x y in
      if can_walk_to q.terrain x y then create_open_node i x y new_f s else some s

  unfoldable pub visit : ℕ → AStarNode → ℕ → ℕ → AStarNodes → Option AStarNodes
  unfolding is_skipped get_map_walk_cost tile_cost reparent can_walk_to create_open_node
      get_node_by_position
  visit i n x y s = if is_skipped x y then some s else reach i n x y s (get_node_by_position s x y)

  abbrev pub go_on :
      (AStarNodes → Bool × AStarNodes) → AStarNodes → Option AStarNodes → Bool × AStarNodes
  go_on rest s none = (false, s)
  go_on rest s (some s') = rest s'

  -- The loop over the neighbours: whether it came to its end, and the nodes.
  unfoldable pub visit_all : ℕ → AStarNode → List (ℕ × ℕ) → AStarNodes → Bool × AStarNodes
  unfolding visit
  visit_all i n [] s = (true, s)
  visit_all i n ((dx, dy) ∷ ds) s =
      go_on (visit_all i n ds) s (visit i n (u16 (n.x + dx)) (u16 (n.y + dy)) s)

-- The variables of the search's loop. `found` is the node that matched last.
pub record Search : Type 0 where
  pub nodes : AStarNodes
  pub found : Option ℕ
  pub best_match : ℕ

-- How a turn of the loop ends: the next one follows, the loop ends, or the function returns false.
pub data Turn : Type 0 where
  next : Search → Turn
  ended : Search → Turn
  aborted : Turn

abbrev pub is_found : Option ℕ → Bool
is_found none = false
is_found (some i) = true

abbrev pub take_match : ℕ → Search → Bool × ℕ → Search
take_match i s (true, best_match) = record s { found = some i; best_match = best_match }
take_match i s (false, best_match) = record s { best_match = best_match }

-- Where the array is full the search goes on only if it has found something.
abbrev pub close_turn : ℕ → Search → Bool × AStarNodes → Turn
close_turn i s (true, nodes) = next (record s { nodes = close_node i nodes })
close_turn i s (false, nodes) =
    if is_found s.found then next (record s { nodes = close_node i nodes }) else aborted

module _ (q : Query) where
  abbrev pub matches_at : AStarNode → ℕ → Bool × ℕ
  matches_at n best_match =
      matches q.params q.terrain.is_sight_clear q.target_x q.target_y q.start_x q.start_y n.x n.y
        best_match

  unfoldable pub expand : ℕ → Search → Turn
  unfolding visit_all neighbors_of close_node
  expand i s =
      close_turn i s
        (visit_all q i (s.nodes.nodes i) (neighbors_of q.params.allow_diagonal s.nodes i) s.nodes)

  -- The loop ends at a match that cannot be bettered.
  abbrev pub turn_at : Search → Option ℕ → Turn
  turn_at s none = ended s
  turn_at s (some i) =
      let m = matches_at (s.nodes.nodes i) s.best_match in
      if m.0 && m.1 == 0 then ended (take_match i s m) else expand i (take_match i s m)

  unfoldable pub turn : Search → Turn
  unfolding expand matches get_best_node
  turn s =
      if not (q.params.max_search_dist == 0) || ltb s.nodes.closings (s.nodes.openings + 100)
      then turn_at s (get_best_node s.nodes)
      else ended s

  abbrev pub after_turn : (Search → Option (Option Search)) → Turn → Option (Option Search)
  after_turn loop (next s) = loop s
  after_turn loop (ended s) = some (some s)
  after_turn loop aborted = some none

  -- The loop on fuel: none where the fuel has run out, else how it ended.
  unfoldable pub search : ℕ → Search → Option (Option Search)
  unfolding turn
  search zero s = none
  search (suc fuel) s = after_turn (search fuel) (turn s)

-- The direction of the step from the parent's place to the one that came before it; none where
-- the two are not neighbours.
unfoldable pub step_between : ℕ → ℕ → ℕ → ℕ → Option Direction
step_between x y prev_x prev_y =
    let dx_up = x == prev_x + 1 in
    let dx_down = x + 1 == prev_x in
    let dy_up = y == prev_y + 1 in
    let dy_down = y + 1 == prev_y in
    if dx_up && dy_up
    then some north_west
    else if dx_down && dy_up
    then some north_east
    else if dx_up && dy_down
    then some south_west
    else if dx_down && dy_down
    then some south_east
    else if dx_up
    then some west
    else if dx_down
    then some east
    else if dy_up
    then some north
    else if dy_down
    then some south
    else none

abbrev pub push : Option Direction → List Direction → List Direction
push none ds = ds
push (some d) ds = d ∷ ds

-- The loop along the parents, from the parent of the last place, on fuel: none where the fuel has
-- run out.
abbrev pub pushed : Option Direction → Option (List Direction) → Option (List Direction)
pushed d none = none
pushed d (some ds) = some (push d ds)

unfoldable pub trace : ℕ → AStarNodes → ℕ → ℕ → Option ℕ → Option (List Direction)
unfolding step_between
trace fuel s prev_x prev_y none = some []
trace zero s prev_x prev_y (some i) = none
trace (suc fuel) s prev_x prev_y (some i) =
    let n = s.nodes i in pushed (step_between n.x n.y prev_x prev_y) (trace fuel s n.x n.y n.parent)

abbrev pub returned : Option (List Direction) → Option (Option (List Direction))
returned none = none
returned (some ds) = some (some ds)

-- What follows the loop. The inner option is the result: none where there is no path.
abbrev pub path_to : AStarNodes → Option ℕ → Option (Option (List Direction))
path_to s none = some none
path_to s (some i) = returned (trace (s.nodes i).f s (s.nodes i).x (s.nodes i).y (s.nodes i).parent)

abbrev pub finish : Option (Option Search) → Option (Option (List Direction))
finish none = none
finish (some none) = some none
finish (some (some s)) = path_to s.nodes s.found

-- `getPathMatching` on fuel for the search, the list of directions with the last step first.
unfoldable pub get_path_matching : ℕ → Query → Option (Option (List Direction))
unfolding search trace start_nodes
get_path_matching fuel q = finish (
    search q fuel
      (record { nodes = start_nodes q.start_x q.start_y; found = none; best_match = 0 }))

-- `getNextPosition` of src/tools.cpp.
unfoldable pub get_next_position : Direction → ℕ × ℕ → ℕ × ℕ
get_next_position north (x, y) = (x, u16 (y + minus))
get_next_position south (x, y) = (x, u16 (y + 1))
get_next_position west (x, y) = (u16 (x + minus), y)
get_next_position east (x, y) = (u16 (x + 1), y)
get_next_position south_west (x, y) = (u16 (x + minus), u16 (y + 1))
get_next_position north_west (x, y) = (u16 (x + minus), u16 (y + minus))
get_next_position north_east (x, y) = (u16 (x + 1), u16 (y + minus))
get_next_position south_east (x, y) = (u16 (x + 1), u16 (y + 1))
