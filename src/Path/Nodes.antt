-- ===== src/Path/Nodes.antt =====
-- The nodes of the path search: `AStarNodes` of src/map.h and src/map.cpp. A pointer to a node is
-- its index in the array; since a node never moves, `nodeTable` is a search of the nodes.
use asca_ci.Base.{
  ℕ, zero, suc, ◌+◌, Bool, true, false, Option, none, some, ltb, leb, ◌==◌, if◌then◌else◌, ◌&&◌,
  update,
}
use asca_ci.Place.{distance}

pub record AStarNode : Type 0 where
  pub parent : Option ℕ
  pub f : ℕ
  pub x : ℕ
  pub y : ℕ

-- `closedNodes` is the number of closings less that of openings of closed nodes.
pub record AStarNodes : Type 0 where
  pub nodes : ℕ → AStarNode
  pub open_nodes : ℕ → Bool
  pub cur_node : ℕ
  pub closings : ℕ
  pub openings : ℕ

abbrev pub max_nodes : ℕ
max_nodes = 512

abbrev pub start_node : ℕ → ℕ → AStarNode
start_node x y = record { parent = none; f = 0; x = x; y = y }

-- The constructor; the other nodes are not used before they are created.
unfoldable pub start_nodes : ℕ → ℕ → AStarNodes
start_nodes x y = record {
  nodes = λ i. start_node x y;
  open_nodes = λ i. i == 0;
  cur_node = 1;
  closings = 0;
  openings = 0;
}

-- `createOpenNode`, which gives null where the array is full.
unfoldable pub create_open_node : ℕ → ℕ → ℕ → ℕ → AStarNodes → Option AStarNodes
unfolding update
create_open_node parent x y f s =
    if leb max_nodes s.cur_node
    then none
    else some (record s {
      nodes = update s.nodes s.cur_node (record { parent = some parent; f = f; x = x; y = y });
      open_nodes = update s.open_nodes s.cur_node true;
      cur_node = s.cur_node + 1;
    })

abbrev pub better : AStarNodes → ℕ → ℕ × Option ℕ → ℕ × Option ℕ
better s i (best_f, best) =
    if s.open_nodes i && ltb (s.nodes i).f best_f then ((s.nodes i).f, some i) else (best_f, best)

-- The loop over the first nodes: the least `f` of an open node, and this node.
unfoldable pub best_of : AStarNodes → ℕ → ℕ × Option ℕ
best_of s zero = (0x7fff_ffff, none)
best_of s (suc i) = better s i (best_of s i)

unfoldable pub get_best_node : AStarNodes → Option ℕ
unfolding best_of
get_best_node s = (best_of s s.cur_node).1

unfoldable pub close_node : ℕ → AStarNodes → AStarNodes
unfolding update
close_node i s = record s { open_nodes = update s.open_nodes i false; closings = s.closings + 1 }

unfoldable pub open_node : ℕ → AStarNodes → AStarNodes
unfolding update
open_node i s =
    if s.open_nodes i
    then s
    else record s { open_nodes = update s.open_nodes i true; openings = s.openings + 1 }

-- `getNodeByPosition`, by a search of the first nodes.
unfoldable pub node_among : AStarNodes → ℕ → ℕ → ℕ → Option ℕ
node_among s x y zero = none
node_among s x y (suc i) =
    let rest = node_among s x y i in
    if (s.nodes i).x == x && (s.nodes i).y == y then some i else rest

unfoldable pub get_node_by_position : AStarNodes → ℕ → ℕ → Option ℕ
unfolding node_among
get_node_by_position s x y = node_among s x y s.cur_node

-- A diagonal step costs more.
unfoldable pub get_map_walk_cost : AStarNode → ℕ → ℕ → ℕ
get_map_walk_cost n x y = if distance n.x x == distance n.y y then 25 else 10

-- A creature in the way, and a field that harms.
unfoldable pub get_tile_walk_cost : Bool → Bool → ℕ
get_tile_walk_cost has_creature has_harmful_field =
    (if has_creature then 30 else 0) + (if has_harmful_field then 180 else 0)
