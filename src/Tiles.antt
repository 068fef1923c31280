-- ===== src/Tiles.antt =====
-- The quadtree of tiles: `QTreeNode` and `QTreeLeafNode` of src/map.h and src/map.cpp, with
-- `getTile` and `setTile`. A pointer to a leaf is the square of eight by eight that it is of, since a
-- leaf stays where it is made. Nodes of the tree have 32-bit coordinates, positions 16-bit ones.
pub mod Leaves
pub mod Squares
pub mod Made
pub mod Kept
pub mod Links
pub mod Neighbors
pub mod Around
pub mod Linked
pub mod Put
pub mod Refines
pub mod World
pub mod Woven
pub mod Spectators
pub mod Watched
pub mod Among
pub mod Seen
pub mod Creatures
pub mod Census
pub mod Tests
use asca_ci.Base.Bits.{u16, u32}
use asca_ci.Base.{
  ℕ, zero, suc, ◌+◌, ◌*◌, ◌/◌, ◌%◌, Bool, true, false, not, ◌&&◌, Option, none, some, leb, ◌==◌,
  if◌then◌else◌, update, List, [], ◌∷◌, ◌++◌,
}

-- A floor has a tile, or none, for each pair of offsets.
abbrev pub Floor {ℓ} : Type ℓ → Type ℓ
Floor T = ℕ → ℕ → Option T

-- The creatures are named by their ids.
pub record QTreeLeafNode {ℓ} (T : Type ℓ) : Type ℓ where
  pub leaf_s : Option (ℕ × ℕ)
  pub leaf_e : Option (ℕ × ℕ)
  pub floors : ℕ → Option (Floor T)
  pub creature_list : List ℕ
  pub player_list : List ℕ

-- A child that is null is `absent`; the array of children is a function of the two bits.
pub data QTreeNode {ℓ} (T : Type ℓ) : Type ℓ where
  absent : QTreeNode T
  leaf : QTreeLeafNode T → QTreeNode T
  inner : (Bool → Bool → QTreeNode T) → QTreeNode T

-- The bit 0x8000.
abbrev pub is_high : ℕ → Bool
is_high x = x / 0x8000 % 2 == 1

abbrev pub double : ℕ → ℕ
double x = u32 (x * 2)

-- `getLeaf`, which `getLeafStatic` does as a loop.
unfoldable pub get_leaf {ℓ} : {T : Type ℓ} → QTreeNode T → ℕ → ℕ → Option (QTreeLeafNode T)
get_leaf absent x y = none
get_leaf (leaf l) x y = some l
get_leaf (inner child) x y = get_leaf (child (is_high x) (is_high y)) (double x) (double y)

abbrev pub same_bool : Bool → Bool → Bool
same_bool true b = b
same_bool false b = not b

abbrev pub replace_child {ℓ} : {A : Type ℓ} → Bool → Bool → A → (Bool → Bool → A) → Bool → Bool → A
replace_child p q n child p' q' = if same_bool p p' && same_bool q q' then n else child p' q'

-- A change of the leaf at a position, through a pointer to it.
unfoldable pub modify_leaf {ℓ} :
    {T : Type ℓ} → (QTreeLeafNode T → QTreeLeafNode T) → QTreeNode T → ℕ → ℕ → QTreeNode T
modify_leaf f absent x y = absent
modify_leaf f (leaf l) x y = leaf (f l)
modify_leaf f (inner child) x y =
    let changed = modify_leaf f (child (is_high x) (is_high y)) (double x) (double y) in
    inner (replace_child (is_high x) (is_high y) changed child)

abbrev pub new_leaf {ℓ} : {T : Type ℓ} → QTreeLeafNode T
new_leaf = record {
  leaf_s = none;
  leaf_e = none;
  floors = λ z. none;
  creature_list = [];
  player_list = [];
}

abbrev pub new_node {ℓ} : {T : Type ℓ} → QTreeNode T
new_node = inner (λ p q. absent)

-- The child that is needed at the last level, and whether it is made.
abbrev pub or_leaf {ℓ} : {T : Type ℓ} → QTreeNode T → QTreeNode T × Bool
or_leaf absent = (leaf new_leaf, true)
or_leaf (leaf l) = (leaf l, false)
or_leaf (inner child) = (inner child, false)

-- The child that is needed above it.
abbrev pub or_node {ℓ} : {T : Type ℓ} → QTreeNode T → QTreeNode T
or_node absent = new_node
or_node (leaf l) = leaf l
or_node (inner child) = inner child

-- `createLeaf` with the levels that are left above FLOOR_BITS: the node, and `newLeaf`.
unfoldable pub create_leaf {ℓ} : {T : Type ℓ} → ℕ → ℕ → ℕ → QTreeNode T → QTreeNode T × Bool
create_leaf level x y absent = (absent, false)
create_leaf level x y (leaf l) = (leaf l, false)
create_leaf zero x y (inner child) =
    let (n, new) = or_leaf (child (is_high x) (is_high y)) in
    (inner (replace_child (is_high x) (is_high y) n child), new)
create_leaf (suc level) x y (inner child) =
    let (n, new) =
      create_leaf level (double x) (double y) (or_node (child (is_high x) (is_high y))) in
    (inner (replace_child (is_high x) (is_high y) n child), new)

-- The square of a position.
abbrev pub square : ℕ → ℕ → ℕ × ℕ
square x y = (u16 x / 8, u16 y / 8)

-- The next square of an axis, and the one before, which may wrap around.
abbrev pub after_square : ℕ → ℕ
after_square x = u32 (x + 8)

abbrev pub before_square : ℕ → ℕ
before_square x = u32 (x + 0xffff_fff8)

abbrev pub is_there {ℓ} : {A : Type ℓ} → Option A → Bool
is_there none = false
is_there (some a) = true

module _ {ℓ} {T : Type ℓ} where
  abbrev pub point_s : ℕ × ℕ → QTreeLeafNode T → QTreeLeafNode T
  point_s p l = record l { leaf_s = some p }

  abbrev pub point_e : ℕ × ℕ → QTreeLeafNode T → QTreeLeafNode T
  point_e p l = record l { leaf_e = some p }

  -- The pointers from and to a new leaf; a change of a leaf that is not there changes nothing.
  unfoldable pub link_north : ℕ → ℕ → QTreeNode T → QTreeNode T
  unfolding modify_leaf
  link_north x y n = modify_leaf (point_s (square x y)) n x (before_square y)

  unfoldable pub link_west : ℕ → ℕ → QTreeNode T → QTreeNode T
  unfolding modify_leaf
  link_west x y n = modify_leaf (point_e (square x y)) n (before_square x) y

  unfoldable pub link_south : ℕ → ℕ → QTreeNode T → QTreeNode T
  unfolding modify_leaf get_leaf
  link_south x y n =
      if is_there (get_leaf n x (after_square y))
      then modify_leaf (point_s (square x (after_square y))) n x y
      else n

  unfoldable pub link_east : ℕ → ℕ → QTreeNode T → QTreeNode T
  unfolding modify_leaf get_leaf
  link_east x y n =
      if is_there (get_leaf n (after_square x) y)
      then modify_leaf (point_e (square (after_square x) y)) n x y
      else n

  abbrev pub floor_or_new : Option (Floor T) → Floor T
  floor_or_new none = λ i j. none
  floor_or_new (some f) = f

  unfoldable pub create_floor : ℕ → QTreeLeafNode T → QTreeLeafNode T
  unfolding update
  create_floor z l = record l { floors = update l.floors z (some (floor_or_new (l.floors z))) }

  -- What is done with the old tile, if there is one.
  abbrev pub merged : (T → T → T) → T → Option T → T
  merged merge t none = t
  merged merge t (some old) = merge old t

  abbrev pub tile_in : Option (Floor T) → ℕ → ℕ → Option T
  tile_in none i j = none
  tile_in (some f) i j = f i j

  unfoldable pub put_tile : (T → T → T) → T → ℕ → ℕ → ℕ → QTreeLeafNode T → QTreeLeafNode T
  unfolding update create_floor
  put_tile merge t i j z l =
      let l' = create_floor z l in
      let f = floor_or_new (l'.floors z) in
      let f' = update f i (update (f i) j (some (merged merge t (f i j)))) in
      record l' { floors = update l'.floors z (some f') }

  abbrev pub tile_at : Option (QTreeLeafNode T) → ℕ → ℕ → ℕ → Option T
  tile_at none i j z = none
  tile_at (some l) i j z = tile_in (l.floors z) i j

  unfoldable pub get_tile : ℕ → ℕ → ℕ → QTreeNode T → Option T
  unfolding get_leaf
  get_tile x y z m = if leb 16 z then none else tile_at (get_leaf m x y) (x % 8) (y % 8) z

  -- `setTile`; `merge` moves what is on the new tile to the old one.
  unfoldable pub set_tile : (T → T → T) → ℕ → ℕ → ℕ → T → QTreeNode T → QTreeNode T
  unfolding modify_leaf create_leaf link_north link_west link_south link_east put_tile
  set_tile merge x y z t m =
      if leb 16 z
      then m
      else let (r, new) = create_leaf 12 x y m in
        let linked =
          if new then link_east x y (link_south x y (link_west x y (link_north x y r))) else r in
        modify_leaf (put_tile merge t (x % 8) (y % 8) z) linked x y

  abbrev pub node_list : Bool → QTreeLeafNode T → List ℕ
  node_list only_players l = if only_players then l.player_list else l.creature_list

  -- The creatures of the leaf at a position.
  abbrev pub listed_at : Bool → Option (QTreeLeafNode T) → List ℕ
  listed_at only_players none = []
  listed_at only_players (some l) = node_list only_players l

  unfoldable pub add_creature : ℕ → Bool → QTreeLeafNode T → QTreeLeafNode T
  add_creature c is_player l = record l {
    creature_list = l.creature_list ++ c ∷ [];
    player_list = if is_player then l.player_list ++ c ∷ [] else l.player_list;
  }
