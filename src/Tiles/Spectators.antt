-- ===== src/Tiles/Spectators.antt =====
-- Who sees what happens at a position: `getSpectatorsInternal` of src/map.cpp, and the creatures of
-- a leaf. A range to the west or to the north, which the source holds as a negative number, is a
-- number of squares; the differences of the source are sums here. Positions of creatures are an
-- argument.
use asca_ci.Base.{
  ℕ, zero, suc, ◌+◌, ◌*◌, ◌-◌, ◌/◌, ◌%◌, Bool, not, ◌&&◌, ◌||◌, List, [], ◌∷◌, ◌++◌, Option, none,
  some, ltb, if◌then◌else◌,
}
use asca_ci.Network.Message.{Position}
use asca_ci.Tiles.{QTreeLeafNode, QTreeNode, get_leaf, node_list}

pub record Range : Type 0 where
  pub left : ℕ
  pub right : ℕ
  pub up : ℕ
  pub down : ℕ
  pub min_z : ℕ
  pub max_z : ℕ

abbrev pub lesser : ℕ → ℕ → ℕ
lesser a b = if ltb b a then b else a

-- The corner of a square.
abbrev pub corner : ℕ → ℕ
corner x = x - x % 8

-- Tests of one coordinate, moved by the floors between the creature and the centre.
abbrev pub is_within : ℕ → ℕ → ℕ → ℕ → ℕ → ℕ → Bool
is_within center center_z below above c z =
    not (ltb (c + below + z) (center + center_z)) && not (ltb (center + above + center_z) (c + z))

unfoldable pub is_seen : Position → Range → Position → Bool
is_seen center g p =
    not (ltb p.z g.min_z || ltb g.max_z p.z)
    && (is_within center.y center.z g.up g.down p.y p.z
        && is_within center.x center.z g.left g.right p.x p.z)

abbrev pub keep : (ℕ → Bool) → List ℕ → List ℕ
keep f [] = []
keep f (c ∷ cs) = let rest = keep f cs in if f c then c ∷ rest else rest

-- The rounds of a loop from one corner to another in steps of 8.
abbrev pub rounds : ℕ → ℕ → ℕ
rounds start last = if ltb last start then 0 else (last - start) / 8 + 1

module _ {ℓ} {T : Type ℓ} where
  abbrev pub follow : QTreeNode T → Option (ℕ × ℕ) → Option (QTreeLeafNode T)
  follow m none = none
  follow m (some (i, j)) = get_leaf m (i * 8) (j * 8)

  -- The leaf of the next column, and of the next row.
  abbrev pub next_e : QTreeNode T → ℕ → ℕ → Option (QTreeLeafNode T) → Option (QTreeLeafNode T)
  next_e m x y (some l) = follow m l.leaf_e
  next_e m x y none = get_leaf m (x + 8) y

  abbrev pub next_s : QTreeNode T → ℕ → ℕ → Option (QTreeLeafNode T) → Option (QTreeLeafNode T)
  next_s m x y (some l) = follow m l.leaf_s
  next_s m x y none = get_leaf m x (y + 8)

  abbrev pub spotted : Bool → (ℕ → Bool) → Option (QTreeLeafNode T) → List ℕ
  spotted only_players seen none = []
  spotted only_players seen (some l) = keep seen (node_list only_players l)

  module _ (only_players : Bool) (seen : ℕ → Bool) (m : QTreeNode T) where
    -- The loop over the columns that are left, and the one over the rows.
    unfoldable pub walk_row : ℕ → ℕ → ℕ → Option (QTreeLeafNode T) → List ℕ
    unfolding get_leaf
    walk_row zero x y leaf_e = []
    walk_row (suc columns) x y leaf_e =
        spotted only_players seen leaf_e ++ walk_row columns (x + 8) y (next_e m x y leaf_e)

    unfoldable pub walk_rows : ℕ → ℕ → ℕ → ℕ → Option (QTreeLeafNode T) → List ℕ
    unfolding walk_row
    walk_rows zero columns x y leaf_s = []
    walk_rows (suc rows) columns x y leaf_s =
        walk_row columns x y leaf_s ++ walk_rows rows columns x (y + 8) (next_s m x y leaf_s)

  unfoldable pub get_spectators : (ℕ → Position) → Position → Range → Bool → QTreeNode T → List ℕ
  unfolding is_seen walk_rows
  get_spectators where_is center g only_players m =
      let x1 = lesser 0xffff (center.x + center.z - (g.left + g.max_z)) in
      let y1 = lesser 0xffff (center.y + center.z - (g.up + g.max_z)) in
      let x2 = lesser 0xffff (center.x + g.right + center.z - g.min_z) in
      let y2 = lesser 0xffff (center.y + g.down + center.z - g.min_z) in
      walk_rows only_players (λ c. is_seen center g (where_is c)) m (rounds (corner y1) (corner y2))
        (rounds (corner x1) (corner x2)) (corner x1) (corner y1)
        (get_leaf m (corner x1) (corner y1))
