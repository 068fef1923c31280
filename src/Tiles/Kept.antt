-- ===== src/Tiles/Kept.antt =====
-- What the making and the linking of leaves keep of the tree.
use asca_ci.Base.{
  ℕ, ◌≡◌, refl, ap, ◌∙◌, Bool, true, false, Option, none, some, if◌then◌else◌, Bool-cases, inl, inr,
}
use asca_ci.Tiles.Leaves.{
  IsDeep, is_inner, same_leaf, map_leaf, or_new, get_leaf-modify_leaf, get_leaf-create_leaf,
}
use asca_ci.Tiles.Made.{
  modify_leaf-IsDeep, create_leaf-IsDeep, is_inner-modify_leaf, is_inner-create_leaf,
}
use asca_ci.Tiles.{
  QTreeLeafNode, QTreeNode, get_leaf, modify_leaf, create_leaf, is_there, point_s, point_e,
  link_north, link_west, link_south, link_east, tile_at, node_list, listed_at, tile_in, square,
  after_square, before_square,
}

module _ {ℓ} {T : Type ℓ} where
  -- The leaves lie below the root at the depth that the operations count on.
  pub record IsRooted (m : QTreeNode T) : Type 0 where
    pub deep : IsDeep 13 m
    pub there : is_inner m ≡ true

  pub modify_leaf-IsRooted :
      (f : QTreeLeafNode T → QTreeLeafNode T) (m : QTreeNode T) (x y : ℕ)
      → IsRooted m
      → IsRooted (modify_leaf f m x y)
  modify_leaf-IsRooted f m x y h = record {
    deep = modify_leaf-IsDeep f 13 m x y h.deep;
    there = is_inner-modify_leaf f m x y h.there;
  }

  pub create_leaf-IsRooted :
      (m : QTreeNode T) (x y : ℕ) → IsRooted m → IsRooted (create_leaf 12 x y m).0
  create_leaf-IsRooted m x y h = record {
    deep = create_leaf-IsDeep 12 m x y h.deep;
    there = is_inner-create_leaf 12 m x y h.there;
  }

  -- The tree has the tiles of another one, and its leaves.
  pub record Keeps (m m' : QTreeNode T) : Type ℓ where
    pub rooted : IsRooted m'
    pub tiles : (x y i j z : ℕ) → tile_at (get_leaf m' x y) i j z ≡ tile_at (get_leaf m x y) i j z
    pub lists : (b : Bool) (x y : ℕ) → listed_at b (get_leaf m' x y) ≡ listed_at b (get_leaf m x y)
    pub leaves : (x y : ℕ) → is_there (get_leaf m x y) ≡ true → is_there (get_leaf m' x y) ≡ true

  pub same-Keeps : (m : QTreeNode T) → IsRooted m → Keeps m m
  same-Keeps m h = record {
    rooted = h;
    tiles = λ x y i j z. refl;
    lists = λ b x y. refl;
    leaves = λ x y e. e;
  }

  pub Keeps-trans : {m m' m'' : QTreeNode T} → Keeps m m' → Keeps m' m'' → Keeps m m''
  Keeps-trans h k = record {
    rooted = k.rooted;
    tiles = λ x y i j z. k.tiles x y i j z ∙ h.tiles x y i j z;
    lists = λ b x y. k.lists b x y ∙ h.lists b x y;
    leaves = λ x y e. k.leaves x y (h.leaves x y e);
  }

  tile_at-map_leaf :
      (f : QTreeLeafNode T → QTreeLeafNode T) (o : Option (QTreeLeafNode T)) (b : Bool) (i j z : ℕ)
      → ((l : QTreeLeafNode T) → (f l).floors ≡ l.floors)
      → tile_at (if b then map_leaf f o else o) i j z ≡ tile_at o i j z
  tile_at-map_leaf f none true i j z h = refl
  tile_at-map_leaf f none false i j z h = refl
  tile_at-map_leaf f (some l) true i j z h = ap (λ g. tile_in (g z) i j) (h l)
  tile_at-map_leaf f (some l) false i j z h = refl

  pub is_there-map_leaf :
      (f : QTreeLeafNode T → QTreeLeafNode T) (o : Option (QTreeLeafNode T)) (b : Bool)
      → is_there (if b then map_leaf f o else o) ≡ is_there o
  is_there-map_leaf f none true = refl
  is_there-map_leaf f none false = refl
  is_there-map_leaf f (some l) true = refl
  is_there-map_leaf f (some l) false = refl

  listed_at-map_leaf :
      (f : QTreeLeafNode T → QTreeLeafNode T) (o : Option (QTreeLeafNode T)) (p b : Bool)
      → ((l : QTreeLeafNode T) → node_list b (f l) ≡ node_list b l)
      → listed_at b (if p then map_leaf f o else o) ≡ listed_at b o
  listed_at-map_leaf f none true b h = refl
  listed_at-map_leaf f none false b h = refl
  listed_at-map_leaf f (some l) true b h = h l
  listed_at-map_leaf f (some l) false b h = refl

  -- A change that leaves the creatures of a leaf alone.
  pub listed_at-modify_leaf :
      (f : QTreeLeafNode T → QTreeLeafNode T) (m : QTreeNode T) (b : Bool) (x y x' y' : ℕ)
      → IsRooted m
      → ((l : QTreeLeafNode T) → node_list b (f l) ≡ node_list b l)
      → listed_at b (get_leaf (modify_leaf f m x y) x' y') ≡ listed_at b (get_leaf m x' y')
  listed_at-modify_leaf f m b x y x' y' r h =
      rw (get_leaf-modify_leaf f 13 m x y x' y' r.deep)
        (listed_at-map_leaf f (get_leaf m x' y') (same_leaf 13 x y x' y') b h)

  modify_leaf-Keeps :
      (f : QTreeLeafNode T → QTreeLeafNode T) (m : QTreeNode T) (x y : ℕ)
      → IsRooted m
      → ((l : QTreeLeafNode T) → (f l).floors ≡ l.floors)
      → ((b : Bool) (l : QTreeLeafNode T) → node_list b (f l) ≡ node_list b l)
      → Keeps m (modify_leaf f m x y)
  modify_leaf-Keeps f m x y r h k = record {
    lists = λ b x' y'. listed_at-modify_leaf f m b x y x' y' r (k b);
    rooted = modify_leaf-IsRooted f m x y r;
    tiles = λ x' y' i j z.
        rw (get_leaf-modify_leaf f 13 m x y x' y' r.deep)
          (tile_at-map_leaf f (get_leaf m x' y') (same_leaf 13 x y x' y') i j z h);
    leaves = λ x' y' e.
        rw (get_leaf-modify_leaf f 13 m x y x' y' r.deep)
          (is_there-map_leaf f (get_leaf m x' y') (same_leaf 13 x y x' y') ∙ e);
  }

  tile_at-or_new :
      (o : Option (QTreeLeafNode T)) (b : Bool) (i j z : ℕ)
      → tile_at (if b then some (or_new o) else o) i j z ≡ tile_at o i j z
  tile_at-or_new none true i j z = refl
  tile_at-or_new none false i j z = refl
  tile_at-or_new (some l) true i j z = refl
  tile_at-or_new (some l) false i j z = refl

  listed_at-or_new :
      (o : Option (QTreeLeafNode T)) (p b : Bool)
      → listed_at b (if p then some (or_new o) else o) ≡ listed_at b o
  listed_at-or_new none true true = refl
  listed_at-or_new none true false = refl
  listed_at-or_new none false b = refl
  listed_at-or_new (some l) true b = refl
  listed_at-or_new (some l) false b = refl

  is_there-or_new :
      (o : Option (QTreeLeafNode T)) (b : Bool)
      → is_there o ≡ true
      → is_there (if b then some (or_new o) else o) ≡ true
  is_there-or_new o true e = refl
  is_there-or_new o false e = e

  pub create_leaf-Keeps :
      (m : QTreeNode T) (x y : ℕ) → IsRooted m → Keeps m (create_leaf 12 x y m).0
  create_leaf-Keeps m x y r = record {
    rooted = create_leaf-IsRooted m x y r;
    tiles = λ x' y' i j z.
        rw (get_leaf-create_leaf 12 m x y x' y' r.deep r.there)
          (tile_at-or_new (get_leaf m x' y') (same_leaf 13 x y x' y') i j z);
    lists = λ b x' y'.
        rw (get_leaf-create_leaf 12 m x y x' y' r.deep r.there)
          (listed_at-or_new (get_leaf m x' y') (same_leaf 13 x y x' y') b);
    leaves = λ x' y' e.
        rw (get_leaf-create_leaf 12 m x y x' y' r.deep r.there)
          (is_there-or_new (get_leaf m x' y') (same_leaf 13 x y x' y') e);
  }

  pub link_north-Keeps : (x y : ℕ) (m : QTreeNode T) → IsRooted m → Keeps m (link_north x y m)
  unfolding link_north
  link_north-Keeps x y m r =
      modify_leaf-Keeps (point_s (square x y)) m x (before_square y) r (λ l. refl) (λ b l. refl)

  pub link_west-Keeps : (x y : ℕ) (m : QTreeNode T) → IsRooted m → Keeps m (link_west x y m)
  unfolding link_west
  link_west-Keeps x y m r =
      modify_leaf-Keeps (point_e (square x y)) m (before_square x) y r (λ l. refl) (λ b l. refl)

  pub link_south-Keeps : (x y : ℕ) (m : QTreeNode T) → IsRooted m → Keeps m (link_south x y m)
  unfolding link_south
  link_south-Keeps x y m r = elim (Bool-cases (is_there (get_leaf m x (after_square y)))) [
    | inl south ↦
        rw south (
          modify_leaf-Keeps (point_s (square x (after_square y))) m x y r (λ l. refl) (λ b l. refl))
    | inr nothing ↦ rw nothing (same-Keeps m r)
  ]

  pub link_east-Keeps : (x y : ℕ) (m : QTreeNode T) → IsRooted m → Keeps m (link_east x y m)
  unfolding link_east
  link_east-Keeps x y m r = elim (Bool-cases (is_there (get_leaf m (after_square x) y))) [
    | inl east ↦
        rw east (
          modify_leaf-Keeps (point_e (square (after_square x) y)) m x y r (λ l. refl) (λ b l. refl))
    | inr nothing ↦ rw nothing (same-Keeps m r)
  ]

  abbrev pub link : ℕ → ℕ → QTreeNode T → QTreeNode T
  link x y m = link_east x y (link_south x y (link_west x y (link_north x y m)))

  pub link-Keeps : (x y : ℕ) (m : QTreeNode T) → IsRooted m → Keeps m (link x y m)
  link-Keeps x y m r =
      let n = link_north-Keeps x y m r in
      let w = link_west-Keeps x y (link_north x y m) n.rooted in
      let s = link_south-Keeps x y (link_west x y (link_north x y m)) w.rooted in
      let e = link_east-Keeps x y (link_south x y (link_west x y (link_north x y m))) s.rooted in
      Keeps-trans n (Keeps-trans w (Keeps-trans s e))

  abbrev pub linked : ℕ → ℕ → QTreeNode T × Bool → QTreeNode T
  linked x y (m, new) = if new then link x y m else m

  pub linked-Keeps : (x y : ℕ) (r : QTreeNode T × Bool) → IsRooted r.0 → Keeps r.0 (linked x y r)
  linked-Keeps x y (m, true) h = link-Keeps x y m h
  linked-Keeps x y (m, false) h = same-Keeps m h
