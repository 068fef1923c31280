-- ===== src/Tiles/Creatures.antt =====
-- Creatures come to the map: `addCreature` of a leaf, which `placeCreature` of src/map.cpp calls for
-- the leaf of the creature's position.
use asca_ci.Base.{
  ℕ, ◌%◌, ◌≡◌, refl, ◌∙◌, Bool, true, false, not, ◌&&◌, ◌||◌, List, [], ◌∷◌, Option, none, some,
  leb, ◌==◌, if◌then◌else◌, Bool-cases, inl, inr, arith,
}
use asca_ci.Network.Message.{Position}
use asca_ci.Tiles.Kept.{IsRooted, listed_at-modify_leaf, modify_leaf-IsRooted}
use asca_ci.Tiles.Leaves.{same_leaf, map_leaf, get_leaf-modify_leaf}
use asca_ci.Tiles.Linked.{IsWoven}
use asca_ci.Tiles.Links.{is_there-modify_leaf, pointer_of-modify_leaf}
use asca_ci.Tiles.Refines.{prepared, prepared-Keeps}
use asca_ci.Tiles.Seen.{is_listed, is_listed-append}
use asca_ci.Tiles.Squares.{same_square, same_leaf-same_square}
use asca_ci.Tiles.World.{Placement, set_tiles, set_tiles-IsRooted}
use asca_ci.Tiles.Woven.{same-IsWoven}
use asca_ci.Tiles.{
  QTreeLeafNode, QTreeNode, get_leaf, modify_leaf, is_there, set_tile, put_tile, create_floor,
  node_list, listed_at, add_creature,
}

module _ {ℓ} {T : Type ℓ} (merge : T → T → T) where
  listed_at-set_tile :
      (x y z : ℕ) (t : T) (m : QTreeNode T) (b : Bool) (x' y' : ℕ)
      → IsRooted m
      → listed_at b (get_leaf (set_tile merge x y z t m) x' y') ≡ listed_at b (get_leaf m x' y')
  unfolding set_tile put_tile create_floor
  listed_at-set_tile x y z t m b x' y' r = elim (Bool-cases (leb 16 z)) [
    | inl high ↦ rw high refl
    | inr low ↦
        let k = prepared-Keeps merge m x y r in
        rw low (
          listed_at-modify_leaf (put_tile merge t (x % 8) (y % 8) z) (prepared merge x y m) b x y x'
            y' k.rooted (λ l. refl)
          ∙ k.lists b x' y')
  ]

  -- Tiles alone bring no creatures.
  pub listed_at-set_tiles :
      (ps : List (Placement T)) (b : Bool) (x y : ℕ)
      → listed_at b (get_leaf (set_tiles merge ps) x y) ≡ []
  unfolding set_tiles get_leaf
  listed_at-set_tiles [] b x y = refl
  listed_at-set_tiles (p ∷ ps) b x y =
      listed_at-set_tile p.x p.y p.z p.tile (set_tiles merge ps) b x y (set_tiles-IsRooted merge ps)
      ∙ listed_at-set_tiles ps b x y

-- A test that a list of players asks for.
abbrev pub is_wanted : Bool → Bool → Bool
is_wanted only_players is_player = not only_players || is_player

module _ {ℓ} {T : Type ℓ} where
  is_listed-add_creature :
      (c d : ℕ) (p b : Bool) (l : QTreeLeafNode T)
      → is_listed d (node_list b (add_creature c p l))
        ≡ (is_listed d (node_list b l) || (d == c && is_wanted b p))
  unfolding add_creature is_listed
  is_listed-add_creature c d true true l = is_listed-append d l.player_list (c ∷ []) ∙ ground arith
  is_listed-add_creature c d false true l = ground arith
  is_listed-add_creature c d true false l =
      is_listed-append d l.creature_list (c ∷ []) ∙ ground arith
  is_listed-add_creature c d false false l =
      is_listed-append d l.creature_list (c ∷ []) ∙ ground arith

  is_listed-map_leaf :
      (c d : ℕ) (p b : Bool) (o : Option (QTreeLeafNode T)) (same : Bool)
      → is_listed d (listed_at b (if same then map_leaf (add_creature c p) o else o))
        ≡ (is_listed d (listed_at b o) || ((same && is_there o) && (d == c && is_wanted b p)))
  unfolding is_listed
  is_listed-map_leaf c d p b none true = refl
  is_listed-map_leaf c d p b none false = refl
  is_listed-map_leaf c d p b (some l) true = is_listed-add_creature c d p b l
  is_listed-map_leaf c d p b (some l) false = ground arith

-- The creatures come, the last of the list first.
unfoldable pub enter_all {ℓ} :
    {T : Type ℓ} → (ℕ → Position) → (ℕ → Bool) → List ℕ → QTreeNode T → QTreeNode T
unfolding modify_leaf add_creature
enter_all where_is is_player [] m = m
enter_all where_is is_player (c ∷ cs) m =
    modify_leaf (add_creature c (is_player c)) (enter_all where_is is_player cs m) (where_is c).x
      (where_is c).y

module _ {ℓ} {T : Type ℓ} (where_is : ℕ → Position) (is_player : ℕ → Bool) (m : QTreeNode T)
    (r : IsRooted m) where
  abbrev populated : List ℕ → QTreeNode T
  populated cs = enter_all where_is is_player cs m

  pub enter_all-IsRooted : (cs : List ℕ) → IsRooted (populated cs)
  unfolding enter_all
  enter_all-IsRooted [] = r
  enter_all-IsRooted (c ∷ cs) =
      modify_leaf-IsRooted (add_creature c (is_player c)) (populated cs) (where_is c).x
        (where_is c).y (enter_all-IsRooted cs)

  is_there-enter_all :
      (cs : List ℕ) (x y : ℕ) → is_there (get_leaf (populated cs) x y) ≡ is_there (get_leaf m x y)
  unfolding enter_all
  is_there-enter_all [] x y = refl
  is_there-enter_all (c ∷ cs) x y =
      is_there-modify_leaf (add_creature c (is_player c)) (populated cs) (where_is c).x
        (where_is c).y x y (enter_all-IsRooted cs)
      ∙ is_there-enter_all cs x y

  pub enter_all-IsWoven : (cs : List ℕ) → IsWoven m → IsWoven (populated cs)
  unfolding enter_all add_creature
  enter_all-IsWoven [] w = w
  enter_all-IsWoven (c ∷ cs) w =
      let f = add_creature c (is_player c) in
      let x = (where_is c).x in
      let y = (where_is c).y in
      same-IsWoven (populated cs) (populated (c ∷ cs))
        (λ x' y'. is_there-modify_leaf f (populated cs) x y x' y' (enter_all-IsRooted cs))
        (λ x' y'.
          pointer_of-modify_leaf (λ l. l.leaf_s) f (populated cs) x y x' y' (enter_all-IsRooted cs)
            (λ l. refl))
        (λ x' y'.
          pointer_of-modify_leaf (λ l. l.leaf_e) f (populated cs) x y x' y' (enter_all-IsRooted cs)
            (λ l. refl))
        (enter_all-IsWoven cs w)

  -- Who is listed after one more creature has come.
  pub is_listed-enter_all :
      (c : ℕ) (cs : List ℕ) (d : ℕ) (b : Bool) (x y : ℕ)
      → is_listed d (listed_at b (get_leaf (populated (c ∷ cs)) x y)) ≡ (
          is_listed d (listed_at b (get_leaf (populated cs) x y))
          || ((same_square (where_is c).x (where_is c).y x y && is_there (get_leaf m x y))
              && (d == c && is_wanted b (is_player c))))
  unfolding enter_all
  is_listed-enter_all c cs d b x y =
      rw
        (
          get_leaf-modify_leaf (add_creature c (is_player c)) 13 (populated cs) (where_is c).x
              (where_is c).y x y (enter_all-IsRooted cs).deep,
          ← is_there-enter_all cs x y,
          ← same_leaf-same_square (where_is c).x (where_is c).y x y,
        )
        (is_listed-map_leaf c d (is_player c) b (get_leaf (populated cs) x y)
          (same_leaf 13 (where_is c).x (where_is c).y x y))
