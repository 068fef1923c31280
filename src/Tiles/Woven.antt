-- ===== src/Tiles/Woven.antt =====
-- Every leaf points to the leaves to its south and east, whatever tiles are set.
use asca_ci.Base.{
  ℕ, ◌<◌, ◌≡◌, refl, sym, ap, ◌∙◌, true, false, not, Bool-cases, inl, inr, arith, leb, List, [],
  ◌∷◌, All, ◌%◌,
}
use asca_ci.Tiles.Made.{new-create_leaf}
use asca_ci.Tiles.Kept.{IsRooted, create_leaf-IsRooted, linked, linked-Keeps}
use asca_ci.Tiles.Links.{
  pointer_of, is_there-modify_leaf, pointer_of-modify_leaf, pointer_of-create_leaf,
  is_there-create_leaf, get_leaf-same_square,
}
use asca_ci.Tiles.Squares.{same_square}
use asca_ci.Tiles.World.{Placement, set_tiles, is_position, set_tiles-IsRooted}
use asca_ci.Tiles.{
  QTreeNode, get_leaf, modify_leaf, create_leaf, is_there, after_square, set_tile, put_tile,
  create_floor,
}
use asca_ci.Tiles.Linked.{IsWoven, link-IsWoven}

module _ {ℓ} {T : Type ℓ} where
  -- A tree with the leaves and the pointers of another one.
  pub same-IsWoven :
      (m m' : QTreeNode T)
      → ((x y : ℕ) → is_there (get_leaf m' x y) ≡ is_there (get_leaf m x y))
      → ((x y : ℕ)
          → pointer_of (λ l. l.leaf_s) (get_leaf m' x y)
            ≡ pointer_of (λ l. l.leaf_s) (get_leaf m x y))
      → ((x y : ℕ)
          → pointer_of (λ l. l.leaf_e) (get_leaf m' x y)
            ≡ pointer_of (λ l. l.leaf_e) (get_leaf m x y))
      → IsWoven m
      → IsWoven m'
  same-IsWoven m m' t s e w = record {
    south = λ x y hx hy there.
        s x y ∙ w.south x y hx hy (sym (t x y) ∙ there) ∙ rw (t x (after_square y)) refl;
    east = λ x y hx hy there.
        e x y ∙ w.east x y hx hy (sym (t x y) ∙ there) ∙ rw (t (after_square x) y) refl;
  }

  there-create_leaf :
      (m : QTreeNode T) (x y x' y' : ℕ)
      → IsRooted m
      → is_there (get_leaf m x y) ≡ true
      → is_there (get_leaf (create_leaf 12 x y m).0 x' y') ≡ is_there (get_leaf m x' y')
  there-create_leaf m x y x' y' r old = elim (Bool-cases (same_square x y x' y')) [
    | inl same ↦
        is_there-create_leaf m x y x' y' r
        ∙ rw (same, sym (ap is_there (get_leaf-same_square m x y x' y' r same)) ∙ old) refl
    | inr apart ↦ is_there-create_leaf m x y x' y' r ∙ rw apart refl
  ]

  linked-IsWoven :
      (m : QTreeNode T) (x y : ℕ)
      → IsRooted m
      → x < 0x1_0000
      → y < 0x1_0000
      → IsWoven m
      → IsWoven (linked x y (create_leaf 12 x y m))
  linked-IsWoven m x y r hx hy w =
      let new = new-create_leaf 12 m x y r.deep r.there in
      elim (Bool-cases (is_there (get_leaf m x y))) [
        | inl old ↦
            let no_new : (create_leaf 12 x y m).1 ≡ false = new ∙ ap not old in
            rw no_new (
              same-IsWoven m (create_leaf 12 x y m).0 (λ x' y'. there-create_leaf m x y x' y' r old)
                (λ x' y'. pointer_of-create_leaf (λ l. l.leaf_s) m x y x' y' r refl)
                (λ x' y'. pointer_of-create_leaf (λ l. l.leaf_e) m x y x' y' r refl) w)
        | inr fresh ↦
            let is_new : (create_leaf 12 x y m).1 ≡ true = new ∙ ap not fresh in
            rw is_new (link-IsWoven m x y r hx hy w fresh)
      ]

  set_tile-IsWoven :
      (merge : T → T → T) (x y z : ℕ) (t : T) (m : QTreeNode T)
      → IsRooted m
      → x < 0x1_0000
      → y < 0x1_0000
      → IsWoven m
      → IsWoven (set_tile merge x y z t m)
  unfolding set_tile put_tile create_floor
  set_tile-IsWoven merge x y z t m r hx hy w = elim (Bool-cases (leb 16 z)) [
    | inl high ↦ rw high w
    | inr low ↦
        let m' = linked x y (create_leaf 12 x y m) in
        let r' = (linked-Keeps x y (create_leaf 12 x y m) (create_leaf-IsRooted m x y r)).rooted in
        let f = put_tile merge t (x % 8) (y % 8) z in
        rw low (
          same-IsWoven m' (modify_leaf f m' x y) (λ x' y'. is_there-modify_leaf f m' x y x' y' r')
            (λ x' y'. pointer_of-modify_leaf (λ l. l.leaf_s) f m' x y x' y' r' (λ l. refl))
            (λ x' y'. pointer_of-modify_leaf (λ l. l.leaf_e) f m' x y x' y' r' (λ l. refl))
            (linked-IsWoven m x y r hx hy w))
  ]

  -- Whatever tiles are set on an empty map, at positions of 16 bits, each leaf points to the leaves
  -- of the next squares to its south and to its east, around the edge of the map, where these are
  -- there, and to none where they are not.
  pub set_tiles-IsWoven :
      (merge : T → T → T) (ps : List (Placement T))
      → All (λ p. is_position p ≡ true) ps
      → IsWoven (set_tiles merge ps)
  unfolding set_tiles get_leaf
  set_tiles-IsWoven merge [] h = record {
    south = λ x y hx hy there. absurd (ground (arith, there));
    east = λ x y hx hy there. absurd (ground (arith, there));
  }
  set_tiles-IsWoven merge (p ∷ ps) (h, hs) =
      set_tile-IsWoven merge p.x p.y p.z p.tile (set_tiles merge ps) (set_tiles-IsRooted merge ps)
        (ground (arith, h)) (ground (arith, h)) (set_tiles-IsWoven merge ps hs)
