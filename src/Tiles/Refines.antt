-- ===== src/Tiles/Refines.antt =====
-- The quadtree is a map from positions to tiles.
use asca_ci.Base.{
  ℕ, ◌/◌, ◌%◌, ◌<◌, ◌≡◌, refl, ap, ◌∙◌, Bool, true, false, ◌&&◌, ◌==◌, Option, some, if◌then◌else◌,
  leb, Bool-cases, inl, inr, arith,
}
use asca_ci.Base.Bits.{u16}
use asca_ci.Tiles.Leaves.{same_leaf, get_leaf-create_leaf}
use asca_ci.Tiles.Kept.{
  IsRooted, Keeps, Keeps-trans, create_leaf-Keeps, linked, linked-Keeps, modify_leaf-IsRooted,
}
use asca_ci.Tiles.Squares.{same_square, same_leaf-same_square}
use asca_ci.Tiles.{QTreeNode, get_leaf, create_leaf, is_there, put_tile, tile_at, merged, set_tile}
use asca_ci.Tiles.Put.{tile_at-modify_leaf, tile_at-other_leaf}

-- A coordinate is its square and its offset.
axis-eq :
    (x x' : ℕ)
    → x < 0x1_0000
    → x' < 0x1_0000
    → (x == x') ≡ ((u16 x / 8 == u16 x' / 8) && x % 8 == x' % 8)
axis-eq x x' h h' = ground (arith, h, h')

apart-eq : (a b c d e : Bool) → (a && b) ≡ false → ((a && c) && ((b && d) && e)) ≡ false
apart-eq a b c d e h = ground (arith, h)

near-eq : (a b c d e : Bool) → (a && b) ≡ true → (e && (c && d)) ≡ ((a && c) && ((b && d) && e))
near-eq a b c d e h = ground (arith, h)

module _ {ℓ} {T : Type ℓ} (merge : T → T → T) where
  -- The tree before the tile is put on its leaf.
  abbrev pub prepared : ℕ → ℕ → QTreeNode T → QTreeNode T
  prepared x y m = linked x y (create_leaf 12 x y m)

  pub prepared-Keeps : (m : QTreeNode T) (x y : ℕ) → IsRooted m → Keeps m (prepared x y m)
  prepared-Keeps m x y r =
      let k = create_leaf-Keeps m x y r in
      Keeps-trans k (linked-Keeps x y (create_leaf 12 x y m) k.rooted)

  prepared-there :
      (m : QTreeNode T) (x y x' y' : ℕ)
      → IsRooted m
      → same_square x y x' y' ≡ true
      → is_there (get_leaf (prepared x y m) x' y') ≡ true
  prepared-there m x y x' y' r same =
      let near : same_leaf 13 x y x' y' ≡ true = same_leaf-same_square x y x' y' ∙ same in
      let k = create_leaf-Keeps m x y r in
      (linked-Keeps x y (create_leaf 12 x y m) k.rooted).leaves x' y'
        (rw (get_leaf-create_leaf 12 m x y x' y' r.deep r.there, near) refl)

  pub set_tile-IsRooted :
      (x y z : ℕ) (t : T) (m : QTreeNode T) → IsRooted m → IsRooted (set_tile merge x y z t m)
  unfolding set_tile
  set_tile-IsRooted x y z t m r = elim (Bool-cases (leb 16 z)) [
    | inl high ↦ rw high r
    | inr low ↦ rw low (
        modify_leaf-IsRooted (put_tile merge t (x % 8) (y % 8) z) (prepared x y m) x y
          (prepared-Keeps m x y r).rooted)
  ]

  one_place :
      (m : QTreeNode T) (x y x' y' : ℕ) (b : Bool) (f : Option T → Option T) (i j z : ℕ)
      (other : Option T)
      → (if x == x' && (y == y' && b) then f (tile_at (get_leaf m x' y') i j z) else other)
        ≡ (if x == x' && (y == y' && b) then f (tile_at (get_leaf m x y) i j z) else other)
  one_place m x y x' y' b f i j z other = elim (Bool-cases (x == x' && (y == y' && b))) [
    | inl same ↦
        let same_x : x ≡ x' = ground (arith, same) in
        let same_y : y ≡ y' = ground (arith, same) in rw (same, same_x, same_y) refl
    | inr apart ↦ rw apart refl
  ]

  -- The tiles of the floors that there are.
  pub tile_at-set_tile :
      (x y z : ℕ) (t : T) (m : QTreeNode T) (x' y' z' : ℕ)
      → IsRooted m
      → leb 16 z ≡ false
      → x < 0x1_0000
      → y < 0x1_0000
      → x' < 0x1_0000
      → y' < 0x1_0000
      → tile_at (get_leaf (set_tile merge x y z t m) x' y') (x' % 8) (y' % 8) z' ≡ (
          if x == x' && (y == y' && z == z')
          then some (merged merge t (tile_at (get_leaf m x y) (x % 8) (y % 8) z))
          else tile_at (get_leaf m x' y') (x' % 8) (y' % 8) z')
  unfolding set_tile
  tile_at-set_tile x y z t m x' y' z' r low hx hy hx' hy' =
      let k = prepared-Keeps m x y r in
      elim (Bool-cases (same_square x y x' y')) [
        | inr apart ↦
            let differ : (x == x' && (y == y' && z == z')) ≡ false =
              rw (axis-eq x x' hx hx', axis-eq y y' hy hy')
                (apart-eq (u16 x / 8 == u16 x' / 8) (u16 y / 8 == u16 y' / 8) (x % 8 == x' % 8)
                  (y % 8 == y' % 8) (z == z') apart) in
            rw (low, differ)
              (tile_at-other_leaf merge (prepared x y m) (put_tile merge t (x % 8) (y % 8) z) x y x'
                  y' (x' % 8) (y' % 8) z' k.rooted apart
                ∙ k.tiles x' y' (x' % 8) (y' % 8) z')
        | inl same ↦
            let after : tile_at (get_leaf (set_tile merge x y z t m) x' y') (x' % 8) (y' % 8) z' ≡ (
                if z == z' && (x % 8 == x' % 8 && y % 8 == y' % 8)
                then some (merged merge t (tile_at (get_leaf m x' y') (x % 8) (y % 8) z))
                else tile_at (get_leaf m x' y') (x' % 8) (y' % 8) z') =
              rw low (
                rw (← k.tiles x' y' (x % 8) (y % 8) z, ← k.tiles x' y' (x' % 8) (y' % 8) z')
                  (tile_at-modify_leaf merge (prepared x y m) t x y (x % 8) (y % 8) z x' y' (x' % 8)
                    (y' % 8) z' k.rooted (prepared-there m x y x' y' r same) same)) in
            after
            ∙ ap
                (λ b.
                  if b
                  then some (merged merge t (tile_at (get_leaf m x' y') (x % 8) (y % 8) z))
                  else tile_at (get_leaf m x' y') (x' % 8) (y' % 8) z')
                (near-eq (u16 x / 8 == u16 x' / 8) (u16 y / 8 == u16 y' / 8) (x % 8 == x' % 8)
                    (y % 8 == y' % 8) (z == z') same
                  ∙ rw (← axis-eq x x' hx hx', ← axis-eq y y' hy hy') refl)
            ∙ one_place m x y x' y' (z == z') (λ o. some (merged merge t o)) (x % 8) (y % 8) z
                (tile_at (get_leaf m x' y') (x' % 8) (y' % 8) z')
      ]
