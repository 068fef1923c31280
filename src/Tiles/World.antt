-- ===== src/Tiles/World.antt =====
-- Many calls of `setTile`, from an empty map on, against a function from positions to tiles.
use asca_ci.Base.{
  ℕ, ◌<◌, ◌≡◌, refl, ◌∙◌, Bool, true, false, ◌&&◌, ◌==◌, List, [], ◌∷◌, Option, none, some,
  if◌then◌else◌, leb, ltb, Bool-cases, inl, inr, arith, All,
}
use asca_ci.Tiles.Kept.{IsRooted}
use asca_ci.Tiles.Refines.{tile_at-set_tile, set_tile-IsRooted}
use asca_ci.Tiles.{QTreeNode, get_leaf, new_node, merged, get_tile, set_tile}

pub record Placement {ℓ} (T : Type ℓ) : Type ℓ where
  pub x : ℕ
  pub y : ℕ
  pub z : ℕ
  pub tile : T

module _ {ℓ} {T : Type ℓ} where
  -- The coordinates have 16 bits.
  abbrev pub is_position : Placement T → Bool
  is_position p = ltb p.x 0x1_0000 && ltb p.y 0x1_0000

  -- The tiles by their positions.
  abbrev pub place : (T → T → T) → Placement T → (ℕ → ℕ → ℕ → Option T) → ℕ → ℕ → ℕ → Option T
  place merge p g x y z =
      if ltb p.z 16 && (p.x == x && (p.y == y && p.z == z))
      then some (merged merge p.tile (g p.x p.y p.z))
      else g x y z

  -- The last placement comes first.
  unfoldable pub place_all : (T → T → T) → List (Placement T) → ℕ → ℕ → ℕ → Option T
  place_all merge [] = λ x y z. none
  place_all merge (p ∷ ps) = place merge p (place_all merge ps)

  unfoldable pub set_tiles : (T → T → T) → List (Placement T) → QTreeNode T
  unfolding set_tile
  set_tiles merge [] = new_node
  set_tiles merge (p ∷ ps) = set_tile merge p.x p.y p.z p.tile (set_tiles merge ps)

  pub set_tiles-IsRooted :
      (merge : T → T → T) (ps : List (Placement T)) → IsRooted (set_tiles merge ps)
  unfolding set_tiles
  set_tiles-IsRooted merge [] = record { deep = λ p q. tt; there = refl }
  set_tiles-IsRooted merge (p ∷ ps) =
      set_tile-IsRooted merge p.x p.y p.z p.tile (set_tiles merge ps) (set_tiles-IsRooted merge ps)

  get_tile-set_tile :
      (merge : T → T → T) (p : Placement T) (m : QTreeNode T) (x y z : ℕ)
      → IsRooted m
      → is_position p ≡ true
      → x < 0x1_0000
      → y < 0x1_0000
      → get_tile x y z (set_tile merge p.x p.y p.z p.tile m)
        ≡ place merge p (λ i j k. get_tile i j k m) x y z
  unfolding get_tile
  get_tile-set_tile merge p m x y z r h hx hy = elim (Bool-cases (leb 16 p.z)) [
    | inl outside ↦
        let low : ltb p.z 16 ≡ false = ground (arith, outside) in
        rw low (unfold set_tile in rw outside refl)
    | inr inside ↦
        let low : ltb p.z 16 ≡ true = ground (arith, inside) in
        elim (Bool-cases (leb 16 z)) [
          | inl out ↦
              let other : (p.x == x && (p.y == y && p.z == z)) ≡ false =
                ground (arith, inside, out) in
              rw (out, low, other) refl
          | inr here ↦
              rw (low, inside, here)
                (tile_at-set_tile merge p.x p.y p.z p.tile m x y z r inside (ground (arith, h))
                  (ground (arith, h)) hx hy)
        ]
  ]

  get_tile-new_node : (x y z : ℕ) → get_tile x y z (new_node {T = T}) ≡ none
  unfolding get_tile get_leaf
  get_tile-new_node x y z = elim (Bool-cases (leb 16 z)) [
    | inl out ↦ rw out refl
    | inr here ↦ rw here refl
  ]

  -- Whatever tiles are set on an empty map, at positions of 16 bits, `getTile` gives for each such
  -- position what a map from positions to tiles would: the first tile that was set there, with
  -- those that were set there later merged into it, and none on a layer that there is not.
  pub get_tile-set_tiles :
      (merge : T → T → T) (ps : List (Placement T)) (x y z : ℕ)
      → All (λ p. is_position p ≡ true) ps
      → x < 0x1_0000
      → y < 0x1_0000
      → get_tile x y z (set_tiles merge ps) ≡ place_all merge ps x y z
  unfolding set_tiles place_all
  get_tile-set_tiles merge [] x y z h hx hy = get_tile-new_node x y z
  get_tile-set_tiles merge (p ∷ ps) x y z (h, hs) hx hy =
      get_tile-set_tile merge p (set_tiles merge ps) x y z (set_tiles-IsRooted merge ps) h hx hy
      ∙ rw
          (
            get_tile-set_tiles merge ps p.x p.y p.z hs (ground (arith, h)) (ground (arith, h)),
            get_tile-set_tiles merge ps x y z hs hx hy,
          )
          refl
