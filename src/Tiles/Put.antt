-- ===== src/Tiles/Put.antt =====
-- The tiles after one is put on its leaf.
use asca_ci.Base.{
  ℕ, ◌≡◌, refl, ap, ◌∙◌, Bool, true, false, ◌&&◌, ◌==◌, Option, none, some, if◌then◌else◌,
  Bool-cases, Option-cases, inl, inr, arith, update,
}
use asca_ci.Tiles.Leaves.{same_leaf, get_leaf-modify_leaf}
use asca_ci.Tiles.Kept.{IsRooted}
use asca_ci.Tiles.Squares.{same_square, same_leaf-same_square}
use asca_ci.Tiles.{
  QTreeLeafNode, QTreeNode, Floor, get_leaf, modify_leaf, is_there, put_tile, create_floor,
  floor_or_new, tile_at, tile_in, merged,
}

module _ {ℓ} {T : Type ℓ} (merge : T → T → T) where
  floor-update :
      (f : Floor T) (i j : ℕ) (v : Option T) (i' j' : ℕ)
      → update f i (update (f i) j v) i' j' ≡ (if i == i' && j == j' then v else f i' j')
  unfolding update
  floor-update f i j v i' j' = elim (Bool-cases (i == i')) [
    | inl same ↦ let e : i ≡ i' = ground (arith, same) in rw (same, e) refl
    | inr apart ↦ rw apart refl
  ]

  tile_in-floor_or_new : (o : Option (Floor T)) (i j : ℕ) → floor_or_new o i j ≡ tile_in o i j
  tile_in-floor_or_new none i j = refl
  tile_in-floor_or_new (some f) i j = refl

  update-same : {A : Type ℓ} (g : ℕ → A) (k : ℕ) (v : A) → update g k v k ≡ v
  unfolding update
  update-same g k v = let same : (k == k) ≡ true = ground arith in rw same refl

  update-twice :
      {A : Type ℓ} (g : ℕ → A) (k : ℕ) (v w : A) (i : ℕ)
      → update (update g k v) k w i ≡ update g k w i
  unfolding update
  update-twice g k v w i = elim (Bool-cases (k == i)) [
    | inl same ↦ rw same refl
    | inr apart ↦ rw apart refl
  ]

  tile_in-update :
      (g : ℕ → Option (Floor T)) (z : ℕ) (f : Floor T) (z' i j : ℕ)
      → tile_in (update g z (some f) z') i j ≡ (if z == z' then f i j else tile_in (g z') i j)
  unfolding update
  tile_in-update g z f z' i j = elim (Bool-cases (z == z')) [
    | inl same ↦ rw same refl
    | inr apart ↦ rw apart refl
  ]

  -- The choice by the floor, then by the offsets.
  nested :
      {A : Type ℓ} (p q : Bool) (v old old' : A)
      → (p ≡ true → old ≡ old')
      → (if p then if q then v else old else old') ≡ (if p && q then v else old')
  nested true true v old old' h = refl
  nested true false v old old' h = h refl
  nested false q v old old' h = refl

  -- A tile that is put on a leaf.
  tile_at-put_tile :
      (t : T) (i j z : ℕ) (l : QTreeLeafNode T) (i' j' z' : ℕ)
      → tile_at (some (put_tile merge t i j z l)) i' j' z' ≡ (
          if z == z' && (i == i' && j == j')
          then some (merged merge t (tile_at (some l) i j z))
          else tile_at (some l) i' j' z')
  unfolding put_tile create_floor
  tile_at-put_tile t i j z l i' j' z' =
      let old = floor_or_new (l.floors z) in
      let v = some (merged merge t (old i j)) in
      let f = update old i (update (old i) j v) in
      rw (update-same l.floors z (some old)) (
        ap (λ o. tile_in o i' j') (update-twice l.floors z (some old) (some f) z')
        ∙ tile_in-update l.floors z f z' i' j'
        ∙ ap (λ o. if z == z' then o else tile_in (l.floors z') i' j')
            (floor-update old i j v i' j')
        ∙ nested (z == z') (i == i' && j == j') v (old i' j') (tile_in (l.floors z') i' j') (λ same.
          let e : z ≡ z' = ground (arith, same) in
          tile_in-floor_or_new (l.floors z) i' j' ∙ ap (λ k. tile_in (l.floors k) i' j') e)
        ∙ ap
            (λ o.
              if z == z' && (i == i' && j == j')
              then some (merged merge t o)
              else tile_in (l.floors z') i' j')
            (tile_in-floor_or_new (l.floors z) i j))

  -- The tiles of a leaf that is there, after a tile is put on it.
  pub tile_at-modify_leaf :
      (m : QTreeNode T) (t : T) (x y i j z x' y' i' j' z' : ℕ)
      → IsRooted m
      → is_there (get_leaf m x' y') ≡ true
      → same_square x y x' y' ≡ true
      → tile_at (get_leaf (modify_leaf (put_tile merge t i j z) m x y) x' y') i' j' z' ≡ (
          if z == z' && (i == i' && j == j')
          then some (merged merge t (tile_at (get_leaf m x' y') i j z))
          else tile_at (get_leaf m x' y') i' j' z')
  tile_at-modify_leaf m t x y i j z x' y' i' j' z' r there same =
      let near : same_leaf 13 x y x' y' ≡ true = same_leaf-same_square x y x' y' ∙ same in
      elim (Option-cases (get_leaf m x' y')) [
        | inl nothing ↦ absurd (ground (arith, there, nothing))
        | inr (l, e) ↦
            rw (get_leaf-modify_leaf (put_tile merge t i j z) 13 m x y x' y' r.deep, near, e)
              (tile_at-put_tile t i j z l i' j' z')
      ]

  pub tile_at-other_leaf :
      (m : QTreeNode T) (f : QTreeLeafNode T → QTreeLeafNode T) (x y x' y' i j z : ℕ)
      → IsRooted m
      → same_square x y x' y' ≡ false
      → tile_at (get_leaf (modify_leaf f m x y) x' y') i j z ≡ tile_at (get_leaf m x' y') i j z
  tile_at-other_leaf m f x y x' y' i j z r apart =
      let far : same_leaf 13 x y x' y' ≡ false = same_leaf-same_square x y x' y' ∙ apart in
      rw (get_leaf-modify_leaf f 13 m x y x' y' r.deep, far) refl
