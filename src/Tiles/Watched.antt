-- ===== src/Tiles/Watched.antt =====
-- The walk along the links between leaves meets the leaves of all squares of the range.
use asca_ci.Base.{
  ℕ, zero, suc, ◌+◌, ◌*◌, ◌-◌, ◌/◌, ◌<◌, ◌≤◌, ◌≡◌, refl, sym, ap, ◌∙◌, Bool, true, false, List, [],
  ◌++◌, Option, none, some, ltb, Bool-cases, Option-cases, inl, inr, arith,
}
use asca_ci.Base.Bits.{u16}
use asca_ci.Network.Message.{Position}
use asca_ci.Tiles.{QTreeLeafNode, QTreeNode, get_leaf, is_there, after_square}
use asca_ci.Tiles.Kept.{IsRooted}
use asca_ci.Tiles.Linked.{IsWoven}
use asca_ci.Tiles.Links.{pointer_of, get_leaf-same_square}
use asca_ci.Tiles.Neighbors.{neighbor}
use asca_ci.Tiles.Spectators.{
  Range, walk_row, walk_rows, next_e, next_s, follow, spotted, get_spectators, is_seen, rounds,
  corner, lesser,
}

pub lesser-small : (a : ℕ) → lesser 0xffff a ≤ 0xffff
lesser-small a = ground arith

corner-small : (a : ℕ) → a ≤ 0xffff → corner a < 0x1_0000
corner-small a h = ground (arith, h)

pub rounds-within :
    (a b : ℕ) → a ≤ 0xffff → b ≤ 0xffff → corner a + 8 * rounds (corner a) (corner b) ≤ 0x1_0000
rounds-within a b h h' = elim (Bool-cases (ltb (corner b) (corner a))) [
  | inl none_at_all ↦ rw none_at_all (ground (arith, h))
  | inr some_at_least ↦
      let e : corner a ≤ corner b = ground (arith, some_at_least) in
      rw some_at_least (omega (arith, h', e))
]

module _ {ℓ} {T : Type ℓ} (only_players : Bool) (seen : ℕ → Bool) (m : QTreeNode T) where
  -- The squares of a row, and of the rows, each with its leaf looked up in the tree.
  unfoldable pub scan_row : ℕ → ℕ → ℕ → List ℕ
  unfolding get_leaf
  scan_row zero x y = []
  scan_row (suc columns) x y =
      spotted only_players seen (get_leaf m x y) ++ scan_row columns (x + 8) y

  unfoldable pub scan_rows : ℕ → ℕ → ℕ → ℕ → List ℕ
  unfolding scan_row
  scan_rows zero columns x y = []
  scan_rows (suc rows) columns x y = scan_row columns x y ++ scan_rows rows columns x (y + 8)

-- The squares of the range.
unfoldable pub scan_range {ℓ} :
    {T : Type ℓ} → (ℕ → Position) → Position → Range → Bool → QTreeNode T → List ℕ
unfolding scan_rows is_seen
scan_range where_is center g only_players m =
    let x1 = lesser 0xffff (center.x + center.z - (g.left + g.max_z)) in
    let y1 = lesser 0xffff (center.y + center.z - (g.up + g.max_z)) in
    let x2 = lesser 0xffff (center.x + g.right + center.z - g.min_z) in
    let y2 = lesser 0xffff (center.y + g.down + center.z - g.min_z) in
    scan_rows only_players (λ c. is_seen center g (where_is c)) m (rounds (corner y1) (corner y2))
      (rounds (corner x1) (corner x2)) (corner x1) (corner y1)

module _ {ℓ} {T : Type ℓ} (m : QTreeNode T) (r : IsRooted m) (w : IsWoven m) where
  absent-none : (o : Option (QTreeLeafNode T)) → is_there o ≡ false → none ≡ o
  absent-none none e = refl
  absent-none (some l) e = absurd (ground (arith, e))

  -- A pointer that leads to a square is a pointer to its leaf.
  follow-neighbor :
      (x y : ℕ) → x < 0x1_0000 → y < 0x1_0000 → follow m (neighbor m x y) ≡ get_leaf m x y
  follow-neighbor x y hx hy = elim (Bool-cases (is_there (get_leaf m x y))) [
    | inl there ↦
        rw there
          (get_leaf-same_square m (u16 x / 8 * 8) (u16 y / 8 * 8) x y r (ground (arith, hx, hy)))
    | inr nothing ↦ rw nothing (absent-none (get_leaf m x y) nothing)
  ]

  next_e-get_leaf :
      (x y : ℕ)
      → x + 8 < 0x1_0000
      → y < 0x1_0000
      → next_e m x y (get_leaf m x y) ≡ get_leaf m (x + 8) y
  next_e-get_leaf x y hx hy = elim (Option-cases (get_leaf m x y)) [
    | inl nothing ↦ rw nothing refl
    | inr (l, e) ↦
        let there : is_there (get_leaf m x y) ≡ true = ap is_there e in
        let next : after_square x ≡ x + 8 = omega (arith, hx) in
        let pointer : l.leaf_e ≡ neighbor m (x + 8) y =
          ap (pointer_of (λ k. k.leaf_e)) (sym e)
          ∙ w.east x y (omega (arith, hx)) hy there
          ∙ ap (λ k. neighbor m k y) next in
        rw e (ap (follow m) pointer ∙ follow-neighbor (x + 8) y hx hy)
  ]

  next_s-get_leaf :
      (x y : ℕ)
      → x < 0x1_0000
      → y + 8 < 0x1_0000
      → next_s m x y (get_leaf m x y) ≡ get_leaf m x (y + 8)
  next_s-get_leaf x y hx hy = elim (Option-cases (get_leaf m x y)) [
    | inl nothing ↦ rw nothing refl
    | inr (l, e) ↦
        let there : is_there (get_leaf m x y) ≡ true = ap is_there e in
        let next : after_square y ≡ y + 8 = omega (arith, hy) in
        let pointer : l.leaf_s ≡ neighbor m x (y + 8) =
          ap (pointer_of (λ k. k.leaf_s)) (sym e)
          ∙ w.south x y hx (omega (arith, hy)) there
          ∙ ap (λ k. neighbor m x k) next in
        rw e (ap (follow m) pointer ∙ follow-neighbor x (y + 8) hx hy)
  ]

  module _ (only_players : Bool) (seen : ℕ → Bool) where
    walk_row-scan_row :
        (columns x y : ℕ)
        → x + 8 * columns ≤ 0x1_0000
        → y < 0x1_0000
        → walk_row only_players seen m columns x y (get_leaf m x y)
          ≡ scan_row only_players seen m columns x y
    unfolding walk_row scan_row
    walk_row-scan_row zero x y hx hy = refl
    walk_row-scan_row (suc zero) x y hx hy = refl
    walk_row-scan_row (suc (suc columns)) x y hx hy =
        ap (λ cs. spotted only_players seen (get_leaf m x y) ++ cs)
          (ap (walk_row only_players seen m (suc columns) (x + 8) y)
              (next_e-get_leaf x y (omega (arith, hx)) hy)
            ∙ walk_row-scan_row (suc columns) (x + 8) y (omega (arith, hx)) hy)

    walk_rows-scan_rows :
        (rows columns x y : ℕ)
        → x + 8 * columns ≤ 0x1_0000
        → x < 0x1_0000
        → y + 8 * rows ≤ 0x1_0000
        → walk_rows only_players seen m rows columns x y (get_leaf m x y)
          ≡ scan_rows only_players seen m rows columns x y
    unfolding walk_rows scan_rows
    walk_rows-scan_rows zero columns x y hx h hy = refl
    walk_rows-scan_rows (suc zero) columns x y hx h hy =
        ap (λ cs. cs ++ []) (walk_row-scan_row columns x y hx (omega (arith, hy)))
    walk_rows-scan_rows (suc (suc rows)) columns x y hx h hy =
        ap
          (λ cs.
            cs
            ++ walk_rows only_players seen m (suc rows) columns x (y + 8)
                (next_s m x y (get_leaf m x y)))
          (walk_row-scan_row columns x y hx (omega (arith, hy)))
        ∙ ap (λ cs. scan_row only_players seen m columns x y ++ cs)
            (ap (walk_rows only_players seen m (suc rows) columns x (y + 8))
                (next_s-get_leaf x y h (omega (arith, hy)))
              ∙ walk_rows-scan_rows (suc rows) columns x (y + 8) hx h (omega (arith, hy)))

  -- Where the leaves are linked, the walk along the links meets the creatures that a look at the
  -- leaf of each square of the range does, in the same order.
  pub get_spectators-scan_rows :
      (where_is : ℕ → Position) (center : Position) (g : Range) (only_players : Bool)
      → get_spectators where_is center g only_players m
        ≡ scan_range where_is center g only_players m
  unfolding get_spectators scan_range
  get_spectators-scan_rows where_is center g only_players =
      let x1 = lesser 0xffff (center.x + center.z - (g.left + g.max_z)) in
      let y1 = lesser 0xffff (center.y + center.z - (g.up + g.max_z)) in
      let x2 = lesser 0xffff (center.x + g.right + center.z - g.min_z) in
      let y2 = lesser 0xffff (center.y + g.down + center.z - g.min_z) in
      walk_rows-scan_rows only_players (λ c. is_seen center g (where_is c))
        (rounds (corner y1) (corner y2)) (rounds (corner x1) (corner x2)) (corner x1) (corner y1)
        (rounds-within x1 x2 (lesser-small (center.x + center.z - (g.left + g.max_z)))
          (lesser-small (center.x + g.right + center.z - g.min_z)))
        (corner-small x1 (lesser-small (center.x + center.z - (g.left + g.max_z))))
        (rounds-within y1 y2 (lesser-small (center.y + center.z - (g.up + g.max_z)))
          (lesser-small (center.y + g.down + center.z - g.min_z)))
