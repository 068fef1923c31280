-- ===== src/Tiles/Seen.antt =====
-- The spectators are the creatures in the range.
use asca_ci.Base.{
  ℕ, zero, suc, ◌+◌, ◌*◌, ◌-◌, ◌/◌, ◌%◌, ◌<◌, ◌≤◌, ◌≡◌, refl, ap, ◌∙◌, Bool, true, false, ◌&&◌,
  ◌||◌, List, [], ◌∷◌, ◌++◌, Option, none, some, ◌==◌, Bool-cases, inl, inr, ◌⊎◌, arith,
}
use asca_ci.Base.Bits.{u16}
use asca_ci.Network.Message.{Position}
use asca_ci.Tiles.{QTreeLeafNode, QTreeNode, get_leaf, node_list, listed_at}
use asca_ci.Tiles.Kept.{IsRooted}
use asca_ci.Tiles.Linked.{IsWoven}
use asca_ci.Tiles.Links.{get_leaf-same_square}
use asca_ci.Tiles.Spectators.{Range, spotted, keep, get_spectators, is_seen, rounds, corner, lesser}
use asca_ci.Tiles.Squares.{same_square}
use asca_ci.Tiles.Watched.{
  scan_row, scan_rows, scan_range, get_spectators-scan_rows, rounds-within, lesser-small,
}
use asca_ci.Tiles.Among.{
  is_among, row_step, rows_step, none_among, square_small, square_next, corner_aligned, implied,
  is_seen-among,
}

unfoldable pub is_listed : ℕ → List ℕ → Bool
is_listed c [] = false
is_listed c (d ∷ ds) = let rest = is_listed c ds in c == d || rest

pub is_listed-append :
    (c : ℕ) (xs ys : List ℕ) → is_listed c (xs ++ ys) ≡ (is_listed c xs || is_listed c ys)
unfolding is_listed
is_listed-append c [] ys = refl
is_listed-append c (d ∷ ds) ys = ground (arith, is_listed-append c ds ys)

is_listed-keep :
    (c : ℕ) (f : ℕ → Bool) (xs : List ℕ) → is_listed c (keep f xs) ≡ (f c && is_listed c xs)
unfolding is_listed
is_listed-keep c f [] = ground arith
is_listed-keep c f (d ∷ ds) = elim (Bool-cases (c == d)) [
  | inl same ↦
      let e : c ≡ d = ground (arith, same) in
      rw (← e) (elim (Bool-cases (f c)) [
        | inl seen ↦ rw seen (ground arith)
        | inr hidden ↦ rw hidden (is_listed-keep c f ds ∙ rw hidden refl)
      ])
  | inr other ↦ elim (Bool-cases (f d)) [
    | inl seen ↦ rw (seen, other) (ground (arith, is_listed-keep c f ds))
    | inr hidden ↦ rw (hidden, other) (ground (arith, is_listed-keep c f ds))
  ]
]

module _ {ℓ} {T : Type ℓ} where
  is_listed-spotted :
      (c : ℕ) (only_players : Bool) (seen : ℕ → Bool) (o : Option (QTreeLeafNode T))
      → is_listed c (spotted only_players seen o)
        ≡ (seen c && is_listed c (listed_at only_players o))
  unfolding is_listed
  is_listed-spotted c only_players seen none = ground arith
  is_listed-spotted c only_players seen (some l) = is_listed-keep c seen (node_list only_players l)

  -- Every creature of a leaf is in its square.
  abbrev pub AreHome : (ℕ → Position) → Bool → QTreeNode T → Type 0
  AreHome where_is only_players m =
      (x y c : ℕ)
      → is_listed c (listed_at only_players (get_leaf m x y)) ≡ true
      → same_square x y (where_is c).x (where_is c).y ≡ true

  module _ (m : QTreeNode T) (r : IsRooted m) (where_is : ℕ → Position) (only_players : Bool)
      (home : AreHome where_is only_players m) (seen : ℕ → Bool) (c : ℕ) where
    -- The creature is in the list of the leaf of its position.
    abbrev at_home : Bool
    at_home = is_listed c (listed_at only_players (get_leaf m (where_is c).x (where_is c).y))

    square-at_home :
        (x y : ℕ)
        → is_listed c (listed_at only_players (get_leaf m x y))
          ≡ (same_square x y (where_is c).x (where_is c).y && at_home)
    square-at_home x y = elim (Bool-cases (same_square x y (where_is c).x (where_is c).y)) [
      | inl same ↦ rw same (
          ap (λ o. is_listed c (listed_at only_players o))
            (get_leaf-same_square m x y (where_is c).x (where_is c).y r same))
      | inr apart ↦
          rw apart
            (never (Bool-cases (is_listed c (listed_at only_players (get_leaf m x y)))) apart)
    ]
      where
        never :
            (is_listed c (listed_at only_players (get_leaf m x y)) ≡ true)
              ⊎ (is_listed c (listed_at only_players (get_leaf m x y)) ≡ false)
            → same_square x y (where_is c).x (where_is c).y ≡ false
            → is_listed c (listed_at only_players (get_leaf m x y)) ≡ false
        never (inl there) apart = absurd (ground (arith, home x y c there, apart))
        never (inr away) apart = away

    is_listed-scan_row :
        (n x y : ℕ)
        → x % 8 ≡ 0
        → x + 8 * n ≤ 0x1_0000
        → is_listed c (scan_row only_players seen m n x y) ≡ (
            (u16 y / 8 == u16 (where_is c).y / 8 && is_among n (x / 8) (u16 (where_is c).x / 8))
            && (seen c && at_home))
    unfolding scan_row is_listed
    is_listed-scan_row zero x y a h =
        none_among (u16 y / 8 == u16 (where_is c).y / 8) (seen c && at_home) (x / 8)
          (u16 (where_is c).x / 8)
    is_listed-scan_row (suc n) x y a h =
        is_listed-append c (spotted only_players seen (get_leaf m x y))
          (scan_row only_players seen m n (x + 8) y)
        ∙ rw
            (
              is_listed-spotted c only_players seen (get_leaf m x y),
              square-at_home x y,
              is_listed-scan_row n (x + 8) y (omega (arith, a)) (omega (arith, h)),
            )
            (rw (square_small x (omega (arith, h)), square_next x a)
              (row_step (u16 y / 8 == u16 (where_is c).y / 8) (seen c) at_home n (x / 8)
                (u16 (where_is c).x / 8)))

    is_listed-scan_rows :
        (n columns x y : ℕ)
        → x % 8 ≡ 0
        → x + 8 * columns ≤ 0x1_0000
        → y % 8 ≡ 0
        → y + 8 * n ≤ 0x1_0000
        → is_listed c (scan_rows only_players seen m n columns x y) ≡ (
            (is_among columns (x / 8) (u16 (where_is c).x / 8)
              && is_among n (y / 8) (u16 (where_is c).y / 8))
            && (seen c && at_home))
    unfolding scan_rows is_listed
    is_listed-scan_rows zero columns x y a h a' h' =
        none_among (is_among columns (x / 8) (u16 (where_is c).x / 8)) (seen c && at_home) (y / 8)
          (u16 (where_is c).y / 8)
    is_listed-scan_rows (suc n) columns x y a h a' h' =
        is_listed-append c (scan_row only_players seen m columns x y)
          (scan_rows only_players seen m n columns x (y + 8))
        ∙ rw
            (
              is_listed-scan_row columns x y a h,
              is_listed-scan_rows n columns x (y + 8) a h (omega (arith, a')) (omega (arith, h')),
              square_small y (omega (arith, h')),
              square_next y a',
            )
            (rows_step (is_among columns (x / 8) (u16 (where_is c).x / 8)) (seen c && at_home) n
              (y / 8) (u16 (where_is c).y / 8))

module _ {ℓ} {T : Type ℓ} (m : QTreeNode T) (r : IsRooted m) (w : IsWoven m)
    (where_is : ℕ → Position) (only_players : Bool) (home : AreHome where_is only_players m) where
  -- Where the leaves are linked and list only creatures of their squares, a creature is among the
  -- spectators exactly where it is in the range and in the list of the leaf of its position.
  pub is_listed-get_spectators :
      (center : Position) (g : Range) (c : ℕ)
      → (where_is c).x < 0x1_0000
      → (where_is c).y < 0x1_0000
      → is_listed c (get_spectators where_is center g only_players m) ≡ (
          is_seen center g (where_is c)
          && is_listed c (listed_at only_players (get_leaf m (where_is c).x (where_is c).y)))
  unfolding scan_range
  is_listed-get_spectators center g c small_x small_y =
      let x1 = lesser 0xffff (center.x + center.z - (g.left + g.max_z)) in
      let y1 = lesser 0xffff (center.y + center.z - (g.up + g.max_z)) in
      let x2 = lesser 0xffff (center.x + g.right + center.z - g.min_z) in
      let y2 = lesser 0xffff (center.y + g.down + center.z - g.min_z) in
      let columns = rounds (corner x1) (corner x2) in
      let rows = rounds (corner y1) (corner y2) in
      ap (is_listed c) (get_spectators-scan_rows m r w where_is center g only_players)
      ∙ is_listed-scan_rows m r where_is only_players home (λ d. is_seen center g (where_is d)) c
          rows columns (corner x1) (corner y1) (corner_aligned x1)
          (rounds-within x1 x2 (lesser-small (center.x + center.z - (g.left + g.max_z)))
            (lesser-small (center.x + g.right + center.z - g.min_z)))
          (corner_aligned y1)
          (rounds-within y1 y2 (lesser-small (center.y + center.z - (g.up + g.max_z)))
            (lesser-small (center.y + g.down + center.z - g.min_z)))
      ∙ implied
          (is_among columns (corner x1 / 8) (u16 (where_is c).x / 8)
            && is_among rows (corner y1 / 8) (u16 (where_is c).y / 8))
          (is_seen center g (where_is c))
          (is_listed c (listed_at only_players (get_leaf m (where_is c).x (where_is c).y)))
          (λ seen. is_seen-among center g (where_is c) small_x small_y seen)
