-- ===== src/Tiles/Among.antt =====
-- The squares that a range spans, and the positions in it.
use asca_ci.Base.{
  ℕ, suc, ◌+◌, ◌*◌, ◌-◌, ◌/◌, ◌%◌, ◌<◌, ◌≤◌, ◌≡◌, refl, Bool, true, false, not, ◌&&◌, ◌||◌, ltb,
  leb, ◌==◌, Bool-cases, inl, inr, arith,
}
use asca_ci.Base.Bits.{u16}
use asca_ci.Network.Message.{Position}
use asca_ci.Tiles.Spectators.{Range, is_seen, is_within, rounds, corner, lesser}
use asca_ci.Tiles.Leaves.{both}

-- A square is one of those from `s` on.
abbrev pub is_among : ℕ → ℕ → ℕ → Bool
is_among n s p = leb s p && ltb p (s + n)

pub row_step :
    (b e h : Bool) (n s p : ℕ)
    → (e && ((s == p && b) && h) || ((b && is_among n (s + 1) p) && (e && h)))
      ≡ ((b && is_among (suc n) s p) && (e && h))
row_step b e h n s p = ground arith

pub rows_step :
    (b k : Bool) (n s p : ℕ)
    → (((s == p && b) && k) || ((b && is_among n (s + 1) p) && k))
      ≡ ((b && is_among (suc n) s p) && k)
rows_step b k n s p = ground arith

pub none_among : (b k : Bool) (s p : ℕ) → false ≡ ((b && is_among 0 s p) && k)
none_among b k s p = ground arith

pub square_small : (x : ℕ) → x < 0x1_0000 → u16 x / 8 ≡ x / 8
square_small x h = omega (arith, h)

pub square_next : (x : ℕ) → x % 8 ≡ 0 → (x + 8) / 8 ≡ x / 8 + 1
square_next x h = omega arith

among_rounds :
    (q1 q2 q : ℕ) → q1 ≤ q → q ≤ q2 → is_among (rounds (q1 * 8) (q2 * 8)) (q1 * 8 / 8) q ≡ true
among_rounds q1 q2 q h h' =
    let not_empty : ltb (q2 * 8) (q1 * 8) ≡ false = ground (arith, h, h') in
    rw not_empty (ground (arith, h, h'))

between :
    (x1 x2 p : ℕ)
    → p < 0x1_0000
    → x1 ≤ p
    → p ≤ x2
    → is_among (rounds (corner x1) (corner x2)) (corner x1 / 8) (u16 p / 8) ≡ true
between x1 x2 p small first last =
    let corner1 : corner x1 ≡ x1 / 8 * 8 = omega arith in
    let corner2 : corner x2 ≡ x2 / 8 * 8 = omega arith in
    rw (corner1, corner2, square_small p small)
      (among_rounds (x1 / 8) (x2 / 8) (p / 8) (omega (arith, first)) (omega (arith, last)))

-- A creature that is seen is in one of the squares.
axis_among :
    (center center_z below above min_z max_z p p_z : ℕ)
    → p < 0x1_0000
    → is_within center center_z below above p p_z ≡ true
    → min_z ≤ p_z
    → p_z ≤ max_z
    → is_among
        (rounds
          (corner (lesser 0xffff (center + center_z - (below + max_z))))
          (corner (lesser 0xffff (center + above + center_z - min_z))))
        (corner (lesser 0xffff (center + center_z - (below + max_z))) / 8)
        (u16 p / 8)
      ≡ true
axis_among center center_z below above min_z max_z p p_z small within above_min below_max =
    let x1 = lesser 0xffff (center + center_z - (below + max_z)) in
    let x2 = lesser 0xffff (center + above + center_z - min_z) in
    let first : x1 ≤ p = ground (arith, within, below_max, small) in
    let last : p ≤ x2 = ground (arith, within, above_min, small) in between x1 x2 p small first last

pub corner_aligned : (x : ℕ) → corner x % 8 ≡ 0
corner_aligned x = omega arith

pub implied : (a s h : Bool) → (s ≡ true → a ≡ true) → (a && (s && h)) ≡ (s && h)
implied a s h f = elim (Bool-cases s) [
  | inl holds ↦ rw (f holds) refl
  | inr off ↦ rw off (ground arith)
]

pub is_seen-among :
    (center : Position) (g : Range) (p : Position)
    → p.x < 0x1_0000
    → p.y < 0x1_0000
    → is_seen center g p ≡ true
    → (is_among
          (rounds
            (corner (lesser 0xffff (center.x + center.z - (g.left + g.max_z))))
            (corner (lesser 0xffff (center.x + g.right + center.z - g.min_z))))
          (corner (lesser 0xffff (center.x + center.z - (g.left + g.max_z))) / 8)
          (u16 p.x / 8)
        && is_among
            (rounds
              (corner (lesser 0xffff (center.y + center.z - (g.up + g.max_z))))
              (corner (lesser 0xffff (center.y + g.down + center.z - g.min_z))))
            (corner (lesser 0xffff (center.y + center.z - (g.up + g.max_z))) / 8)
            (u16 p.y / 8))
      ≡ true
unfolding is_seen
is_seen-among center g p small_x small_y seen =
    let (floors, places) =
      both (not (ltb p.z g.min_z || ltb g.max_z p.z))
        (is_within center.y center.z g.up g.down p.y p.z
          && is_within center.x center.z g.left g.right p.x p.z)
        seen in
    let (in_y, in_x) =
      both (is_within center.y center.z g.up g.down p.y p.z)
        (is_within center.x center.z g.left g.right p.x p.z) places in
    let low : g.min_z ≤ p.z = ground (arith, floors) in
    let high : p.z ≤ g.max_z = ground (arith, floors) in
    rw
      (
        axis_among center.x center.z g.left g.right g.min_z g.max_z p.x p.z small_x in_x low high,
        axis_among center.y center.z g.up g.down g.min_z g.max_z p.y p.z small_y in_y low high,
      )
      refl
