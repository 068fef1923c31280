-- ===== src/Tiles/Around.antt =====
-- The squares around two positions of one square, to the south and to the east.
use asca_ci.Base.{ℕ, ◌<◌, ◌≡◌, refl, Bool, true, false, ◌&&◌, ◌==◌, arith, ◌/◌}
use asca_ci.Base.Bits.{u16}
use asca_ci.Tiles.Links.{before-after, after-same, before-other}
use asca_ci.Tiles.Squares.{same_square}
use asca_ci.Tiles.{after_square, before_square}

and_parts : (p q : Bool) → (p && q) ≡ true → (p ≡ true) × (q ≡ true)
and_parts true q e = (refl, e)
and_parts false q e = absurd (ground (arith, e))

module _ (x y x' y' : ℕ) where
  pub south_near :
      y < 0x1_0000
      → y' < 0x1_0000
      → same_square x y x' y' ≡ true
      → same_square x (after_square y) x' (after_square y') ≡ true
  south_near hy hy' e =
      let (p, q) = and_parts (u16 x / 8 == u16 x' / 8) (u16 y / 8 == u16 y' / 8) e in
      rw (p, after-same y y' hy hy' q) refl

  pub south_far :
      y < 0x1_0000 → same_square x y x' y' ≡ true → same_square x (before_square y) x' y' ≡ false
  south_far hy e =
      let (p, q) = and_parts (u16 x / 8 == u16 x' / 8) (u16 y / 8 == u16 y' / 8) e in
      rw (p, before-other y y' hy q) refl

  pub south_turned :
      y < 0x1_0000
      → y' < 0x1_0000
      → same_square x (before_square y) x' y' ≡ same_square x y x' (after_square y')
  south_turned hy hy' = rw (before-after y y' hy hy') refl

  pub east_near :
      x < 0x1_0000
      → x' < 0x1_0000
      → same_square x y x' y' ≡ true
      → same_square (after_square x) y (after_square x') y' ≡ true
  east_near hx hx' e =
      let (p, q) = and_parts (u16 x / 8 == u16 x' / 8) (u16 y / 8 == u16 y' / 8) e in
      rw (q, after-same x x' hx hx' p) refl

  pub east_far :
      x < 0x1_0000 → same_square x y x' y' ≡ true → same_square (before_square x) y x' y' ≡ false
  east_far hx e =
      let (p, q) = and_parts (u16 x / 8 == u16 x' / 8) (u16 y / 8 == u16 y' / 8) e in
      rw (q, before-other x x' hx p) refl

  pub east_turned :
      x < 0x1_0000
      → x' < 0x1_0000
      → same_square (before_square x) y x' y' ≡ same_square x y (after_square x') y'
  east_turned hx hx' = rw (before-after x x' hx hx') refl
