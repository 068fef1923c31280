-- ===== src/Tiles/Links.antt =====
-- How a change of a leaf or the making of one tells on the pointers between leaves.
use asca_ci.Base.{
  ℕ, ◌+◌, ◌/◌, ◌%◌, ◌<◌, ◌≡◌, refl, ap, ◌∙◌, Bool, true, false, ◌||◌, ◌==◌, Option, none, some,
  if◌then◌else◌, zero, suc, arith,
}
use asca_ci.Base.Bits.{u16}
use asca_ci.Tiles.Leaves.{
  IsDeep, same_leaf, map_leaf, or_new, get_leaf-modify_leaf, get_leaf-create_leaf, same_child,
  child-same_child, both,
}
use asca_ci.Tiles.Kept.{IsRooted, is_there-map_leaf}
use asca_ci.Tiles.Squares.{same_square, same_leaf-same_square}
use asca_ci.Tiles.{
  QTreeLeafNode, QTreeNode, absent, leaf, inner, get_leaf, modify_leaf, create_leaf, is_there,
  square, after_square, before_square, is_high, double,
}

-- The next square of an axis is the next number, but for the wrap-around at the edge.
after-square : (y : ℕ) → y < 0x1_0000 → u16 (after_square y) / 8 ≡ (u16 y / 8 + 1) % 8192
after-square y h = omega (arith, h)

before-square : (y : ℕ) → y < 0x1_0000 → u16 (before_square y) / 8 ≡ (u16 y / 8 + 8191) % 8192
before-square y h = omega (arith, h)

around : (r r' : ℕ) → r < 8192 → r' < 8192 → ((r + 8191) % 8192 == r') ≡ (r == (r' + 1) % 8192)
around r r' h h' = ground (arith, h, h')

pub before-after :
    (y y' : ℕ)
    → y < 0x1_0000
    → y' < 0x1_0000
    → (u16 (before_square y) / 8 == u16 y' / 8) ≡ (u16 y / 8 == u16 (after_square y') / 8)
before-after y y' h h' =
    rw (before-square y h, after-square y' h')
      (around (u16 y / 8) (u16 y' / 8) (omega arith) (omega arith))

pub after-same :
    (y y' : ℕ)
    → y < 0x1_0000
    → y' < 0x1_0000
    → (u16 y / 8 == u16 y' / 8) ≡ true
    → (u16 (after_square y) / 8 == u16 (after_square y') / 8) ≡ true
after-same y y' h h' e =
    let same : u16 y / 8 ≡ u16 y' / 8 = ground (arith, e) in
    rw (after-square y h, after-square y' h', same) (ground arith)

pub before-other :
    (y y' : ℕ)
    → y < 0x1_0000
    → (u16 y / 8 == u16 y' / 8) ≡ true
    → (u16 (before_square y) / 8 == u16 y' / 8) ≡ false
before-other y y' h e =
    let same : u16 y / 8 ≡ u16 y' / 8 = ground (arith, e) in
    rw (before-square y h, ← same) (ground arith)

pub square-eq : (x y x' y' : ℕ) → same_square x y x' y' ≡ true → square x y ≡ square x' y'
square-eq x y x' y' e =
    let same_x : u16 x / 8 ≡ u16 x' / 8 = ground (arith, e) in
    let same_y : u16 y / 8 ≡ u16 y' / 8 = ground (arith, e) in
    ap (λ i. (i, u16 y / 8)) same_x ∙ ap (λ j. (u16 x' / 8, j)) same_y

-- A field of a leaf that holds a pointer.
abbrev pub pointer_of {ℓ} :
    {T : Type ℓ} → (QTreeLeafNode T → Option (ℕ × ℕ)) → Option (QTreeLeafNode T) → Option (ℕ × ℕ)
pointer_of field none = none
pointer_of field (some l) = field l

module _ {ℓ} {T : Type ℓ} where
  -- Two positions that lead to one leaf have it.
  get_leaf-same_leaf :
      (d : ℕ) (m : QTreeNode T) (x y x' y' : ℕ)
      → IsDeep d m
      → same_leaf d x y x' y' ≡ true
      → get_leaf m x y ≡ get_leaf m x' y'
  unfolding get_leaf same_leaf
  get_leaf-same_leaf d absent x y x' y' h e = refl
  get_leaf-same_leaf d (leaf l) x y x' y' h e = refl
  get_leaf-same_leaf zero (inner child) x y x' y' h e = absurd h
  get_leaf-same_leaf (suc d) (inner child) x y x' y' h e =
      let (here, below) =
        both (same_child x y x' y') (same_leaf d (double x) (double y) (double x') (double y')) e in
      get_leaf-same_leaf d (child (is_high x) (is_high y)) (double x) (double y) (double x')
        (double y') (h (is_high x) (is_high y)) below
      ∙ ap (λ n. get_leaf n (double x') (double y')) (child-same_child child x y x' y' here)

  pub get_leaf-same_square :
      (m : QTreeNode T) (x y x' y' : ℕ)
      → IsRooted m
      → same_square x y x' y' ≡ true
      → get_leaf m x y ≡ get_leaf m x' y'
  get_leaf-same_square m x y x' y' r e =
      get_leaf-same_leaf 13 m x y x' y' r.deep (same_leaf-same_square x y x' y' ∙ e)

  pub is_there-modify_leaf :
      (f : QTreeLeafNode T → QTreeLeafNode T) (m : QTreeNode T) (x y x' y' : ℕ)
      → IsRooted m
      → is_there (get_leaf (modify_leaf f m x y) x' y') ≡ is_there (get_leaf m x' y')
  is_there-modify_leaf f m x y x' y' r =
      rw (get_leaf-modify_leaf f 13 m x y x' y' r.deep)
        (is_there-map_leaf f (get_leaf m x' y') (same_leaf 13 x y x' y'))

  pointer_of-map_leaf :
      (field : QTreeLeafNode T → Option (ℕ × ℕ)) (f : QTreeLeafNode T → QTreeLeafNode T)
      (o : Option (QTreeLeafNode T)) (b : Bool)
      → ((l : QTreeLeafNode T) → field (f l) ≡ field l)
      → pointer_of field (if b then map_leaf f o else o) ≡ pointer_of field o
  pointer_of-map_leaf field f none true h = refl
  pointer_of-map_leaf field f none false h = refl
  pointer_of-map_leaf field f (some l) true h = h l
  pointer_of-map_leaf field f (some l) false h = refl

  -- A change that leaves the pointer alone.
  pub pointer_of-modify_leaf :
      (field : QTreeLeafNode T → Option (ℕ × ℕ)) (f : QTreeLeafNode T → QTreeLeafNode T)
      (m : QTreeNode T) (x y x' y' : ℕ)
      → IsRooted m
      → ((l : QTreeLeafNode T) → field (f l) ≡ field l)
      → pointer_of field (get_leaf (modify_leaf f m x y) x' y')
        ≡ pointer_of field (get_leaf m x' y')
  pointer_of-modify_leaf field f m x y x' y' r h =
      rw (get_leaf-modify_leaf f 13 m x y x' y' r.deep)
        (pointer_of-map_leaf field f (get_leaf m x' y') (same_leaf 13 x y x' y') h)

  pointer_of-set :
      (field : QTreeLeafNode T → Option (ℕ × ℕ)) (f : QTreeLeafNode T → QTreeLeafNode T) (p : ℕ × ℕ)
      (o : Option (QTreeLeafNode T)) (b : Bool)
      → ((l : QTreeLeafNode T) → field (f l) ≡ some p)
      → is_there o ≡ true
      → pointer_of field (if b then map_leaf f o else o)
        ≡ (if b then some p else pointer_of field o)
  pointer_of-set field f p none b h e = absurd (ground (arith, e))
  pointer_of-set field f p (some l) true h e = h l
  pointer_of-set field f p (some l) false h e = refl

  -- One that sets it.
  pub pointer_of-point :
      (field : QTreeLeafNode T → Option (ℕ × ℕ)) (f : QTreeLeafNode T → QTreeLeafNode T) (p : ℕ × ℕ)
      (m : QTreeNode T) (x y x' y' : ℕ)
      → IsRooted m
      → ((l : QTreeLeafNode T) → field (f l) ≡ some p)
      → is_there (get_leaf m x' y') ≡ true
      → pointer_of field (get_leaf (modify_leaf f m x y) x' y')
        ≡ (if same_square x y x' y' then some p else pointer_of field (get_leaf m x' y'))
  pointer_of-point field f p m x y x' y' r h e =
      rw (get_leaf-modify_leaf f 13 m x y x' y' r.deep, ← same_leaf-same_square x y x' y')
        (pointer_of-set field f p (get_leaf m x' y') (same_leaf 13 x y x' y') h e)

  pointer_of-or_new :
      (field : QTreeLeafNode T → Option (ℕ × ℕ)) (o : Option (QTreeLeafNode T)) (b : Bool)
      → field (or_new none) ≡ none
      → pointer_of field (if b then some (or_new o) else o) ≡ pointer_of field o
  pointer_of-or_new field none true h = h
  pointer_of-or_new field none false h = refl
  pointer_of-or_new field (some l) true h = refl
  pointer_of-or_new field (some l) false h = refl

  pub pointer_of-create_leaf :
      (field : QTreeLeafNode T → Option (ℕ × ℕ)) (m : QTreeNode T) (x y x' y' : ℕ)
      → IsRooted m
      → field (or_new none) ≡ none
      → pointer_of field (get_leaf (create_leaf 12 x y m).0 x' y')
        ≡ pointer_of field (get_leaf m x' y')
  pointer_of-create_leaf field m x y x' y' r h =
      rw (get_leaf-create_leaf 12 m x y x' y' r.deep r.there)
        (pointer_of-or_new field (get_leaf m x' y') (same_leaf 13 x y x' y') h)

  is_there-or_new :
      (o : Option (QTreeLeafNode T)) (b : Bool)
      → is_there (if b then some (or_new o) else o) ≡ (b || is_there o)
  is_there-or_new o true = refl
  is_there-or_new o false = refl

  pub is_there-create_leaf :
      (m : QTreeNode T) (x y x' y' : ℕ)
      → IsRooted m
      → is_there (get_leaf (create_leaf 12 x y m).0 x' y')
        ≡ (same_square x y x' y' || is_there (get_leaf m x' y'))
  is_there-create_leaf m x y x' y' r =
      rw (get_leaf-create_leaf 12 m x y x' y' r.deep r.there, ← same_leaf-same_square x y x' y')
        (is_there-or_new (get_leaf m x' y') (same_leaf 13 x y x' y'))
