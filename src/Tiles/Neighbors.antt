-- ===== src/Tiles/Neighbors.antt =====
-- The pointers of the leaves after a leaf is made and linked.
use asca_ci.Base.{ℕ, ◌≡◌, refl, ap, ◌∙◌, Bool, true, false, ◌||◌, Option, none, some, if◌then◌else◌}
use asca_ci.Tiles.Kept.{IsRooted, link, link_north-Keeps, link_west-Keeps, link_south-Keeps}
use asca_ci.Tiles.Links.{pointer_of, is_there-modify_leaf, pointer_of-modify_leaf, pointer_of-point}
use asca_ci.Tiles.Squares.{same_square}
use asca_ci.Tiles.{
  QTreeLeafNode, QTreeNode, get_leaf, modify_leaf, is_there, square, after_square, before_square,
  point_s, point_e, link_north, link_west, link_south, link_east,
}

-- A pointer that is set from the leaf before the new one, or at the new one.
pub pointer-cases {ℓ} :
    {A : Type ℓ} (new before ahead there there_old : Bool) (p q r : A) (s : Option A)
    → (new ≡ true → (before ≡ false) × ((ahead || there_old) ≡ there) × (p ≡ r) × (s ≡ none))
    → before ≡ ahead
    → (before ≡ true → q ≡ r)
    → (new ≡ false → s ≡ (if there_old then some r else none))
    → (if there
        then if new then some p else if before then some q else s
        else if before
        then some q
        else s)
      ≡ (if ahead || there_old then some r else none)
pointer-cases true before ahead there there_old p q r s h e same old =
    let (b, t, pr, nothing) = h refl in rw (b, nothing, t, pr) refl
pointer-cases false true ahead true there_old p q r s h e same old = rw (same refl, ← e) refl
pointer-cases false true ahead false there_old p q r s h e same old = rw (same refl, ← e) refl
pointer-cases false false ahead true there_old p q r s h e same old = rw (← e) (old refl)
pointer-cases false false ahead false there_old p q r s h e same old = rw (← e) (old refl)

module _ {ℓ} {T : Type ℓ} where
  -- The pointer to a place, if there is a leaf.
  abbrev pub neighbor : QTreeNode T → ℕ → ℕ → Option (ℕ × ℕ)
  neighbor m x y = if is_there (get_leaf m x y) then some (square x y) else none

  pub is_there-if :
      (b : Bool) (f : QTreeLeafNode T → QTreeLeafNode T) (m : QTreeNode T) (x y x' y' : ℕ)
      → IsRooted m
      → is_there (get_leaf (if b then modify_leaf f m x y else m) x' y')
        ≡ is_there (get_leaf m x' y')
  is_there-if true f m x y x' y' r = is_there-modify_leaf f m x y x' y' r
  is_there-if false f m x y x' y' r = refl

  pointer_of-if :
      (field : QTreeLeafNode T → Option (ℕ × ℕ)) (b : Bool) (f : QTreeLeafNode T → QTreeLeafNode T)
      (m : QTreeNode T) (x y x' y' : ℕ)
      → IsRooted m
      → ((l : QTreeLeafNode T) → field (f l) ≡ field l)
      → pointer_of field (get_leaf (if b then modify_leaf f m x y else m) x' y')
        ≡ pointer_of field (get_leaf m x' y')
  pointer_of-if field true f m x y x' y' r h = pointer_of-modify_leaf field f m x y x' y' r h
  pointer_of-if field false f m x y x' y' r h = refl

  pointer_of-point_if :
      (field : QTreeLeafNode T → Option (ℕ × ℕ)) (b : Bool) (f : QTreeLeafNode T → QTreeLeafNode T)
      (p : ℕ × ℕ) (m : QTreeNode T) (x y x' y' : ℕ)
      → IsRooted m
      → ((l : QTreeLeafNode T) → field (f l) ≡ some p)
      → is_there (get_leaf m x' y') ≡ true
      → pointer_of field (get_leaf (if b then modify_leaf f m x y else m) x' y') ≡ (
          if b
          then if same_square x y x' y' then some p else pointer_of field (get_leaf m x' y')
          else pointer_of field (get_leaf m x' y'))
  pointer_of-point_if field true f p m x y x' y' r h e =
      pointer_of-point field f p m x y x' y' r h e
  pointer_of-point_if field false f p m x y x' y' r h e = refl

-- A leaf is linked, of which the tree `m` is already made.
module _ {ℓ} {T : Type ℓ} (m : QTreeNode T) (x y : ℕ) (r : IsRooted m) where
  abbrev m1 : QTreeNode T
  m1 = link_north x y m

  abbrev m2 : QTreeNode T
  m2 = link_west x y m1

  abbrev m3 : QTreeNode T
  m3 = link_south x y m2

  rooted1 : IsRooted m1
  rooted1 = (link_north-Keeps x y m r).rooted

  rooted2 : IsRooted m2
  rooted2 = (link_west-Keeps x y m1 rooted1).rooted

  rooted3 : IsRooted m3
  rooted3 = (link_south-Keeps x y m2 rooted2).rooted

  there1 : (x' y' : ℕ) → is_there (get_leaf m1 x' y') ≡ is_there (get_leaf m x' y')
  unfolding link_north
  there1 x' y' = is_there-modify_leaf (point_s (square x y)) m x (before_square y) x' y' r

  there2 : (x' y' : ℕ) → is_there (get_leaf m2 x' y') ≡ is_there (get_leaf m x' y')
  unfolding link_west
  there2 x' y' =
      is_there-modify_leaf (point_e (square x y)) m1 (before_square x) y x' y' rooted1
      ∙ there1 x' y'

  there3 : (x' y' : ℕ) → is_there (get_leaf m3 x' y') ≡ is_there (get_leaf m x' y')
  unfolding link_south
  there3 x' y' =
      is_there-if (is_there (get_leaf m2 x (after_square y))) (point_s (square x (after_square y)))
        m2 x y x' y' rooted2
      ∙ there2 x' y'

  pub is_there-link :
      (x' y' : ℕ) → is_there (get_leaf (link x y m) x' y') ≡ is_there (get_leaf m x' y')
  unfolding link_east
  is_there-link x' y' =
      is_there-if (is_there (get_leaf m3 (after_square x) y)) (point_e (square (after_square x) y))
        m3 x y x' y' rooted3
      ∙ there3 x' y'

  south1 :
      (x' y' : ℕ)
      → is_there (get_leaf m x' y') ≡ true
      → pointer_of (λ l. l.leaf_s) (get_leaf m2 x' y') ≡ (
          if same_square x (before_square y) x' y'
          then some (square x y)
          else pointer_of (λ l. l.leaf_s) (get_leaf m x' y'))
  unfolding link_north link_west
  south1 x' y' e =
      pointer_of-modify_leaf (λ l. l.leaf_s) (point_e (square x y)) m1 (before_square x) y x' y'
        rooted1 (λ l. refl)
      ∙ pointer_of-point (λ l. l.leaf_s) (point_s (square x y)) (square x y) m x (before_square y)
          x' y' r (λ l. refl) e

  -- The southern pointers.
  pub leaf_s-link :
      (x' y' : ℕ)
      → is_there (get_leaf m x' y') ≡ true
      → pointer_of (λ l. l.leaf_s) (get_leaf (link x y m) x' y') ≡ (
          if is_there (get_leaf m x (after_square y))
          then if same_square x y x' y'
            then some (square x (after_square y))
            else if same_square x (before_square y) x' y'
            then some (square x y)
            else pointer_of (λ l. l.leaf_s) (get_leaf m x' y')
          else if same_square x (before_square y) x' y'
          then some (square x y)
          else pointer_of (λ l. l.leaf_s) (get_leaf m x' y'))
  unfolding link_east link_south
  leaf_s-link x' y' e =
      pointer_of-if (λ l. l.leaf_s) (is_there (get_leaf m3 (after_square x) y))
        (point_e (square (after_square x) y)) m3 x y x' y' rooted3 (λ l. refl)
      ∙ pointer_of-point_if (λ l. l.leaf_s) (is_there (get_leaf m2 x (after_square y)))
          (point_s (square x (after_square y))) (square x (after_square y)) m2 x y x' y' rooted2
          (λ l. refl) (there2 x' y' ∙ e)
      ∙ rw (there2 x (after_square y), south1 x' y' e) refl

  east1 :
      (x' y' : ℕ)
      → is_there (get_leaf m x' y') ≡ true
      → pointer_of (λ l. l.leaf_e) (get_leaf m3 x' y') ≡ (
          if same_square (before_square x) y x' y'
          then some (square x y)
          else pointer_of (λ l. l.leaf_e) (get_leaf m x' y'))
  unfolding link_north link_west link_south
  east1 x' y' e =
      pointer_of-if (λ l. l.leaf_e) (is_there (get_leaf m2 x (after_square y)))
        (point_s (square x (after_square y))) m2 x y x' y' rooted2 (λ l. refl)
      ∙ pointer_of-point (λ l. l.leaf_e) (point_e (square x y)) (square x y) m1 (before_square x) y
          x' y' rooted1 (λ l. refl) (there1 x' y' ∙ e)
      ∙ ap (λ o. if same_square (before_square x) y x' y' then some (square x y) else o)
          (pointer_of-modify_leaf (λ l. l.leaf_e) (point_s (square x y)) m x (before_square y) x' y'
            r (λ l. refl))

  -- The eastern pointers.
  pub leaf_e-link :
      (x' y' : ℕ)
      → is_there (get_leaf m x' y') ≡ true
      → pointer_of (λ l. l.leaf_e) (get_leaf (link x y m) x' y') ≡ (
          if is_there (get_leaf m (after_square x) y)
          then if same_square x y x' y'
            then some (square (after_square x) y)
            else if same_square (before_square x) y x' y'
            then some (square x y)
            else pointer_of (λ l. l.leaf_e) (get_leaf m x' y')
          else if same_square (before_square x) y x' y'
          then some (square x y)
          else pointer_of (λ l. l.leaf_e) (get_leaf m x' y'))
  unfolding link_east
  leaf_e-link x' y' e =
      pointer_of-point_if (λ l. l.leaf_e) (is_there (get_leaf m3 (after_square x) y))
        (point_e (square (after_square x) y)) (square (after_square x) y) m3 x y x' y' rooted3
        (λ l. refl) (there3 x' y' ∙ e)
      ∙ rw (there3 (after_square x) y, east1 x' y' e) refl
