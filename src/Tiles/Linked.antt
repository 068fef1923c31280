-- ===== src/Tiles/Linked.antt =====
-- A new leaf is linked with those around it.
use asca_ci.Base.{
  ℕ, ◌<◌, ◌≡◌, refl, sym, ap, ◌∙◌, Bool, true, false, ◌||◌, Option, none, some, if◌then◌else◌,
  arith,
}
use asca_ci.Tiles.Leaves.{or_new}
use asca_ci.Tiles.Kept.{IsRooted, create_leaf-IsRooted, link}
use asca_ci.Tiles.Links.{
  pointer_of, pointer_of-create_leaf, is_there-create_leaf, get_leaf-same_square, square-eq,
}
use asca_ci.Tiles.Neighbors.{pointer-cases, neighbor, is_there-link, leaf_s-link, leaf_e-link}
use asca_ci.Tiles.Squares.{same_square}
use asca_ci.Tiles.{
  QTreeLeafNode, QTreeNode, get_leaf, create_leaf, is_there, square, after_square, before_square,
}
use asca_ci.Tiles.Around.{south_near, south_far, south_turned, east_near, east_far, east_turned}

or_left : (p q : Bool) → p ≡ false → (p || q) ≡ true → q ≡ true
or_left p q h e = ground (arith, h, e)

module _ {ℓ} {T : Type ℓ} where
  -- The pointers lead to the next leaf to the south and to the east, where there is one.
  pub record IsWoven (m : QTreeNode T) : Type 0 where
    pub south :
        (x y : ℕ)
        → x < 0x1_0000
        → y < 0x1_0000
        → is_there (get_leaf m x y) ≡ true
        → pointer_of (λ l. l.leaf_s) (get_leaf m x y) ≡ neighbor m x (after_square y)
    pub east :
        (x y : ℕ)
        → x < 0x1_0000
        → y < 0x1_0000
        → is_there (get_leaf m x y) ≡ true
        → pointer_of (λ l. l.leaf_e) (get_leaf m x y) ≡ neighbor m (after_square x) y

  pointer_of-absent :
      (field : QTreeLeafNode T → Option (ℕ × ℕ)) (o : Option (QTreeLeafNode T))
      → is_there o ≡ false
      → pointer_of field o ≡ none
  pointer_of-absent field none e = refl
  pointer_of-absent field (some l) e = absurd (ground (arith, e))

  -- Where the leaf of a position is not there, no leaf of its square is.
  absent-same_square :
      (m : QTreeNode T) (x y x' y' : ℕ)
      → IsRooted m
      → same_square x y x' y' ≡ true
      → is_there (get_leaf m x y) ≡ false
      → is_there (get_leaf m x' y') ≡ false
  absent-same_square m x y x' y' r same e =
      ap is_there (sym (get_leaf-same_square m x y x' y' r same)) ∙ e

  module _ (m : QTreeNode T) (x y : ℕ) (r : IsRooted m) (hx : x < 0x1_0000)
      (hy : y < 0x1_0000) where
    abbrev made : QTreeNode T
    made = (create_leaf 12 x y m).0

    -- The leaf ahead, seen from the new leaf and from a position in its square.
    ahead-made :
        (a b a' b' : ℕ)
        → same_square a b a' b' ≡ true
        → (same_square x y a' b' || is_there (get_leaf m a' b')) ≡ is_there (get_leaf made a b)
    ahead-made a b a' b' same =
        sym (is_there-create_leaf m x y a' b' r)
        ∙ ap is_there
            (sym (get_leaf-same_square made a b a' b' (create_leaf-IsRooted m x y r) same))

    -- One pointer of a leaf, where `b` is before the new leaf, `a` after it, and `a'` after the
    -- leaf that is looked at.
    neighbor-link :
        (field : QTreeLeafNode T → Option (ℕ × ℕ)) (b_x b_y a_x a_y a_x' a_y' x' y' : ℕ)
        → field (or_new none) ≡ none
        → is_there (get_leaf m x y) ≡ false
        → is_there (get_leaf made x' y') ≡ true
        → (same_square x y x' y' ≡ true → same_square a_x a_y a_x' a_y' ≡ true)
        → (same_square x y x' y' ≡ true → same_square b_x b_y x' y' ≡ false)
        → same_square b_x b_y x' y' ≡ same_square x y a_x' a_y'
        → (is_there (get_leaf m x' y') ≡ true
            → pointer_of field (get_leaf m x' y') ≡ neighbor m a_x' a_y')
        → (if is_there (get_leaf made a_x a_y)
            then if same_square x y x' y'
              then some (square a_x a_y)
              else if same_square b_x b_y x' y'
              then some (square x y)
              else pointer_of field (get_leaf made x' y')
            else if same_square b_x b_y x' y'
            then some (square x y)
            else pointer_of field (get_leaf made x' y'))
          ≡ neighbor (link x y made) a_x' a_y'
    neighbor-link field b_x b_y a_x a_y a_x' a_y' x' y' empty fresh there near far turned old =
        let old_there : same_square x y x' y' ≡ false → is_there (get_leaf m x' y') ≡ true =
          λ apart.
            let e : (same_square x y x' y' || is_there (get_leaf m x' y')) ≡ true =
              sym (is_there-create_leaf m x y x' y' r) ∙ there in
            or_left (same_square x y x' y') (is_there (get_leaf m x' y')) apart e in
        rw
          (
            pointer_of-create_leaf field m x y x' y' r empty,
            is_there-link made x y (create_leaf-IsRooted m x y r) a_x' a_y',
            is_there-create_leaf m x y a_x' a_y' r,
          )
          (pointer-cases (same_square x y x' y') (same_square b_x b_y x' y')
            (same_square x y a_x' a_y') (is_there (get_leaf made a_x a_y))
            (is_there (get_leaf m a_x' a_y')) (square a_x a_y) (square x y) (square a_x' a_y')
            (pointer_of field (get_leaf m x' y'))
            (λ new. (
              far new,
              ahead-made a_x a_y a_x' a_y' (near new),
              square-eq a_x a_y a_x' a_y' (near new),
              pointer_of-absent field (get_leaf m x' y')
                  (absent-same_square m x y x' y' r new fresh),
            ))
            turned (λ before. square-eq x y a_x' a_y' (sym turned ∙ before))
            (λ apart. old (old_there apart)))

    pub link-IsWoven : IsWoven m → is_there (get_leaf m x y) ≡ false → IsWoven (link x y made)
    link-IsWoven w fresh = record {
      south = λ x' y' hx' hy' e.
          let r' = create_leaf-IsRooted m x y r in
          let there : is_there (get_leaf made x' y') ≡ true =
            sym (is_there-link made x y r' x' y') ∙ e in
          leaf_s-link made x y r' x' y' there
          ∙ neighbor-link (λ l. l.leaf_s) x (before_square y) x (after_square y) x'
              (after_square y') x' y' refl fresh there (λ same. south_near x y x' y' hy hy' same)
              (λ same. south_far x y x' y' hy same) (south_turned x y x' y' hy hy')
              (λ old. w.south x' y' hx' hy' old);
      east = λ x' y' hx' hy' e.
          let r' = create_leaf-IsRooted m x y r in
          let there : is_there (get_leaf made x' y') ≡ true =
            sym (is_there-link made x y r' x' y') ∙ e in
          leaf_e-link made x y r' x' y' there
          ∙ neighbor-link (λ l. l.leaf_e) (before_square x) y (after_square x) y (after_square x')
              y' x' y' refl fresh there (λ same. east_near x y x' y' hx hx' same)
              (λ same. east_far x y x' y' hx same) (east_turned x y x' y' hx hx')
              (λ old. w.east x' y' hx' hy' old);
    }
