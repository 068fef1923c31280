-- ===== src/Tiles/Made.antt =====
-- What the making of a leaf keeps of the tree, and when a leaf is new.
use asca_ci.Base.{
  ℕ, zero, suc, ◌≡◌, refl, ap, ◌∙◌, Bool, true, not, ◌&&◌, Bool-cases, inl, inr, arith,
}
use asca_ci.Tiles.Leaves.{IsDeep, is_inner, or_node-IsDeep, is_inner-or_node, get_leaf-or_node}
use asca_ci.Tiles.{
  QTreeLeafNode, QTreeNode, absent, leaf, inner, is_high, double, get_leaf, modify_leaf,
  create_leaf, same_bool, replace_child, or_leaf, or_node, is_there,
}

module _ {ℓ} {T : Type ℓ} where
  replace_child-IsDeep :
      (d : ℕ) (p q : Bool) (n : QTreeNode T) (child : Bool → Bool → QTreeNode T)
      → IsDeep d n
      → ((p' q' : Bool) → IsDeep d (child p' q'))
      → (p' q' : Bool) → IsDeep d (replace_child p q n child p' q')
  replace_child-IsDeep d p q n child h hs p' q' =
      elim (Bool-cases (same_bool p p' && same_bool q q')) [
        | inl same ↦ rw same h
        | inr apart ↦ rw apart (hs p' q')
      ]

  pub modify_leaf-IsDeep :
      (f : QTreeLeafNode T → QTreeLeafNode T) (d : ℕ) (n : QTreeNode T) (x y : ℕ)
      → IsDeep d n
      → IsDeep d (modify_leaf f n x y)
  unfolding modify_leaf
  modify_leaf-IsDeep f d absent x y h = tt
  modify_leaf-IsDeep f zero (leaf l) x y h = tt
  modify_leaf-IsDeep f zero (inner child) x y h = absurd h
  modify_leaf-IsDeep f (suc d) (leaf l) x y h = absurd h
  modify_leaf-IsDeep f (suc d) (inner child) x y h =
      let n = child (is_high x) (is_high y) in
      replace_child-IsDeep d (is_high x) (is_high y) (modify_leaf f n (double x) (double y)) child
        (modify_leaf-IsDeep f d n (double x) (double y) (h (is_high x) (is_high y))) h

  pub is_inner-modify_leaf :
      (f : QTreeLeafNode T → QTreeLeafNode T) (n : QTreeNode T) (x y : ℕ)
      → is_inner n ≡ true
      → is_inner (modify_leaf f n x y) ≡ true
  unfolding modify_leaf
  is_inner-modify_leaf f absent x y h = absurd (ground (arith, h))
  is_inner-modify_leaf f (leaf l) x y h = absurd (ground (arith, h))
  is_inner-modify_leaf f (inner child) x y h = refl

  or_leaf-IsDeep : (n : QTreeNode T) → IsDeep 0 n → IsDeep 0 (or_leaf n).0
  or_leaf-IsDeep absent h = tt
  or_leaf-IsDeep (leaf l) h = tt
  or_leaf-IsDeep (inner child) h = absurd h

  pub create_leaf-IsDeep :
      (d : ℕ) (n : QTreeNode T) (x y : ℕ)
      → IsDeep (suc d) n
      → IsDeep (suc d) (create_leaf d x y n).0
  unfolding create_leaf
  create_leaf-IsDeep d absent x y h = tt
  create_leaf-IsDeep d (leaf l) x y h = absurd h
  create_leaf-IsDeep zero (inner child) x y h =
      let n = child (is_high x) (is_high y) in
      replace_child-IsDeep 0 (is_high x) (is_high y) (or_leaf n).0 child
        (or_leaf-IsDeep n (h (is_high x) (is_high y))) h
  create_leaf-IsDeep (suc d) (inner child) x y h =
      let n = child (is_high x) (is_high y) in
      replace_child-IsDeep (suc d) (is_high x) (is_high y)
        (create_leaf d (double x) (double y) (or_node n)).0 child
        (create_leaf-IsDeep d (or_node n) (double x) (double y)
          (or_node-IsDeep d n (h (is_high x) (is_high y))))
        h

  pub is_inner-create_leaf :
      (d : ℕ) (n : QTreeNode T) (x y : ℕ)
      → is_inner n ≡ true
      → is_inner (create_leaf d x y n).0 ≡ true
  unfolding create_leaf
  is_inner-create_leaf d absent x y h = absurd (ground (arith, h))
  is_inner-create_leaf d (leaf l) x y h = absurd (ground (arith, h))
  is_inner-create_leaf zero (inner child) x y h = refl
  is_inner-create_leaf (suc d) (inner child) x y h = refl

  new-or_leaf :
      (n : QTreeNode T) (x y : ℕ) → IsDeep 0 n → (or_leaf n).1 ≡ not (is_there (get_leaf n x y))
  unfolding get_leaf
  new-or_leaf absent x y h = refl
  new-or_leaf (leaf l) x y h = refl
  new-or_leaf (inner child) x y h = absurd h

  -- A leaf is new where there was none.
  pub new-create_leaf :
      (d : ℕ) (n : QTreeNode T) (x y : ℕ)
      → IsDeep (suc d) n
      → is_inner n ≡ true
      → (create_leaf d x y n).1 ≡ not (is_there (get_leaf n x y))
  unfolding create_leaf get_leaf
  new-create_leaf d absent x y h i = absurd (ground (arith, i))
  new-create_leaf d (leaf l) x y h i = absurd (ground (arith, i))
  new-create_leaf zero (inner child) x y h i =
      new-or_leaf (child (is_high x) (is_high y)) (double x) (double y) (h (is_high x) (is_high y))
  new-create_leaf (suc d) (inner child) x y h i =
      let n = child (is_high x) (is_high y) in
      new-create_leaf d (or_node n) (double x) (double y)
        (or_node-IsDeep d n (h (is_high x) (is_high y)))
        (is_inner-or_node d n (h (is_high x) (is_high y)))
      ∙ ap (λ o. not (is_there o)) (get_leaf-or_node n (double x) (double y))
