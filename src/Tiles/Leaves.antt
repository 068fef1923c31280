-- ===== src/Tiles/Leaves.antt =====
-- The leaf at a position after a change of a leaf.
use asca_ci.Base.{
  ℕ, zero, suc, ◌≡◌, refl, ap, ◌∙◌, Bool, true, false, ◌&&◌, Option, none, some, if◌then◌else◌,
  Bool-cases, inl, inr, subst, arith,
}
use asca_ci.Tiles.{
  QTreeLeafNode, QTreeNode, absent, leaf, inner, is_high, double, get_leaf, modify_leaf,
  create_leaf, same_bool, replace_child, or_leaf, or_node, new_leaf,
}

-- The leaves lie at one depth.
abbrev pub IsDeep {ℓ} : {T : Type ℓ} → ℕ → QTreeNode T → Type 0
IsDeep d absent = Unit
IsDeep zero (leaf l) = Unit
IsDeep zero (inner child) = ⊥
IsDeep (suc d) (leaf l) = ⊥
IsDeep (suc d) (inner child) = (p q : Bool) → IsDeep d (child p q)

-- Two positions lead to one leaf at a depth.
unfoldable pub same_leaf : ℕ → ℕ → ℕ → ℕ → ℕ → Bool
same_leaf zero x y x' y' = true
same_leaf (suc d) x y x' y' =
    let rest = same_leaf d (double x) (double y) (double x') (double y') in
    (same_bool (is_high x) (is_high x') && same_bool (is_high y) (is_high y')) && rest

same_bool-eq : (p q : Bool) → same_bool p q ≡ true → p ≡ q
same_bool-eq true true e = refl
same_bool-eq true false e = ground (arith, e)
same_bool-eq false true e = ground (arith, e)
same_bool-eq false false e = refl

-- A choice by two tests, of which the second is left to one branch.
choose {ℓ} :
    {A : Type ℓ} (s r : Bool) (a b c : A)
    → (s ≡ true → a ≡ (if r then c else b))
    → (if s then a else b) ≡ (if s && r then c else b)
choose true r a b c h = h refl
choose false r a b c h = refl

abbrev pub map_leaf {ℓ} :
    {T : Type ℓ}
    → (QTreeLeafNode T → QTreeLeafNode T)
    → Option (QTreeLeafNode T)
    → Option (QTreeLeafNode T)
map_leaf f none = none
map_leaf f (some l) = some (f l)

abbrev pub same_child : ℕ → ℕ → ℕ → ℕ → Bool
same_child x y x' y' = same_bool (is_high x) (is_high x') && same_bool (is_high y) (is_high y')

pub both : (p q : Bool) → (p && q) ≡ true → (p ≡ true) × (q ≡ true)
both true q e = (refl, e)
both false q e = absurd (ground (arith, e))

module _ {ℓ} {T : Type ℓ} where
  pub child-same_child :
      (child : Bool → Bool → QTreeNode T) (x y x' y' : ℕ)
      → same_child x y x' y' ≡ true
      → child (is_high x) (is_high y) ≡ child (is_high x') (is_high y')
  child-same_child child x y x' y' e =
      let (same_x, same_y) =
        both (same_bool (is_high x) (is_high x')) (same_bool (is_high y) (is_high y')) e in
      ap (λ p. child p (is_high y)) (same_bool-eq (is_high x) (is_high x') same_x)
      ∙ ap (child (is_high x')) (same_bool-eq (is_high y) (is_high y') same_y)

  -- Reading below a child that was set.
  get_leaf-replace_child :
      (n : QTreeNode T) (child : Bool → Bool → QTreeNode T) (p q p' q' : Bool) (x y : ℕ)
      → get_leaf (replace_child p q n child p' q') x y
        ≡ (if same_bool p p' && same_bool q q' then get_leaf n x y else get_leaf (child p' q') x y)
  get_leaf-replace_child n child p q p' q' x y =
      elim (Bool-cases (same_bool p p' && same_bool q q')) [
        | inl same ↦ rw same refl
        | inr apart ↦ rw apart refl
      ]

  pub get_leaf-modify_leaf :
      (f : QTreeLeafNode T → QTreeLeafNode T) (d : ℕ) (n : QTreeNode T) (x y x' y' : ℕ)
      → IsDeep d n
      → get_leaf (modify_leaf f n x y) x' y'
        ≡ (if same_leaf d x y x' y' then map_leaf f (get_leaf n x' y') else get_leaf n x' y')
  unfolding get_leaf modify_leaf same_leaf
  get_leaf-modify_leaf f d absent x y x' y' h = elim (Bool-cases (same_leaf d x y x' y')) [
    | inl same ↦ rw same refl
    | inr apart ↦ rw apart refl
  ]
  get_leaf-modify_leaf f zero (leaf l) x y x' y' h = refl
  get_leaf-modify_leaf f zero (inner child) x y x' y' h = absurd h
  get_leaf-modify_leaf f (suc d) (leaf l) x y x' y' h = absurd h
  get_leaf-modify_leaf f (suc d) (inner child) x y x' y' h =
      let n = child (is_high x) (is_high y) in
      let n' = child (is_high x') (is_high y') in
      let old = get_leaf n' (double x') (double y') in
      let rest = same_leaf d (double x) (double y) (double x') (double y') in
      let changed = modify_leaf f n (double x) (double y) in
      get_leaf-replace_child changed child (is_high x) (is_high y) (is_high x') (is_high y')
        (double x') (double y')
      ∙ choose (same_child x y x' y') rest (get_leaf changed (double x') (double y')) old
          (map_leaf f old)
          (λ same.
            subst
              (λ m. get_leaf changed (double x') (double y') ≡ (
                if rest
                then map_leaf f (get_leaf m (double x') (double y'))
                else get_leaf m (double x') (double y')))
              (child-same_child child x y x' y' same)
              (get_leaf-modify_leaf f d n (double x) (double y) (double x') (double y')
                (h (is_high x) (is_high y))))

  abbrev pub or_new : Option (QTreeLeafNode T) → QTreeLeafNode T
  or_new none = new_leaf
  or_new (some l) = l

  get_leaf-or_leaf :
      (n : QTreeNode T) (x y : ℕ)
      → IsDeep 0 n
      → get_leaf (or_leaf n).0 x y ≡ some (or_new (get_leaf n x y))
  unfolding get_leaf
  get_leaf-or_leaf absent x y h = refl
  get_leaf-or_leaf (leaf l) x y h = refl
  get_leaf-or_leaf (inner child) x y h = absurd h

  pub get_leaf-or_node : (n : QTreeNode T) (x y : ℕ) → get_leaf (or_node n) x y ≡ get_leaf n x y
  unfolding get_leaf
  get_leaf-or_node absent x y = refl
  get_leaf-or_node (leaf l) x y = refl
  get_leaf-or_node (inner child) x y = refl

  pub or_node-IsDeep : (d : ℕ) (n : QTreeNode T) → IsDeep (suc d) n → IsDeep (suc d) (or_node n)
  or_node-IsDeep d absent h = λ p q. tt
  or_node-IsDeep d (leaf l) h = absurd h
  or_node-IsDeep d (inner child) h = h

  -- A node that is there.
  abbrev pub is_inner : QTreeNode T → Bool
  is_inner absent = false
  is_inner (leaf l) = false
  is_inner (inner child) = true

  pub is_inner-or_node : (d : ℕ) (n : QTreeNode T) → IsDeep (suc d) n → is_inner (or_node n) ≡ true
  is_inner-or_node d absent h = refl
  is_inner-or_node d (leaf l) h = absurd h
  is_inner-or_node d (inner child) h = refl

  -- The leaf of the position is there, and the others are as they were.
  pub get_leaf-create_leaf :
      (d : ℕ) (n : QTreeNode T) (x y x' y' : ℕ)
      → IsDeep (suc d) n
      → is_inner n ≡ true
      → get_leaf (create_leaf d x y n).0 x' y' ≡ (
          if same_leaf (suc d) x y x' y'
          then some (or_new (get_leaf n x' y'))
          else get_leaf n x' y')
  unfolding get_leaf create_leaf same_leaf
  get_leaf-create_leaf d absent x y x' y' h i = absurd (ground (arith, i))
  get_leaf-create_leaf d (leaf l) x y x' y' h i = absurd (ground (arith, i))
  get_leaf-create_leaf zero (inner child) x y x' y' h i =
      let n = child (is_high x) (is_high y) in
      let n' = child (is_high x') (is_high y') in
      let old = get_leaf n' (double x') (double y') in
      let made = (or_leaf n).0 in
      get_leaf-replace_child made child (is_high x) (is_high y) (is_high x') (is_high y')
        (double x') (double y')
      ∙ choose (same_child x y x' y') true (get_leaf made (double x') (double y')) old
          (some (or_new old))
          (λ same.
            get_leaf-or_leaf n (double x') (double y') (h (is_high x) (is_high y))
            ∙ ap (λ m. some (or_new (get_leaf m (double x') (double y'))))
                (child-same_child child x y x' y' same))
  get_leaf-create_leaf (suc d) (inner child) x y x' y' h i =
      let n = child (is_high x) (is_high y) in
      let n' = child (is_high x') (is_high y') in
      let old = get_leaf n' (double x') (double y') in
      let rest = same_leaf (suc d) (double x) (double y) (double x') (double y') in
      let made = (create_leaf d (double x) (double y) (or_node n)).0 in
      get_leaf-replace_child made child (is_high x) (is_high y) (is_high x') (is_high y')
        (double x') (double y')
      ∙ choose (same_child x y x' y') rest (get_leaf made (double x') (double y')) old
          (some (or_new old))
          (λ same.
            subst
              (λ o. get_leaf made (double x') (double y') ≡ (if rest then some (or_new o) else o))
              (get_leaf-or_node n (double x') (double y')
                ∙ ap (λ m. get_leaf m (double x') (double y'))
                    (child-same_child child x y x' y' same))
              (get_leaf-create_leaf d (or_node n) (double x) (double y) (double x') (double y')
                (or_node-IsDeep d n (h (is_high x) (is_high y)))
                (is_inner-or_node d n (h (is_high x) (is_high y)))))
