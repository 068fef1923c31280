-- ===== src/Wildcard/Insert.antt =====
-- The tree as a set of names.
use asca_ci.Base.{
  ℕ, ◌≡◌, refl, ap, ◌∙◌, Bool, true, false, List, [], ◌∷◌, Option, none, some, ◌==◌, ◌||◌, ◌&&◌,
  Bool-cases, inl, inr, arith,
}
use asca_ci.Wildcard.{
  WildcardTreeNode, wildcard_node, Children, nil, child, get_child, set_breakpoint, add_child,
  insert, unchanged,
}

-- Whether a name is in the tree.
abbrev pub holds : (WildcardTreeNode → Bool) → Option WildcardTreeNode → Bool
holds p none = false
holds p (some n) = p n

abbrev pub contains : List ℕ → WildcardTreeNode → Bool
contains [] (wildcard_node b ks) = b
contains (c ∷ cs) (wildcard_node b ks) = holds (contains cs) (get_child c ks)

abbrev contains_child : List ℕ → Option WildcardTreeNode → Bool
contains_child cs g = holds (contains cs) g

abbrev pub same_name : List ℕ → List ℕ → Bool
same_name [] [] = true
same_name [] (c ∷ cs) = false
same_name (d ∷ ds) [] = false
same_name (d ∷ ds) (c ∷ cs) = d == c && same_name ds cs

-- The child of a character, or the node that is made in its place.
abbrev child_or : Bool → Option WildcardTreeNode → WildcardTreeNode
child_or b none = wildcard_node b nil
child_or b (some n) = set_breakpoint b n

get_child-add_child :
    (ch : ℕ) (b : Bool) (next : WildcardTreeNode → WildcardTreeNode) (ks : Children)
    → get_child ch (add_child ch b next ks) ≡ some (next (child_or b (get_child ch ks)))
unfolding get_child add_child
get_child-add_child ch b next nil = ground arith
get_child-add_child ch b next (child c n rest) = elim (Bool-cases (c == ch)) [
  | inl same ↦ rw (same, same) refl
  | inr other ↦ rw (other, other) (get_child-add_child ch b next rest)
]

get_child-add_other :
    (ch d : ℕ) (b : Bool) (next : WildcardTreeNode → WildcardTreeNode) (ks : Children)
    → (d == ch) ≡ false
    → get_child d (add_child ch b next ks) ≡ get_child d ks
unfolding get_child add_child
get_child-add_other ch d b next nil h =
    let flipped : (ch == d) ≡ false = ground (arith, h) in rw flipped refl
get_child-add_other ch d b next (child c n rest) h = elim (Bool-cases (c == ch)) [
  | inl same ↦ let apart : (c == d) ≡ false = ground (arith, same, h) in rw (same, apart) refl
  | inr other ↦ elim (Bool-cases (c == d)) [
    | inl here ↦ rw (other, here) refl
    | inr there ↦ rw (other, there) (get_child-add_other ch d b next rest h)
  ]
]

pub contains-none : (xs : List ℕ) → contains xs (wildcard_node false nil) ≡ false
unfolding get_child
contains-none [] = refl
contains-none (x ∷ xs) = refl

-- A new breakpoint adds the name that ends there.
contains-child_or-true :
    (xs : List ℕ) (g : Option WildcardTreeNode)
    → contains xs (child_or true g) ≡ (same_name xs [] || contains_child xs g)
unfolding get_child
contains-child_or-true [] none = refl
contains-child_or-true [] (some (wildcard_node b ks)) = refl
contains-child_or-true (x ∷ xs) none = refl
contains-child_or-true (x ∷ xs) (some (wildcard_node b ks)) = refl

contains-child_or-false :
    (xs : List ℕ) (g : Option WildcardTreeNode)
    → contains xs (child_or false g) ≡ contains_child xs g
contains-child_or-false xs none = contains-none xs
contains-child_or-false xs (some n) = refl

-- After a name is inserted the tree holds this name and those it held before, and no other.
pub contains-insert :
    (s : List ℕ) (c : ℕ) (cs : List ℕ) (t : WildcardTreeNode)
    → contains s (insert c cs t) ≡ (same_name s (c ∷ cs) || contains s t)
unfolding insert
contains-insert [] c [] (wildcard_node b ks) = refl
contains-insert [] c (d ∷ ds) (wildcard_node b ks) = refl
contains-insert (x ∷ xs) c [] (wildcard_node b ks) = elim (Bool-cases (x == c)) [
  | inl same ↦
      let e : x ≡ c = ground (arith, same) in
      rw (same, e, get_child-add_child c true unchanged ks)
        (contains-child_or-true xs (get_child c ks))
  | inr other ↦ rw (other, get_child-add_other c x true unchanged ks other) refl
]
contains-insert (x ∷ xs) c (d ∷ ds) (wildcard_node b ks) = elim (Bool-cases (x == c)) [
  | inl same ↦
      let e : x ≡ c = ground (arith, same) in
      rw (same, e, get_child-add_child c false (insert d ds) ks)
        (contains-insert xs d ds (child_or false (get_child c ks))
          ∙ ap (λ h. same_name xs (d ∷ ds) || h) (contains-child_or-false xs (get_child c ks)))
  | inr other ↦ rw (other, get_child-add_other c x false (insert d ds) ks other) refl
]
