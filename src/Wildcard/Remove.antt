-- ===== src/Wildcard/Remove.antt =====
-- The removal of a name from the tree.
use asca_ci.Base.{
  ℕ, ◌≡◌, refl, ap, ◌∙◌, Bool, true, false, List, [], ◌∷◌, none, some, ◌==◌, ◌&&◌, not, sym,
  Bool-cases, Option-cases, inl, inr, arith,
}
use asca_ci.Wildcard.Insert.{contains, contains-none, holds, same_name}
use asca_ci.Wildcard.{
  WildcardTreeNode, wildcard_node, Children, nil, child, get_child, erase_child, set_child, Removal,
  missing, kept, emptied, prune, go_up, go_down, at_root, remove_below, remove_name,
}

get_child-erase_child : (ch : ℕ) (ks : Children) → get_child ch (erase_child ch ks) ≡ none
unfolding get_child erase_child
get_child-erase_child ch nil = refl
get_child-erase_child ch (child c n rest) = elim (Bool-cases (c == ch)) [
  | inl same ↦ rw same (get_child-erase_child ch rest)
  | inr other ↦ rw (other, other) (get_child-erase_child ch rest)
]

get_child-erase_other :
    (ch d : ℕ) (ks : Children)
    → (d == ch) ≡ false
    → get_child d (erase_child ch ks) ≡ get_child d ks
unfolding get_child erase_child
get_child-erase_other ch d nil h = refl
get_child-erase_other ch d (child c n rest) h = elim (Bool-cases (c == ch)) [
  | inl same ↦
      let apart : (c == d) ≡ false = ground (arith, same, h) in
      rw (same, apart) (get_child-erase_other ch d rest h)
  | inr other ↦ elim (Bool-cases (c == d)) [
    | inl here ↦ rw (other, here) refl
    | inr there ↦ rw (other, there) (get_child-erase_other ch d rest h)
  ]
]

get_child-set_child :
    (ch : ℕ) (m n : WildcardTreeNode) (ks : Children)
    → get_child ch ks ≡ some n
    → get_child ch (set_child ch m ks) ≡ some m
unfolding get_child set_child
get_child-set_child ch m n nil e = absurd (ground (arith, e))
get_child-set_child ch m n (child c k rest) e = elim (Bool-cases (c == ch)) [
  | inl same ↦ rw (same, same) refl
  | inr other ↦ rw (other, other) (get_child-set_child ch m n rest (rw other at e))
]

get_child-set_other :
    (ch d : ℕ) (m : WildcardTreeNode) (ks : Children)
    → (d == ch) ≡ false
    → get_child d (set_child ch m ks) ≡ get_child d ks
unfolding get_child set_child
get_child-set_other ch d m nil h = refl
get_child-set_other ch d m (child c n rest) h = elim (Bool-cases (c == ch)) [
  | inl same ↦
      let apart : (c == d) ≡ false = ground (arith, same, h) in
      rw (same, apart) (get_child-set_other ch d m rest h)
  | inr other ↦ elim (Bool-cases (c == d)) [
    | inl here ↦ rw (other, here) refl
    | inr there ↦ rw (other, there) (get_child-set_other ch d m rest h)
  ]
]

-- A node that is erased held no name.
contains-prune :
    (s : List ℕ) (t x : WildcardTreeNode) → contains s (at_root t (prune x)) ≡ contains s x
contains-prune s t (wildcard_node false nil) = refl
contains-prune s t (wildcard_node true nil) = refl
contains-prune s t (wildcard_node false (child c n rest)) = refl
contains-prune s t (wildcard_node true (child c n rest)) = refl

module _ (b : Bool) (ks : Children) (c : ℕ) where
  contains-go_up-nil :
      (r : Removal) → contains [] (at_root (wildcard_node b ks) (go_up b ks c r)) ≡ b
  contains-go_up-nil missing = refl
  contains-go_up-nil (kept n) = refl
  contains-go_up-nil emptied =
      contains-prune [] (wildcard_node b ks) (wildcard_node b (erase_child c ks))

  contains-go_up :
      (xs : List ℕ) (n : WildcardTreeNode) (r : Removal)
      → get_child c ks ≡ some n
      → contains (c ∷ xs) (at_root (wildcard_node b ks) (go_up b ks c r))
        ≡ contains xs (at_root n r)
  contains-go_up xs n missing e = rw e refl
  contains-go_up xs n (kept m) e = rw (get_child-set_child c m n ks e) refl
  contains-go_up xs n emptied e =
      contains-prune (c ∷ xs) (wildcard_node b ks) (wildcard_node b (erase_child c ks))
      ∙ ap (holds (contains xs)) (get_child-erase_child c ks)
      ∙ sym (contains-none xs)

  contains-go_up_other :
      (x : ℕ) (xs : List ℕ) (r : Removal)
      → (x == c) ≡ false
      → contains (x ∷ xs) (at_root (wildcard_node b ks) (go_up b ks c r))
        ≡ holds (contains xs) (get_child x ks)
  contains-go_up_other x xs missing h = refl
  contains-go_up_other x xs (kept m) h = ap (holds (contains xs)) (get_child-set_other c x m ks h)
  contains-go_up_other x xs emptied h =
      contains-prune (x ∷ xs) (wildcard_node b ks) (wildcard_node b (erase_child c ks))
      ∙ ap (holds (contains xs)) (get_child-erase_other c x ks h)

and_false : (b : Bool) → (b && false) ≡ false
and_false true = refl
and_false false = refl

contains-remove_below :
    (s str : List ℕ) (t : WildcardTreeNode)
    → contains s (at_root t (remove_below str t)) ≡ (not (same_name s str) && contains s t)
unfolding remove_below
contains-remove_below [] [] (wildcard_node b ks) =
    contains-prune [] (wildcard_node b ks) (wildcard_node false ks)
contains-remove_below (x ∷ xs) [] (wildcard_node b ks) =
    contains-prune (x ∷ xs) (wildcard_node b ks) (wildcard_node false ks)
contains-remove_below [] (c ∷ cs) (wildcard_node b ks) =
    contains-go_up-nil b ks c (go_down (remove_below cs) (get_child c ks))
contains-remove_below (x ∷ xs) (c ∷ cs) (wildcard_node b ks) = elim (Bool-cases (x == c)) [
  | inr other ↦
      rw other (contains-go_up_other b ks c x xs (go_down (remove_below cs) (get_child c ks)) other)
  | inl same ↦
      let e : x ≡ c = ground (arith, same) in
      elim (Option-cases (get_child c ks)) [
        | inl none_there ↦
            rw (same, e, none_there)
              (ap (holds (contains xs)) none_there ∙ sym (and_false (not (same_name xs cs))))
        | inr (n, there) ↦
            rw (same, e, there)
              (contains-go_up b ks c xs n (remove_below cs n) there ∙ contains-remove_below xs cs n)
      ]
]

-- After a name is removed the tree holds the names that it held before, but for this one; a name
-- that it did not hold changes nothing.
pub contains-remove_name :
    (s str : List ℕ) (t : WildcardTreeNode)
    → contains s (remove_name str t) ≡ (not (same_name s str) && contains s t)
unfolding remove_name
contains-remove_name s str t = contains-remove_below s str t
