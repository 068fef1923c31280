-- ===== src/Wildcard/Trim.antt =====
-- No insertion and no removal leaves a branch that does not end in a name.
use asca_ci.Base.{
  ℕ, ◌≡◌, refl, ◌∙◌, Bool, true, false, List, [], ◌∷◌, some, ◌==◌, ◌&&◌, subst, Bool-cases,
  Option-cases, some_inj, inl, inr, arith,
}
use asca_ci.Wildcard.{
  WildcardTreeNode, wildcard_node, Children, nil, child, get_child, set_breakpoint, add_child,
  insert, unchanged, erase_child, set_child, Removal, missing, kept, emptied, prune, go_up, at_root,
  remove_below, remove_name,
}

-- A name ends at the node, or below it.
abbrev pub alive : WildcardTreeNode → Bool
alive (wildcard_node true ks) = true
alive (wildcard_node false nil) = false
alive (wildcard_node false (child c n rest)) = true

unfoldable mutual
  -- All the nodes below are alive.
  pub trim : WildcardTreeNode → Bool
  trim (wildcard_node b ks) = all_trim ks

  pub all_trim : Children → Bool
  all_trim nil = true
  all_trim (child c n rest) = alive n && trim n && all_trim rest

pub get_child-trim :
    (ch : ℕ) (ks : Children) (n : WildcardTreeNode)
    → all_trim ks ≡ true
    → get_child ch ks ≡ some n
    → (alive n && trim n) ≡ true
unfolding get_child trim all_trim
get_child-trim ch nil n h e = absurd (ground (arith, e))
get_child-trim ch (child c m rest) n h e = elim (Bool-cases (c == ch)) [
  | inl same ↦ subst (λ k. (alive k && trim k) ≡ true) (some_inj (rw same at e)) (ground (arith, h))
  | inr other ↦ get_child-trim ch rest n (ground (arith, h)) (rw other at e)
]

-- What is done to a child, whose breakpoint is set if `b` holds, makes or leaves it alive.
abbrev Revives : Bool → (WildcardTreeNode → WildcardTreeNode) → Type 0
Revives b next =
    (n : WildcardTreeNode)
    → (b && alive n) ≡ b
    → trim n ≡ true
    → (alive (next n) && trim (next n)) ≡ true

set_breakpoint-alive : (b : Bool) (n : WildcardTreeNode) → (b && alive (set_breakpoint b n)) ≡ b
set_breakpoint-alive true (wildcard_node b ks) = refl
set_breakpoint-alive false n = refl

set_breakpoint-trim : (b : Bool) (n : WildcardTreeNode) → trim (set_breakpoint b n) ≡ trim n
unfolding trim
set_breakpoint-trim true (wildcard_node b ks) = refl
set_breakpoint-trim false n = refl

fresh-alive : (b : Bool) → (b && alive (wildcard_node b nil)) ≡ b
fresh-alive true = refl
fresh-alive false = refl

add_child-trim :
    (ch : ℕ) (b : Bool) (next : WildcardTreeNode → WildcardTreeNode) (ks : Children)
    → Revives b next
    → all_trim ks ≡ true
    → all_trim (add_child ch b next ks) ≡ true
unfolding add_child trim all_trim
add_child-trim ch b next nil r h =
    let ok = r (wildcard_node b nil) (fresh-alive b) refl in ground (arith, ok)
add_child-trim ch b next (child c n rest) r h = elim (Bool-cases (c == ch)) [
  | inl same ↦
      let ok =
        r (set_breakpoint b n) (set_breakpoint-alive b n)
          (set_breakpoint-trim b n ∙ ground (arith, h)) in
      rw same (ground (arith, ok, h))
  | inr other ↦
      let later = add_child-trim ch b next rest r (ground (arith, h)) in
      rw other (ground (arith, h, later))
]

add_child-alive :
    (b : Bool) (ch : ℕ) (br : Bool) (next : WildcardTreeNode → WildcardTreeNode) (ks : Children)
    → alive (wildcard_node b (add_child ch br next ks)) ≡ true
unfolding add_child
add_child-alive true ch br next ks = refl
add_child-alive false ch br next nil = refl
add_child-alive false ch br next (child c n rest) = elim (Bool-cases (c == ch)) [
  | inl same ↦ rw same refl
  | inr other ↦ rw other refl
]

insert-alive : (c : ℕ) (cs : List ℕ) (t : WildcardTreeNode) → alive (insert c cs t) ≡ true
unfolding insert
insert-alive c [] (wildcard_node b ks) = add_child-alive b c true unchanged ks
insert-alive c (d ∷ ds) (wildcard_node b ks) = add_child-alive b c false (insert d ds) ks

pub insert-trim :
    (c : ℕ) (cs : List ℕ) (t : WildcardTreeNode) → trim t ≡ true → trim (insert c cs t) ≡ true
unfolding insert trim
insert-trim c [] (wildcard_node b ks) h =
    add_child-trim c true unchanged ks (λ n lives below. ground (arith, lives, below)) h
insert-trim c (d ∷ ds) (wildcard_node b ks) h =
    add_child-trim c false (insert d ds) ks
      (λ n lives below. ground (arith, insert-alive d ds n, insert-trim d ds n below)) h

erase_child-trim :
    (ch : ℕ) (ks : Children) → all_trim ks ≡ true → all_trim (erase_child ch ks) ≡ true
unfolding erase_child trim
erase_child-trim ch nil h = refl
erase_child-trim ch (child c n rest) h =
    let later = erase_child-trim ch rest (ground (arith, h)) in ground (arith, h, later)

set_child-trim :
    (ch : ℕ) (m : WildcardTreeNode) (ks : Children)
    → (alive m && trim m) ≡ true
    → all_trim ks ≡ true
    → all_trim (set_child ch m ks) ≡ true
unfolding set_child trim
set_child-trim ch m nil ok h = refl
set_child-trim ch m (child c n rest) ok h =
    let later = set_child-trim ch m rest ok (ground (arith, h)) in ground (arith, h, later, ok)

set_child-alive :
    (b : Bool) (ch : ℕ) (m n : WildcardTreeNode) (ks : Children)
    → get_child ch ks ≡ some n
    → alive (wildcard_node b (set_child ch m ks)) ≡ true
unfolding set_child get_child
set_child-alive true ch m n ks e = refl
set_child-alive false ch m n nil e = absurd (ground (arith, e))
set_child-alive false ch m n (child c k rest) e = elim (Bool-cases (c == ch)) [
  | inl same ↦ rw same refl
  | inr other ↦ rw other refl
]

-- A node that stays after a removal is alive.
abbrev stays_alive : Removal → Bool
stays_alive missing = true
stays_alive (kept n) = alive n && trim n
stays_alive emptied = true

prune-alive :
    (b : Bool) (ks : Children)
    → all_trim ks ≡ true
    → stays_alive (prune (wildcard_node b ks)) ≡ true
unfolding trim
prune-alive false nil h = refl
prune-alive true nil h = refl
prune-alive false (child c n rest) h = h
prune-alive true (child c n rest) h = h

go_up-alive :
    (b : Bool) (ks : Children) (ch : ℕ) (n : WildcardTreeNode) (r : Removal)
    → get_child ch ks ≡ some n
    → all_trim ks ≡ true
    → stays_alive r ≡ true
    → stays_alive (go_up b ks ch r) ≡ true
unfolding trim
go_up-alive b ks ch n missing e h ok = refl
go_up-alive b ks ch n (kept m) e h ok =
    ground (arith, set_child-alive b ch m n ks e, set_child-trim ch m ks ok h)
go_up-alive b ks ch n emptied e h ok = prune-alive b (erase_child ch ks) (erase_child-trim ch ks h)

remove_below-alive :
    (s : List ℕ) (t : WildcardTreeNode) → trim t ≡ true → stays_alive (remove_below s t) ≡ true
unfolding remove_below trim
remove_below-alive [] (wildcard_node b ks) h = prune-alive false ks h
remove_below-alive (c ∷ cs) (wildcard_node b ks) h = elim (Option-cases (get_child c ks)) [
  | inl none_there ↦ rw none_there refl
  | inr (n, there) ↦
      let below = get_child-trim c ks n h there in
      rw there (
        go_up-alive b ks c n (remove_below cs n) there h
          (remove_below-alive cs n (ground (arith, below))))
]

at_root-trim :
    (t : WildcardTreeNode) (r : Removal)
    → trim t ≡ true
    → stays_alive r ≡ true
    → trim (at_root t r) ≡ true
unfolding trim
at_root-trim t missing h ok = h
at_root-trim t (kept n) h ok = ground (arith, ok)
at_root-trim t emptied h ok = refl

pub remove_name-trim :
    (s : List ℕ) (t : WildcardTreeNode) → trim t ≡ true → trim (remove_name s t) ≡ true
unfolding remove_name
remove_name-trim s t h = at_root-trim t (remove_below s t) h (remove_below-alive s t h)
