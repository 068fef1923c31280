-- ===== src/Wildcard/Find.antt =====
-- What a search by the first characters of a name gives.
use asca_ci.Base.{
  ℕ, ◌≡◌, refl, sym, ap, ◌∙◌, true, false, List, [], ◌∷◌, ◌++◌, append_assoc, append-nil, Option,
  none, some, ◌==◌, Bool-cases, inl, inr, arith,
}
use asca_ci.Wildcard.{
  WildcardTreeNode, wildcard_node, nil, child, get_child, walk, complete, find_one, found, go_on,
  answer,
}
use asca_ci.Wildcard.Insert.{contains, holds}

contains-go_on :
    (q s : List ℕ) (g : Option WildcardTreeNode)
    → ((t : WildcardTreeNode) → contains (q ++ s) t ≡ holds (contains s) (walk q t))
    → holds (contains (q ++ s)) g ≡ holds (contains s) (go_on (walk q) g)
contains-go_on q s none h = refl
contains-go_on q s (some n) h = h n

-- A name is in the tree if its rest is below the node that its first characters lead to.
pub contains-walk :
    (q s : List ℕ) (t : WildcardTreeNode) → contains (q ++ s) t ≡ holds (contains s) (walk q t)
unfolding walk
contains-walk [] s t = refl
contains-walk (c ∷ q) s (wildcard_node b ks) =
    contains-go_on q s (get_child c ks) (contains-walk q s)

complete-found :
    (q s r : List ℕ) (m : WildcardTreeNode)
    → complete q m ≡ found r
    → contains s m ≡ true
    → q ++ s ≡ r
unfolding complete get_child
complete-found q [] r (wildcard_node b nil) e h = rw append-nil (ground (arith, e))
complete-found q (x ∷ s) r (wildcard_node b nil) e h = absurd (ground (arith, h))
complete-found q s r (wildcard_node true (child c n nil)) e h = absurd (ground (arith, e))
complete-found q [] r (wildcard_node false (child c n nil)) e h = absurd (ground (arith, h))
complete-found q (x ∷ s) r (wildcard_node false (child c n nil)) e h = elim (Bool-cases (c == x)) [
  | inl here ↦
      let same : x ≡ c = ground (arith, here) in
      ap (λ y. q ++ y ∷ s) same
      ∙ sym (append_assoc q (c ∷ []) s)
      ∙ complete-found (q ++ c ∷ []) s r n e (rw here at h)
  | inr other ↦ absurd (ground (arith, other, h))
]
complete-found q s r (wildcard_node b (child c n (child d k rest))) e h = absurd (ground (arith, e))

answer-found :
    (q s r : List ℕ) (g : Option WildcardTreeNode)
    → answer q g ≡ found r
    → holds (contains s) g ≡ true
    → q ++ s ≡ r
answer-found q s r none e h = absurd (ground (arith, e))
answer-found q s r (some m) e h = complete-found q s r m e h

-- If the search for a text gives a name, every name of the tree that begins with the text is this
-- one.
pub find_one-found :
    (q s r : List ℕ) (t : WildcardTreeNode)
    → find_one q t ≡ found r
    → contains (q ++ s) t ≡ true
    → q ++ s ≡ r
unfolding find_one
find_one-found q s r t e h = answer-found q s r (walk q t) e (sym (contains-walk q s t) ∙ h)
