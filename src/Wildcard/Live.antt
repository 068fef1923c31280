-- ===== src/Wildcard/Live.antt =====
-- Every branch of the tree ends in a name, so a search that follows the only branch finds one.
use asca_ci.Base.{
  ℕ, ◌≡◌, refl, ap, ◌∙◌, true, false, List, [], ◌∷◌, ◌++◌, Option, none, some, ◌==◌, ◌&&◌, sym,
  subst, append_assoc, append-nil, Option-cases, some_inj, inl, inr, arith,
}
use asca_ci.Wildcard.Find.{contains-walk}
use asca_ci.Wildcard.Insert.{contains, holds}
use asca_ci.Wildcard.{
  WildcardTreeNode, wildcard_node, nil, child, get_child, insert, walk, complete, find_one, found,
  go_on, remove_name,
}
use asca_ci.Wildcard.Trim.{alive, trim, get_child-trim, insert-trim, remove_name-trim}

-- From a node that is alive, the only branch leads to a name.
complete-name :
    (q r : List ℕ) (m : WildcardTreeNode)
    → alive m ≡ true
    → trim m ≡ true
    → complete q m ≡ found r
    → (s : List ℕ) × (q ++ s ≡ r) × (contains s m ≡ true)
unfolding complete trim get_child
complete-name q r (wildcard_node true nil) a h e = ([], rw append-nil (ground (arith, e)), refl)
complete-name q r (wildcard_node false nil) a h e = absurd (ground (arith, a))
complete-name q r (wildcard_node true (child c n nil)) a h e = absurd (ground (arith, e))
complete-name q r (wildcard_node false (child c n nil)) a h e =
    let (s, after, there) =
      complete-name (q ++ c ∷ []) r n (ground (arith, h)) (ground (arith, h)) e in
    let same : (c == c) ≡ true = ground arith in
    (c ∷ s, sym (append_assoc q (c ∷ []) s) ∙ after, rw same there)
complete-name q r (wildcard_node b (child c n (child d k rest))) a h e = absurd (ground (arith, e))

go_on-alive :
    (f : WildcardTreeNode → Option WildcardTreeNode) (g : Option WildcardTreeNode)
    (m : WildcardTreeNode)
    → ((n : WildcardTreeNode) → g ≡ some n → f n ≡ some m → (alive m && trim m) ≡ true)
    → go_on f g ≡ some m
    → (alive m && trim m) ≡ true
go_on-alive f none m ok e = absurd (ground (arith, e))
go_on-alive f (some n) m ok e = ok n refl e

-- Below the root every node is alive.
walk-alive :
    (c : ℕ) (q : List ℕ) (t m : WildcardTreeNode)
    → trim t ≡ true
    → walk (c ∷ q) t ≡ some m
    → (alive m && trim m) ≡ true
unfolding walk trim
walk-alive c [] (wildcard_node b ks) m h e =
    go_on-alive (walk []) (get_child c ks) m
      (λ n there same.
        subst (λ k. (alive k && trim k) ≡ true) (some_inj same) (get_child-trim c ks n h there))
      e
walk-alive c (d ∷ q) (wildcard_node b ks) m h e =
    go_on-alive (walk (d ∷ q)) (get_child c ks) m
      (λ n there after.
        let below = get_child-trim c ks n h there in
        walk-alive d q n m (ground (arith, below)) after)
      e

find_one-name :
    (c : ℕ) (q r : List ℕ) (t : WildcardTreeNode)
    → trim t ≡ true
    → find_one (c ∷ q) t ≡ found r
    → contains r t ≡ true
unfolding find_one
find_one-name c q r t h e = elim (Option-cases (walk (c ∷ q) t)) [
  | inl off ↦ absurd (ground (arith, e, off))
  | inr (m, there) ↦
      let live = walk-alive c q t m h there in
      let (s, after, name) =
        complete-name (c ∷ q) r m (ground (arith, live)) (ground (arith, live)) (rw there at e) in
      ap (λ x. contains x t) (sym after)
      ∙ contains-walk (c ∷ q) s t
      ∙ ap (holds (contains s)) there
      ∙ name
]

-- What happens to the tree: a player comes or goes.
pub data Update : Type 0 where
  comes : ℕ → List ℕ → Update
  goes : ℕ → List ℕ → Update

abbrev pub run_update : Update → WildcardTreeNode → WildcardTreeNode
run_update (comes c cs) t = insert c cs t
run_update (goes c cs) t = remove_name (c ∷ cs) t

unfoldable pub run_updates : List Update → WildcardTreeNode
run_updates [] = wildcard_node false nil
run_updates (u ∷ us) = run_update u (run_updates us)

run_updates-trim : (us : List Update) → trim (run_updates us) ≡ true
unfolding run_updates trim
run_updates-trim [] = refl
run_updates-trim (comes c cs ∷ us) = insert-trim c cs (run_updates us) (run_updates-trim us)
run_updates-trim (goes c cs ∷ us) = remove_name-trim (c ∷ cs) (run_updates us) (run_updates-trim us)

-- However names are inserted and removed, in any order: where a search by at least one character
-- gives a name, this name is in the tree. The branch of a removed name is gone, so no search ends
-- in it.
pub find_one-run_updates :
    (us : List Update) (c : ℕ) (q r : List ℕ)
    → find_one (c ∷ q) (run_updates us) ≡ found r
    → contains r (run_updates us) ≡ true
find_one-run_updates us c q r e = find_one-name c q r (run_updates us) (run_updates-trim us) e
