-- ===== src/Wildcard/Tests.antt =====
-- Three names in a tree.
use asca_ci.Base.{ℕ, ◌≡◌, refl, true, false, List, [], ◌∷◌, ◌++◌, ◌||◌, ◌&&◌, not}
use asca_ci.Wildcard.Live.{find_one-run_updates, run_updates, Update, comes, goes}
use asca_ci.Wildcard.Remove.{contains-remove_name}
use asca_ci.Wildcard.{
  remove_name, remove_below, erase_child, set_child, WildcardTreeNode, wildcard_node, nil, insert,
  find_one, get_child, add_child, walk, complete,
}
use asca_ci.Wildcard.Find.{find_one-found}
use asca_ci.Wildcard.Insert.{contains, same_name, contains-insert}

abbrev names : WildcardTreeNode
unfolding insert add_child
names = insert 98 (111 ∷ 98 ∷ []) (insert 97 (110 ∷ 110 ∷ 97 ∷ []) (wildcard_node false nil))

contains-insert_example :
    contains (97 ∷ 110 ∷ []) (insert 97 (110 ∷ []) names)
    ≡ (same_name (97 ∷ 110 ∷ []) (97 ∷ 110 ∷ []) || contains (97 ∷ 110 ∷ []) names)
contains-insert_example = contains-insert (97 ∷ 110 ∷ []) 97 (110 ∷ []) names

find_one-found_example : ◌++◌ {A = ℕ} (98 ∷ 111 ∷ []) (98 ∷ []) ≡ 98 ∷ 111 ∷ 98 ∷ []
unfolding find_one walk complete get_child names
find_one-found_example =
    find_one-found (98 ∷ 111 ∷ []) (98 ∷ []) (98 ∷ 111 ∷ 98 ∷ []) names refl refl

contains-remove_name_example :
    contains (97 ∷ 110 ∷ []) (remove_name (98 ∷ 111 ∷ 98 ∷ []) names)
    ≡ (not (same_name (97 ∷ 110 ∷ []) (98 ∷ 111 ∷ 98 ∷ [])) && contains (97 ∷ 110 ∷ []) names)
contains-remove_name_example = contains-remove_name (97 ∷ 110 ∷ []) (98 ∷ 111 ∷ 98 ∷ []) names

-- Newest first: two names that begin alike come, and the longer one goes.
abbrev traffic : List Update
traffic = goes 98 (111 ∷ 98 ∷ []) ∷ comes 98 (111 ∷ 98 ∷ []) ∷ comes 98 (111 ∷ []) ∷ []

find_one-run_updates_example : contains (98 ∷ 111 ∷ []) (run_updates traffic) ≡ true
unfolding run_updates find_one walk complete get_child insert add_child remove_name remove_below
    erase_child set_child
find_one-run_updates_example = find_one-run_updates traffic 98 [] (98 ∷ 111 ∷ []) refl
