-- ===== src/Wildcard.antt =====
-- The tree of player names of src/wildcardtree.cpp. The children of a node are in the order of
-- their insertion here, by character there; nothing depends on it.
pub mod Insert
pub mod Find
pub mod Remove
pub mod Trim
pub mod Live
pub mod Tests
use asca_ci.Base.{
  ℕ, Bool, true, false, List, [], ◌∷◌, ◌++◌, Option, none, some, ◌==◌, if◌then◌else◌,
}

-- A node: whether a name ends here, and the children by their character.
mutual
  pub data WildcardTreeNode : Type 0 where
    wildcard_node : Bool → Children → WildcardTreeNode

  pub data Children : Type 0 where
    nil : Children
    child : ℕ → WildcardTreeNode → Children → Children

unfoldable pub get_child : ℕ → Children → Option WildcardTreeNode
get_child ch nil = none
get_child ch (child c n rest) = let later = get_child ch rest in if c == ch then some n else later

abbrev pub set_breakpoint : Bool → WildcardTreeNode → WildcardTreeNode
set_breakpoint true (wildcard_node b ks) = wildcard_node true ks
set_breakpoint false n = n

-- `addChild`, and what is then done to the child.
unfoldable pub add_child : ℕ → Bool → (WildcardTreeNode → WildcardTreeNode) → Children → Children
add_child ch breakpoint next nil = child ch (next (wildcard_node breakpoint nil)) nil
add_child ch breakpoint next (child c n rest) =
    let later = add_child ch breakpoint next rest in
    if c == ch then child c (next (set_breakpoint breakpoint n)) rest else child c n later

abbrev unchanged : WildcardTreeNode → WildcardTreeNode
unchanged n = n

-- `insert` of a name with at least one character, given as the first and the others.
unfoldable pub insert : ℕ → List ℕ → WildcardTreeNode → WildcardTreeNode
insert ch [] (wildcard_node b ks) = wildcard_node b (add_child ch true unchanged ks)
insert ch (c ∷ cs) (wildcard_node b ks) = wildcard_node b (add_child ch false (insert c cs) ks)

pub data ReturnValue : Type 0 where
  not_online : ReturnValue
  ambiguous : ReturnValue
  found : List ℕ → ReturnValue

-- The loop from the node of the query on.
unfoldable pub complete : List ℕ → WildcardTreeNode → ReturnValue
complete result (wildcard_node b nil) = found result
complete result (wildcard_node true (child c n nil)) = ambiguous
complete result (wildcard_node false (child c n nil)) = complete (result ++ c ∷ []) n
complete result (wildcard_node b (child c n (child d m rest))) = ambiguous

abbrev go_on :
    (WildcardTreeNode → Option WildcardTreeNode) → Option WildcardTreeNode → Option WildcardTreeNode
go_on f none = none
go_on f (some n) = f n

-- The loop over the characters of the query.
unfoldable pub walk : List ℕ → WildcardTreeNode → Option WildcardTreeNode
walk [] n = some n
walk (ch ∷ query) (wildcard_node b ks) = go_on (walk query) (get_child ch ks)

abbrev answer : List ℕ → Option WildcardTreeNode → ReturnValue
answer query none = not_online
answer query (some n) = complete query n

unfoldable pub find_one : List ℕ → WildcardTreeNode → ReturnValue
find_one query n = answer query (walk query n)

-- A map has one entry for a character at most, so all that it has are erased or set.
unfoldable pub erase_child : ℕ → Children → Children
erase_child ch nil = nil
erase_child ch (child c n rest) =
    let others = erase_child ch rest in if c == ch then others else child c n others

unfoldable pub set_child : ℕ → WildcardTreeNode → Children → Children
set_child ch m nil = nil
set_child ch m (child c n rest) =
    let others = set_child ch m rest in if c == ch then child c m others else child c n others

-- What `remove` makes of a node on the path to the name: there is no such path, the node stays, or
-- it is erased from its parent.
pub data Removal : Type 0 where
  missing : Removal
  kept : WildcardTreeNode → Removal
  emptied : Removal

-- One turn of the loop that goes back up.
abbrev pub prune : WildcardTreeNode → Removal
prune (wildcard_node false nil) = emptied
prune (wildcard_node b ks) = kept (wildcard_node b ks)

-- The parent, after its child: once a node stays, the loop has ended.
abbrev pub go_up : Bool → Children → ℕ → Removal → Removal
go_up b ks ch missing = missing
go_up b ks ch (kept n) = kept (wildcard_node b (set_child ch n ks))
go_up b ks ch emptied = prune (wildcard_node b (erase_child ch ks))

abbrev pub go_down : (WildcardTreeNode → Removal) → Option WildcardTreeNode → Removal
go_down f none = missing
go_down f (some n) = f n

unfoldable pub remove_below : List ℕ → WildcardTreeNode → Removal
remove_below [] (wildcard_node b ks) = prune (wildcard_node false ks)
remove_below (c ∷ cs) (wildcard_node b ks) =
    go_up b ks c (go_down (remove_below cs) (get_child c ks))

-- The root has no parent and stays.
abbrev pub at_root : WildcardTreeNode → Removal → WildcardTreeNode
at_root t missing = t
at_root t (kept n) = n
at_root t emptied = wildcard_node false nil

unfoldable pub remove_name : List ℕ → WildcardTreeNode → WildcardTreeNode
unfolding remove_below
remove_name s t = at_root t (remove_below s t)
