-- ===== src/Loader.antt =====
-- The tree of nodes of a binary file, of src/fileloader.cpp and src/fileloader.h. A node's range of
-- properties is given as the bytes of the range, and an exception as `none`. The parser's position
-- moves by one byte at a time: what the source reads ahead is the mode of the next byte.
pub mod RoundTrip
pub mod Tests
use asca_ci.Base.{
  ℕ, Bool, true, false, not, List, [], ◌∷◌, ◌++◌, Option, none, some, leb, ◌==◌, if◌then◌else◌,
  ◌||◌, ◌&&◌, length,
}

abbrev pub node_escape : ℕ
node_escape = 0xFD

abbrev pub node_start : ℕ
node_start = 0xFE

abbrev pub node_end : ℕ
node_end = 0xFF

-- A type, the raw bytes of the properties, and the children.
mutual
  pub data Node : Type 0 where
    node : ℕ → List ℕ → Children → Node

  pub data Children : Type 0 where
    nil : Children
    cons : Node → Children → Children

abbrev pub push_back : Children → Node → Children
push_back nil n = cons n nil
push_back (cons c cs) n = cons c (push_back cs n)

-- A node whose end has not been read.
pub record Open : Type 0 where
  pub type : ℕ
  pub props : List ℕ
  pub children : Children

-- What the next byte is: any byte, the type of a node, or an escaped one.
pub data Mode : Type 0 where
  normal expects_type escaped : Mode

-- The parser's stack, the innermost node first, and the root once its end has been read.
pub record Parser : Type 0 where
  pub stack : List Open
  pub root : Option Node
  pub mode : Mode

-- A byte belongs to a node's properties as long as the node has no child.
abbrev pub extend : ℕ → Children → Open → Open
extend b nil o = record o { props = o.props ++ b ∷ [] }
extend b (cons c cs) o = o

abbrev pub add_prop : ℕ → List Open → List Open
add_prop b [] = []
add_prop b (o ∷ os) = extend b o.children o ∷ os

-- `Node::START`.
abbrev pub start_node : List Open → Parser → Option Parser
start_node [] p = none
start_node (o ∷ os) p = some (record p { mode = expects_type })

-- `Node::END`.
abbrev pub end_node : List Open → Parser → Option Parser
end_node [] p = none
end_node (o ∷ []) p = some (record p { stack = []; root = some (node o.type o.props o.children) })
end_node (o ∷ parent ∷ os) p = some (record p {
  stack =
      record parent { children = push_back parent.children (node o.type o.props o.children) } ∷ os;
})

unfoldable pub step_in : Mode → ℕ → Parser → Option Parser
step_in expects_type b p =
    some (record p {
      stack = record { type = b; props = []; children = nil } ∷ p.stack;
      mode = normal;
    })
step_in escaped b p = some (record p { stack = add_prop b p.stack; mode = normal })
step_in normal b p =
    if b == node_start
    then start_node p.stack p
    else if b == node_end
    then end_node p.stack p
    else if b == node_escape
    then some (record p { stack = add_prop b p.stack; mode = escaped })
    else some (record p { stack = add_prop b p.stack })

infixl 5 ◌>>=◌
abbrev pub ◌>>=◌ {ℓ κ} : {A : Type ℓ} {B : Type κ} → Option A → (A → Option B) → Option B
none >>= f = none
some a >>= f = f a

unfoldable pub parse_bytes : List ℕ → Parser → Option Parser
parse_bytes [] p = some p
parse_bytes (b ∷ bs) p = step_in p.mode b p >>= parse_bytes bs

-- The end of the file is no place for an open node or a byte that is read ahead.
abbrev finish_at : List Open → Mode → Option Node → Option Node
finish_at [] normal root = root
finish_at _ _ root = none

unfoldable pub finish : Parser → Option Node
finish p = finish_at p.stack p.mode p.root

abbrev pub parser_of : ℕ → Parser
parser_of t = record {
  stack = record { type = t; props = []; children = nil } ∷ [];
  root = none;
  mode = normal;
}

-- `Loader::parseTree`, on the bytes behind the identifier.
unfoldable pub parse_tree : List ℕ → Option Node
parse_tree [] = none
parse_tree (b ∷ []) = none
parse_tree (b ∷ t ∷ bs) =
    if b == node_start then (parse_bytes bs (parser_of t) >>= finish) else none

-- The identifiers are four bytes; the one of zeros fits every file.
unfoldable pub accepts : List ℕ → ℕ → ℕ → ℕ → ℕ → Bool
accepts (i ∷ j ∷ k ∷ l ∷ []) a b c d =
    (a == i && b == j && c == k && d == l) || (a == 0 && b == 0 && c == 0 && d == 0)
accepts _ a b c d = false

-- The constructor of `Loader`, and then `parseTree`.
unfoldable pub load : List ℕ → List ℕ → Option Node
unfolding accepts
load identifier (a ∷ b ∷ c ∷ d ∷ bs) =
    if leb (length bs) 3 then none else if accepts identifier a b c d then parse_tree bs else none
load identifier _ = none

-- The bytes that `copy_if` keeps; the flag is `lastEscaped`.
unfoldable pub unescape : Bool → List ℕ → List ℕ
unescape last_escaped [] = []
unescape last_escaped (b ∷ bs) =
    let escape = b == node_escape && not last_escaped in
    let rest = unescape escape bs in if escape then rest else b ∷ rest

-- `Loader::getProps`.
unfoldable pub get_props : Node → Option (List ℕ)
unfolding unescape
get_props (node t [] cs) = none
get_props (node t (b ∷ bs) cs) = some (unescape false (b ∷ bs))
