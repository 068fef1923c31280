-- ===== src/Loader/RoundTrip.antt =====
-- A tree that is written with its markers escaped is read back.
use asca_ci.Base.{
  ℕ, ◌<◌, ◌≡◌, refl, sym, ap, ◌∙◌, Bool, true, false, List, [], ◌∷◌, ◌++◌, append_assoc, append-nil,
  Option, none, some, leb, ◌==◌, ◌&&◌, if◌then◌else◌, length, arith, Bool-cases, inl, inr,
}
use asca_ci.Loader.{
  Node, node, Children, nil, cons, push_back, node_escape, node_start, node_end, Open, normal,
  Parser, step_in, parse_bytes, finish, parse_tree, accepts, load, unescape, get_props, ◌>>=◌,
}
use mathlib.Core.Option

-- Bytes with an escape in front of each marker, in front of what follows.
abbrev pub escape_onto : List ℕ → List ℕ → List ℕ
escape_onto [] rest = rest
escape_onto (b ∷ bs) rest =
    let more = escape_onto bs rest in if leb node_escape b then node_escape ∷ b ∷ more else b ∷ more

abbrev pub escape : List ℕ → List ℕ
escape bs = escape_onto bs []

-- A tree as bytes, in front of what follows: its properties are escaped, its type is not.
unfoldable mutual
  pub print_onto : Node → List ℕ → List ℕ
  print_onto (node t ps cs) rest = node_start ∷ t ∷ escape_onto ps (print_all cs (node_end ∷ rest))

  pub print_all : Children → List ℕ → List ℕ
  print_all nil rest = rest
  print_all (cons c cs) rest = print_onto c (print_all cs rest)

-- The tree with its properties as they stand in the file.
unfoldable mutual
  raw : Node → Node
  raw (node t ps cs) = node t (escape ps) (raw_all cs)

  raw_all : Children → Children
  raw_all nil = nil
  raw_all (cons c cs) = cons (raw c) (raw_all cs)

abbrev props_or_none : Option (List ℕ) → List ℕ
props_or_none none = []
props_or_none (some ps) = ps

-- The tree with the properties that `getProps` gives for each node.
unfoldable mutual
  unfolding get_props

  pub with_props : Node → Node
  with_props (node t ps cs) = node t (props_or_none (get_props (node t ps cs))) (all_with_props cs)

  pub all_with_props : Children → Children
  all_with_props nil = nil
  all_with_props (cons c cs) = cons (with_props c) (all_with_props cs)

abbrev at : List Open → Parser
at os = record { stack = os; root = none; mode = normal }

abbrev opened : ℕ → List ℕ → Open
opened t ps = record { type = t; props = ps; children = nil }

parse-escape :
    (ps qs rest : List ℕ) (t : ℕ) (os : List Open)
    → parse_bytes (escape_onto ps rest) (at (opened t qs ∷ os))
      ≡ parse_bytes rest (at (opened t (qs ++ escape ps) ∷ os))
unfolding parse_bytes step_in
parse-escape [] qs rest t os = rw append-nil refl
parse-escape (b ∷ ps) qs rest t os = elim (Bool-cases (leb node_escape b)) [
  | inl marker ↦ rw marker (
      parse-escape ps (qs ++ node_escape ∷ [] ++ b ∷ []) rest t os
      ∙ ap (λ ws. parse_bytes rest (at (opened t ws ∷ os)))
          (append_assoc (qs ++ node_escape ∷ []) (b ∷ []) (escape ps)
            ∙ append_assoc qs (node_escape ∷ []) (b ∷ escape ps)))
  | inr plain ↦
      let not_start : (b == node_start) ≡ false = ground (arith, plain) in
      let not_end : (b == node_end) ≡ false = ground (arith, plain) in
      let not_escape : (b == node_escape) ≡ false = ground (arith, plain) in
      rw (plain, not_start, not_end, not_escape)
        (parse-escape ps (qs ++ b ∷ []) rest t os
          ∙ ap (λ ws. parse_bytes rest (at (opened t ws ∷ os)))
              (append_assoc qs (b ∷ []) (escape ps)))
]

abbrev join : Children → Children → Children
join nil cs = cs
join (cons d ds) cs = cons d (join ds cs)

join-push_back :
    (ds : Children) (c : Node) (cs : Children) → join (push_back ds c) cs ≡ join ds (cons c cs)
join-push_back nil c cs = refl
join-push_back (cons d ds) c cs = ap (cons d) (join-push_back ds c cs)

join-nil : (ds : Children) → join ds nil ≡ ds
join-nil nil = refl
join-nil (cons d ds) = ap (cons d) (join-nil ds)

abbrev with_children : Open → Children → Open
with_children o cs = record o { children = join o.children cs }

-- The children become the last of the innermost node.
parse-children :
    (cs : Children) (rest : List ℕ) (o : Open) (os : List Open)
    → parse_bytes (print_all cs rest) (at (o ∷ os))
      ≡ parse_bytes rest (at (with_children o (raw_all cs) ∷ os))
unfolding parse_bytes step_in print_onto raw
parse-children nil rest o os =
    ap (λ ds. parse_bytes rest (at (record o { children = ds } ∷ os))) (sym (join-nil o.children))
parse-children (cons (node t ps cs) more) rest o os =
    let n = node t (escape ps) (raw_all cs) in
    let after : List ℕ = node_end ∷ print_all more rest in
    parse-escape ps [] (print_all cs after) t (o ∷ os)
    ∙ parse-children cs after (opened t (escape ps)) (o ∷ os)
    ∙ parse-children more rest (record o { children = push_back o.children n }) os
    ∙ ap (λ ds. parse_bytes rest (at (record o { children = ds } ∷ os)))
        (join-push_back o.children n (raw_all more))

parse_tree-print : (n : Node) → parse_tree (print_onto n []) ≡ some (raw n)
unfolding parse_tree parse_bytes step_in finish print_onto raw
parse_tree-print (node t ps cs) =
    ap (λ p. p >>= finish)
      (parse-escape ps [] (print_all cs (node_end ∷ [])) t []
        ∙ parse-children cs (node_end ∷ []) (opened t (escape ps)) [])

and_false : (x : Bool) → (x && false) ≡ false
and_false true = refl
and_false false = refl

unescape-escape : (ps : List ℕ) → unescape false (escape ps) ≡ ps
unfolding unescape
unescape-escape [] = refl
unescape-escape (b ∷ ps) = elim (Bool-cases (leb node_escape b)) [
  | inl marker ↦ rw (marker, and_false (b == node_escape)) (ap (◌∷◌ b) (unescape-escape ps))
  | inr plain ↦
      let not_escape : (b == node_escape) ≡ false = ground (arith, plain) in
      rw (plain, not_escape) (ap (◌∷◌ b) (unescape-escape ps))
]

-- A range that is not empty is read; an empty one stands for no properties.
props_of-unescape :
    (t : ℕ) (ps : List ℕ) (cs : Children)
    → props_or_none (get_props (node t ps cs)) ≡ unescape false ps
unfolding get_props unescape
props_of-unescape t [] cs = refl
props_of-unescape t (b ∷ ps) cs = refl

mutual
  unfolding with_props raw

  with_props-raw : (n : Node) → with_props (raw n) ≡ n
  with_props-raw (node t ps cs) =
      rw (all_with_props-raw cs) (
        ap (λ qs. node t qs cs) (props_of-unescape t (escape ps) (raw_all cs) ∙ unescape-escape ps))

  all_with_props-raw : (cs : Children) → all_with_props (raw_all cs) ≡ cs
  all_with_props-raw nil = refl
  all_with_props-raw (cons c cs) = rw (with_props-raw c, all_with_props-raw cs) refl

accepts-own : (i j k l : ℕ) → accepts (i ∷ j ∷ k ∷ l ∷ []) i j k l ≡ true
unfolding accepts
accepts-own i j k l = ground arith

accepts-wildcard : (i j k l : ℕ) → accepts (i ∷ j ∷ k ∷ l ∷ []) 0 0 0 0 ≡ true
unfolding accepts
accepts-wildcard i j k l = ground arith

-- A file that is an accepted identifier, or the one of zeros, followed by a tree whose properties
-- are escaped, loads to that tree: the same types, children and properties at every node. The
-- tree of a single node without properties is too short.
pub load-print :
    (i j k l : ℕ) (wildcard : Bool) (n : Node)
    → 3 < length (print_onto n [])
    → Option.map with_props (
        load
          (i ∷ j ∷ k ∷ l ∷ [])
          (if wildcard then 0 ∷ 0 ∷ 0 ∷ 0 ∷ print_onto n [] else i ∷ j ∷ k ∷ l ∷ print_onto n []))
      ≡ some n
unfolding load
load-print i j k l true n long =
    let not_short : leb (length (print_onto n [])) 3 ≡ false = ground arith in
    rw (not_short, accepts-wildcard i j k l, parse_tree-print n) (ap some (with_props-raw n))
load-print i j k l false n long =
    let not_short : leb (length (print_onto n [])) 3 ≡ false = ground arith in
    rw (not_short, accepts-own i j k l, parse_tree-print n) (ap some (with_props-raw n))
