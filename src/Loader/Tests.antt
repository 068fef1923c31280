-- ===== src/Loader/Tests.antt =====
-- A small file.
use asca_ci.Base.{◌≡◌, [], ◌∷◌, some, arith, false}
use asca_ci.Loader.{Node, node, nil, cons, load}
use asca_ci.Loader.RoundTrip.{print_onto, with_props, load-print}
use mathlib.Core.Option

-- A root with two children; some properties look like markers.
abbrev tree : Node
tree = node 1 (7 ∷ 0xFE ∷ 0xFD ∷ []) (cons (node 2 [] nil) (cons (node 0xFF (0xFF ∷ []) nil) nil))

load-print_example :
    Option.map with_props (load (79 ∷ 84 ∷ 66 ∷ 77 ∷ []) (79 ∷ 84 ∷ 66 ∷ 77 ∷ print_onto tree []))
    ≡ some tree
load-print_example = load-print 79 84 66 77 false tree (unfold print_onto in omega arith)
