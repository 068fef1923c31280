-- ===== src/Path/Visit.antt =====
-- A visit of the neighbours of a node keeps the tree.
use asca_ci.Base.Bits.{u16}
use asca_ci.Base.{
  ℕ, ◌+◌, ◌≤◌, ◌<◌, ◌≡◌, refl, ap, ◌∙◌, Bool, true, List, [], ◌∷◌, Option, none, some, leb, ◌==◌,
  arith, Bool-cases, inl, inr, All,
}
use asca_ci.Path.Nodes.{
  AStarNode, AStarNodes, create_open_node, node_among, get_node_by_position, get_map_walk_cost,
  max_nodes,
}
use asca_ci.Path.{
  reach, visit, visit_all, go_on, is_skipped, Query, can_walk_to, reparent, tile_cost,
}
use asca_ci.Path.Tree.{
  is_next, is_inside, IsTree, Grows, same-Grows, Grows-trans, node_among-there, update-old,
  added-Grows, added-IsTree,
}
use asca_ci.Path.Reached.{
  update_other, open_node-same, changed, reached, reparent-Grows, reparent-IsTree,
}
use asca_ci.Path.Offsets.{is_offset}

-- What a visit of neighbours keeps.
pub record Visits (q : Query) (i : ℕ) (n : AStarNode) (s s' : AStarNodes) : Type 0 where
  pub tree : IsTree q s'
  pub grows : Grows s s'
  pub same : s'.nodes i ≡ n

offset_next :
    (x y dx dy : ℕ)
    → is_inside x y ≡ true
    → is_offset (dx, dy) ≡ true
    → is_next x y (u16 (x + dx)) (u16 (y + dy)) ≡ true
offset_next x y dx dy h o = ground (arith, h, o)

walk_cost_least : (n : AStarNode) (x y : ℕ) → 10 ≤ get_map_walk_cost n x y
unfolding get_map_walk_cost
walk_cost_least n x y = ground arith

abbrev IsVisited : Query → ℕ → AStarNode → AStarNodes → Option AStarNodes → Type 0
IsVisited q i n s none = Unit
IsVisited q i n s (some s') = Visits q i n s s'

module _ (q : Query) (border : (x y : ℕ) → can_walk_to q.terrain x y ≡ true → is_inside x y ≡ true)
    (i : ℕ) (n : AStarNode) where
  same-Visits : (s : AStarNodes) → IsTree q s → s.nodes i ≡ n → Visits q i n s s
  same-Visits s t e = record { tree = t; grows = same-Grows s; same = e }

  reparent-Visits :
      (s : AStarNodes) (k f : ℕ)
      → IsTree q s
      → i < s.cur_node
      → k < s.cur_node
      → s.nodes i ≡ n
      → f < (s.nodes k).f
      → n.f + 10 ≤ f
      → is_next n.x n.y (s.nodes k).x (s.nodes k).y ≡ true
      → Visits q i n s (reparent k i f s)
  unfolding reparent
  reparent-Visits s k f t from known e less cheap next_to = record {
    tree = reparent-IsTree q s k i f t known from less (rw e cheap) (rw e next_to);
    grows = reparent-Grows q s k i f less;
    same = rw ((open_node-same k (changed q s k i f)).0) (elim (Bool-cases (k == i)) [
      | inl one_node ↦
          let e' : k ≡ i = ground (arith, one_node) in
          absurd (omega (arith, less, cheap, ap (λ m. m.f) e, ap (λ j. (s.nodes j).f) e'))
      | inr other ↦ update_other s.nodes k (reached q s k i f) i other ∙ e
    ]);
  }

  reach-IsVisited :
      (x y : ℕ) (s : AStarNodes) (o : Option ℕ)
      → IsTree q s
      → i < s.cur_node
      → s.nodes i ≡ n
      → is_next n.x n.y x y ≡ true
      → ((k : ℕ) → o ≡ some k → (k < s.cur_node) × ((s.nodes k).x ≡ x) × ((s.nodes k).y ≡ y))
      → IsVisited q i n s (reach q i n x y s o)
  reach-IsVisited x y s (some k) t from e next_to known =
      let (there, at_x, at_y) = known k refl in
      let f = n.f + get_map_walk_cost n x y + tile_cost q.terrain x y in
      elim (Bool-cases (leb (s.nodes k).f f)) [
        | inl dear ↦ rw dear (same-Visits s t e)
        | inr cheap ↦ rw cheap (
            reparent-Visits s k f t from there e (ground (arith, cheap))
              (omega (arith, walk_cost_least n x y)) (rw (at_x, at_y) next_to))
      ]
  reach-IsVisited x y s none t from e next_to known =
      elim (Bool-cases (can_walk_to q.terrain x y)) [
        | inr blocked ↦ rw blocked (same-Visits s t e)
        | inl may ↦ rw may (elim (Bool-cases (leb max_nodes s.cur_node)) [
          | inl full ↦ unfold create_open_node in rw full tt
          | inr room ↦
              let f = n.f + get_map_walk_cost n x y + tile_cost q.terrain x y in
              let new : AStarNode = record { parent = some i; f = f; x = x; y = y } in
              unfold create_open_node in
              rw room (record {
                tree =
                    added-IsTree q s new t (ground (arith, room))
                      (from, rw e (omega (arith, walk_cost_least n x y)), rw e next_to, may)
                      (border x y may);
                grows = added-Grows s new;
                same = update-old s.nodes s.cur_node new i from ∙ e;
              })
        ])
      ]

  visit-IsVisited :
      (x y : ℕ) (s : AStarNodes)
      → IsTree q s
      → i < s.cur_node
      → s.nodes i ≡ n
      → is_next n.x n.y x y ≡ true
      → IsVisited q i n s (visit q i n x y s)
  unfolding visit get_node_by_position
  visit-IsVisited x y s t from e next_to = elim (Bool-cases (is_skipped q x y)) [
    | inl skipped ↦ rw skipped (same-Visits s t e)
    | inr wanted ↦ rw wanted (
        reach-IsVisited x y s (node_among s x y s.cur_node) t from e next_to
          (λ k there. node_among-there s x y s.cur_node k there))
  ]

  Visits-trans :
      {s s' s'' : AStarNodes} → Visits q i n s s' → Visits q i n s' s'' → Visits q i n s s''
  Visits-trans v w = record { tree = w.tree; grows = Grows-trans v.grows w.grows; same = w.same }

  go_on-Visits :
      (rest : AStarNodes → Bool × AStarNodes) (s : AStarNodes) (o : Option AStarNodes)
      → IsTree q s
      → s.nodes i ≡ n
      → IsVisited q i n s o
      → ((s' : AStarNodes) → Visits q i n s s' → Visits q i n s' (rest s').1)
      → Visits q i n s (go_on q rest s o).1
  go_on-Visits rest s none t e v more = same-Visits s t e
  go_on-Visits rest s (some s') t e v more = Visits-trans v (more s' v)

  pub visit_all-Visits :
      (ds : List (ℕ × ℕ)) (s : AStarNodes)
      → All (λ d. is_offset d ≡ true) ds
      → IsTree q s
      → i < s.cur_node
      → s.nodes i ≡ n
      → is_inside n.x n.y ≡ true
      → Visits q i n s (visit_all q i n ds s).1
  unfolding visit_all
  visit_all-Visits [] s os t from e inner = same-Visits s t e
  visit_all-Visits ((dx, dy) ∷ ds) s (o, os) t from e inner =
      go_on-Visits (visit_all q i n ds) s (visit q i n (u16 (n.x + dx)) (u16 (n.y + dy)) s) t e
        (visit-IsVisited (u16 (n.x + dx)) (u16 (n.y + dy)) s t from e
          (offset_next n.x n.y dx dy inner o))
        (λ s' v. visit_all-Visits ds s' os v.tree (omega (arith, from, v.grows.more)) v.same inner)
