-- ===== src/Path/Reached.antt =====
-- A node of the search that is reached at less cost keeps the tree.
use asca_ci.Base.{
  ℕ, ◌+◌, ◌≤◌, ◌<◌, ◌≡◌, refl, true, false, Option, none, some, ◌==◌, ◌||◌, update, arith,
  Bool-cases, inl, inr,
}
use asca_ci.Path.Nodes.{AStarNode, AStarNodes, open_node}
use asca_ci.Path.{Query, can_walk_to, reparent}
use asca_ci.Path.Tree.{is_next, IsLinked, IsTree, Grows, IsLinked-Grows, update-new}

pub update_other :
    {A : Type 0} (g : ℕ → A) (k : ℕ) (v : A) (i : ℕ) → (k == i) ≡ false → update g k v i ≡ g i
unfolding update
update_other g k v i apart = rw apart refl

pub open_node-same :
    (k : ℕ) (s : AStarNodes)
    → ((open_node k s).nodes ≡ s.nodes) × ((open_node k s).cur_node ≡ s.cur_node)
unfolding open_node
open_node-same k s = elim (Bool-cases (s.open_nodes k)) [
  | inl is_open ↦ rw is_open (refl, refl)
  | inr closed ↦ rw closed (refl, refl)
]

open_node-open :
    (k : ℕ) (s : AStarNodes) (j : ℕ) → (open_node k s).open_nodes j ≡ (s.open_nodes j || k == j)
unfolding open_node update
open_node-open k s j = elim (Bool-cases (s.open_nodes k)) [
  | inl is_open ↦ elim (Bool-cases (k == j)) [
    | inl same ↦
        let e : k ≡ j = ground (arith, same) in
        let there : s.open_nodes j ≡ true = rw (← e) is_open in rw is_open (ground (arith, there))
    | inr other ↦ rw is_open (ground (arith, other))
  ]
  | inr closed ↦ elim (Bool-cases (k == j)) [
    | inl same ↦ rw closed (ground (arith, same))
    | inr other ↦ rw closed (ground (arith, other))
  ]
]

module _ (q : Query) (s : AStarNodes) (k i f : ℕ) where
  -- The node `k` after it is reached from `i`.
  abbrev pub reached : AStarNode
  reached = record (s.nodes k) { parent = some i; f = f }

  abbrev pub changed : AStarNodes
  changed = record s { nodes = update s.nodes k reached }

  pub reparent-Grows : f < (s.nodes k).f → Grows s (reparent k i f s)
  unfolding reparent
  reparent-Grows less =
      let (nodes', cur') = open_node-same k changed in
      record {
        more = rw cur' (omega arith);
        place = λ j h. rw nodes' (elim (Bool-cases (k == j)) [
          | inl same ↦
              let e : k ≡ j = ground (arith, same) in
              rw (← e, update-new s.nodes k reached) (refl, refl)
          | inr other ↦ rw (update_other s.nodes k reached j other) (refl, refl)
        ]);
        cheaper = λ j h. rw nodes' (elim (Bool-cases (k == j)) [
          | inl same ↦
              let e : k ≡ j = ground (arith, same) in
              rw (← e, update-new s.nodes k reached) (omega (arith, less))
          | inr other ↦ rw (update_other s.nodes k reached j other) (omega arith)
        ]);
        lighter = λ j h. rw nodes' (elim (Bool-cases (k == j)) [
          | inl same ↦
              let e : k ≡ j = ground (arith, same) in
              rw (← e, update-new s.nodes k reached)
                (ground (arith, less, open_node-open k changed k))
          | inr other ↦
              rw (update_other s.nodes k reached j other)
                (ground (arith, other, open_node-open k changed j))
        ]);
        opened = λ j h o. ground (arith, o, open_node-open k changed j);
      }

-- A node that costs something can be walked to.
can_walk-linked :
    (q : Query) (s : AStarNodes) (n : AStarNode) (o : Option ℕ)
    → IsLinked q s n o
    → 0 < n.f
    → can_walk_to q.terrain n.x n.y ≡ true
can_walk-linked q s n none (at_x, at_y, free) h = absurd (omega (arith, free, h))
can_walk-linked q s n (some j) (before, cheap, next_to, may) h = may

pub reparent-IsTree :
    (q : Query) (s : AStarNodes) (k i f : ℕ)
    → IsTree q s
    → k < s.cur_node
    → i < s.cur_node
    → f < (s.nodes k).f
    → (s.nodes i).f + 10 ≤ f
    → is_next (s.nodes i).x (s.nodes i).y (s.nodes k).x (s.nodes k).y ≡ true
    → IsTree q (reparent k i f s)
unfolding reparent
reparent-IsTree q s k i f t known from less cheap next_to =
    let (nodes', cur') = open_node-same k (changed q s k i f) in
    let g = reparent-Grows q s k i f less in
    let may =
      can_walk-linked q s (s.nodes k) (s.nodes k).parent (t.linked k known) (omega (arith, less)) in
    record {
      linked = λ j h.
          let before : j < s.cur_node = omega (arith, h, cur') in
          rw nodes' (elim (Bool-cases (k == j)) [
            | inl same ↦
                let e : k ≡ j = ground (arith, same) in
                rw (← e, update-new s.nodes k (reached q s k i f))
                  (IsLinked-Grows q s (reparent k i f s) (reached q s k i f) (some i) g
                    (from, cheap, next_to, may))
            | inr other ↦ rw (update_other s.nodes k (reached q s k i f) j other) (
                IsLinked-Grows q s (reparent k i f s) (s.nodes j) (s.nodes j).parent g
                  (t.linked j before))
          ]);
      inside = λ j h.
          let before : j < s.cur_node = omega (arith, h, cur') in
          let (same_x, same_y) = g.place j before in rw (same_x, same_y) (t.inside j before);
      room = omega (arith, t.room, cur');
    }
