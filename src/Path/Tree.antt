-- ===== src/Path/Tree.antt =====
-- The nodes of a search form a tree, whose edges are steps that can be walked.
use asca_ci.Base.Counts.{one}
use asca_ci.Base.{
  ℕ, zero, suc, ◌+◌, ◌≤◌, ◌<◌, ◌≡◌, refl, ◌∙◌, Bool, true, false, not, Option, none, some, ltb, leb,
  ◌==◌, ◌&&◌, update, arith, Bool-cases, inl, inr,
}
use asca_ci.Path.Nodes.{AStarNode, AStarNodes, node_among, max_nodes}
use asca_ci.Path.{Query, can_walk_to}

-- One position is next to another.
abbrev pub is_next : ℕ → ℕ → ℕ → ℕ → Bool
is_next p_x p_y x y =
    leb p_x (x + 1)
    && leb x (p_x + 1)
    && leb p_y (y + 1)
    && leb y (p_y + 1)
    && not (p_x == x && p_y == y)

-- Not at the edge of the coordinates.
abbrev pub is_inside : ℕ → ℕ → Bool
is_inside x y = ltb 0 x && ltb x 0xffff && ltb 0 y && ltb y 0xffff

-- A node is the start, at no cost, or it lies next to its parent, can be walked to, and costs more.
abbrev pub IsLinked : Query → AStarNodes → AStarNode → Option ℕ → Type 0
IsLinked q s n none = (n.x ≡ q.start_x) × (n.y ≡ q.start_y) × (n.f ≡ 0)
IsLinked q s n (some j) =
    (j < s.cur_node)
    × ((s.nodes j).f + 10 ≤ n.f)
    × (is_next (s.nodes j).x (s.nodes j).y n.x n.y ≡ true)
    × (can_walk_to q.terrain n.x n.y ≡ true)

pub record IsTree (q : Query) (s : AStarNodes) : Type 0 where
  pub linked : (i : ℕ) → i < s.cur_node → IsLinked q s (s.nodes i) (s.nodes i).parent
  pub inside : (i : ℕ) → i < s.cur_node → is_inside (s.nodes i).x (s.nodes i).y ≡ true
  pub room : s.cur_node ≤ max_nodes

-- What a node adds to the work that is left.
abbrev pub weight : AStarNodes → ℕ → ℕ
weight s i = (s.nodes i).f + (s.nodes i).f + one (s.open_nodes i)

-- From `s` to `s'` nodes are made or reached at less cost; none moves, and none is closed.
pub record Grows (s s' : AStarNodes) : Type 0 where
  pub more : s.cur_node ≤ s'.cur_node
  pub place :
      (i : ℕ) → i < s.cur_node → ((s'.nodes i).x ≡ (s.nodes i).x) × ((s'.nodes i).y ≡ (s.nodes i).y)
  pub cheaper : (i : ℕ) → i < s.cur_node → (s'.nodes i).f ≤ (s.nodes i).f
  pub lighter : (i : ℕ) → i < s.cur_node → weight s' i ≤ weight s i
  pub opened : (i : ℕ) → i < s.cur_node → s.open_nodes i ≡ true → s'.open_nodes i ≡ true

pub same-Grows : (s : AStarNodes) → Grows s s
same-Grows s = record {
  more = omega arith;
  place = λ i h. (refl, refl);
  cheaper = λ i h. omega arith;
  lighter = λ i h. omega arith;
  opened = λ i h o. o;
}

pub Grows-trans : {s s' s'' : AStarNodes} → Grows s s' → Grows s' s'' → Grows s s''
Grows-trans g h = record {
  more = omega (arith, g.more, h.more);
  place = λ i k.
      let l : i < _ = omega (arith, k, g.more) in
      ((h.place i l).0 ∙ (g.place i k).0, (h.place i l).1 ∙ (g.place i k).1);
  cheaper = λ i k. omega (arith, k, g.more, g.cheaper i k, h.cheaper i (omega (arith, k, g.more)));
  lighter = λ i k. omega (arith, k, g.more, g.lighter i k, h.lighter i (omega (arith, k, g.more)));
  opened = λ i k o. h.opened i (omega (arith, k, g.more)) (g.opened i k o);
}

-- A link holds on as the nodes grow.
pub IsLinked-Grows :
    (q : Query) (s s' : AStarNodes) (n : AStarNode) (o : Option ℕ)
    → Grows s s'
    → IsLinked q s n o
    → IsLinked q s' n o
IsLinked-Grows q s s' n none g l = l
IsLinked-Grows q s s' n (some j) g (before, cheap, next_to, may) =
    let (same_x, same_y) = g.place j before in
    (
      omega (arith, before, g.more),
      omega (arith, cheap, g.cheaper j before),
      rw (same_x, same_y) next_to,
      may,
    )

pub node_among-there :
    (s : AStarNodes) (x y n k : ℕ)
    → node_among s x y n ≡ some k
    → (k < n) × ((s.nodes k).x ≡ x) × ((s.nodes k).y ≡ y)
unfolding node_among
node_among-there s x y zero k e = absurd (ground (arith, e))
node_among-there s x y (suc n) k e = elim (Bool-cases ((s.nodes n).x == x && (s.nodes n).y == y)) [
  | inl here ↦
      let same : n ≡ k = ground (arith, e, here) in
      rw (← same) (omega arith, ground (arith, here), ground (arith, here))
  | inr away ↦
      let (before, at_x, at_y) = node_among-there s x y n k (rw away at e) in
      (omega (arith, before), at_x, at_y)
]

-- The nodes with a new one.
abbrev pub added : AStarNodes → AStarNode → AStarNodes
added s n = record s {
  nodes = update s.nodes s.cur_node n;
  open_nodes = update s.open_nodes s.cur_node true;
  cur_node = s.cur_node + 1;
}

pub update-old : {A : Type 0} (g : ℕ → A) (k : ℕ) (v : A) (i : ℕ) → i < k → update g k v i ≡ g i
unfolding update
update-old g k v i h = let apart : (k == i) ≡ false = ground (arith, h) in rw apart refl

pub update-new : {A : Type 0} (g : ℕ → A) (k : ℕ) (v : A) → update g k v k ≡ v
unfolding update
update-new g k v = let same : (k == k) ≡ true = ground arith in rw same refl

pub added-Grows : (s : AStarNodes) (n : AStarNode) → Grows s (added s n)
added-Grows s n = record {
  more = omega arith;
  place = λ i h. rw (update-old s.nodes s.cur_node n i h) (refl, refl);
  cheaper = λ i h. rw (update-old s.nodes s.cur_node n i h) (omega arith);
  lighter = λ i h.
      rw (update-old s.nodes s.cur_node n i h, update-old s.open_nodes s.cur_node true i h)
        (omega arith);
  opened = λ i h o. update-old s.open_nodes s.cur_node true i h ∙ o;
}

pub added-IsTree :
    (q : Query) (s : AStarNodes) (n : AStarNode)
    → IsTree q s
    → s.cur_node < max_nodes
    → IsLinked q s n n.parent
    → is_inside n.x n.y ≡ true
    → IsTree q (added s n)
added-IsTree q s n t small l inner =
    let g = added-Grows s n in
    record {
      linked = λ i h. elim (Bool-cases (s.cur_node == i)) [
        | inl new ↦
            let e : s.cur_node ≡ i = ground (arith, new) in
            rw (← e, update-new s.nodes s.cur_node n)
              (IsLinked-Grows q s (added s n) n n.parent g l)
        | inr old ↦
            let before : i < s.cur_node = ground (arith, old, h) in
            rw (update-old s.nodes s.cur_node n i before)
              (IsLinked-Grows q s (added s n) (s.nodes i) (s.nodes i).parent g (t.linked i before))
      ];
      inside = λ i h. elim (Bool-cases (s.cur_node == i)) [
        | inl new ↦
            let e : s.cur_node ≡ i = ground (arith, new) in
            rw (← e, update-new s.nodes s.cur_node n) inner
        | inr old ↦
            let before : i < s.cur_node = ground (arith, old, h) in
            rw (update-old s.nodes s.cur_node n i before) (t.inside i before)
      ];
      room = omega (arith, small);
    }
