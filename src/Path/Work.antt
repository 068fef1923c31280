-- ===== src/Path/Work.antt =====
-- The work that is left to the search, and the closing of its best node.
use asca_ci.Base.{
  ℕ, zero, suc, ◌+◌, ◌≤◌, ◌<◌, ◌≡◌, true, Option, none, some, ltb, ◌==◌, ◌&&◌, update, arith,
  Bool-cases, inl, inr,
}
use asca_ci.Path.Nodes.{AStarNode, AStarNodes, best_of, better, close_node}
use asca_ci.Path.Tree.{IsLinked, IsTree, Grows, weight}
use asca_ci.Path.{Query}

-- The sum over the first indices.
abbrev pub sum : ℕ → (ℕ → ℕ) → ℕ
sum zero g = 0
sum (suc n) g = sum n g + g n

sum-le : (n : ℕ) (g h : ℕ → ℕ) → ((i : ℕ) → i < n → g i ≤ h i) → sum n g ≤ sum n h
sum-le zero g h le = omega arith
sum-le (suc n) g h le =
    omega (arith, sum-le n g h (λ i k. le i (omega (arith, k))), le n (omega arith))

sum-lt :
    (n k : ℕ) (g h : ℕ → ℕ) → k < n → g k < h k → ((i : ℕ) → i < n → g i ≤ h i) → sum n g < sum n h
sum-lt zero k g h there less le = absurd (omega (arith, there))
sum-lt (suc n) k g h there less le = elim (Bool-cases (k == n)) [
  | inl last ↦
      let e : k ≡ n = ground (arith, last) in
      let less' : g n < h n = rw (← e) less in
      omega (arith, sum-le n g h (λ i l. le i (omega (arith, l))), less')
  | inr other ↦ omega (
    arith,
    sum-lt n k g h (ground (arith, there, other)) less (λ i l. le i (omega (arith, l))),
    le n (omega arith),
  )
]

-- The best node is one of the nodes, and open.
better-open :
    (s : AStarNodes) (n i : ℕ) (b : ℕ × Option ℕ)
    → ((k : ℕ) → b.1 ≡ some k → (k < n) × (s.open_nodes k ≡ true))
    → (better s n b).1 ≡ some i
    → (i < n + 1) × (s.open_nodes i ≡ true)
better-open s n i (f, o) h e = elim (Bool-cases (s.open_nodes n && ltb (s.nodes n).f f)) [
  | inl taken ↦
      let e' : some n ≡ some i = rw taken at e in
      let same : n ≡ i = ground (arith, e') in rw (← same) (omega arith, ground (arith, taken))
  | inr left ↦
      let e' : o ≡ some i = rw left at e in
      let (before, is_open) = h i e' in (omega (arith, before), is_open)
]

pub best_of-open :
    (s : AStarNodes) (n i : ℕ) → (best_of s n).1 ≡ some i → (i < n) × (s.open_nodes i ≡ true)
unfolding best_of
best_of-open s zero i e = absurd (ground (arith, e))
best_of-open s (suc n) i e =
    let (before, is_open) = better-open s n i (best_of s n) (λ k h. best_of-open s n k h) e in
    (omega (arith, before), is_open)

-- Between two turns: the nodes that can still be made, and the work of those that there are.
pub record Lessens (s s' : AStarNodes) : Type 0 where
  pub more : s.cur_node ≤ s'.cur_node
  pub least : s'.cur_node ≤ s.cur_node → sum s'.cur_node (weight s') < sum s.cur_node (weight s)

IsLinked-close_node :
    (q : Query) (i : ℕ) (s : AStarNodes) (n : AStarNode) (o : Option ℕ)
    → IsLinked q s n o
    → IsLinked q (close_node i s) n o
unfolding close_node
IsLinked-close_node q i s n none l = l
IsLinked-close_node q i s n (some j) l = l

pub close_node-IsTree :
    (q : Query) (i : ℕ) (s : AStarNodes) → IsTree q s → IsTree q (close_node i s)
unfolding close_node
close_node-IsTree q i s t = record {
  linked = λ j h. IsLinked-close_node q i s (s.nodes j) (s.nodes j).parent (t.linked j h);
  inside = t.inside;
  room = t.room;
}

pub closed-Lessens :
    (s s' : AStarNodes) (i : ℕ)
    → Grows s s'
    → i < s.cur_node
    → s.open_nodes i ≡ true
    → Lessens s (close_node i s')
unfolding close_node update
closed-Lessens s s' i g there is_open = record {
  more = g.more;
  least = λ h.
      let e : s'.cur_node ≡ s.cur_node = omega (arith, h, g.more) in
      rw e (
        sum-lt s.cur_node i (weight (close_node i s')) (weight s) there
          (ground (arith, g.lighter i there, g.opened i there is_open))
          (λ j k. ground (arith, g.lighter j k)));
}
