-- ===== src/Path/Turns.antt =====
-- Every turn of the search keeps the tree and lessens the work that is left.
use asca_ci.Base.{
  ℕ, ◌+◌, ◌<◌, ◌≡◌, refl, Bool, true, false, not, Option, none, some, ltb, ◌==◌, ◌&&◌, ◌||◌, arith,
  Bool-cases, inl, inr,
}
use asca_ci.Path.Nodes.{AStarNodes, get_best_node, close_node}
use asca_ci.Path.Tree.{is_inside, IsTree, Grows}
use asca_ci.Path.Visit.{Visits, visit_all-Visits}
use asca_ci.Path.{
  Query, Search, Turn, next, ended, aborted, turn, turn_at, expand, close_turn, take_match,
  matches_at, visit_all, neighbors_of, can_walk_to, is_found,
}
use asca_ci.Path.Work.{Lessens, best_of-open, close_node-IsTree, closed-Lessens}
use asca_ci.Path.Offsets.{neighbors_of-offsets}

-- The node that was found last has matched.
abbrev pub IsMatch : Query → AStarNodes → Option ℕ → Type 0
IsMatch q s none = Unit
IsMatch q s (some i) = (i < s.cur_node) × (b : ℕ) × ((matches_at q (s.nodes i) b).0 ≡ true)

pub record IsSearch (q : Query) (s : Search) : Type 0 where
  pub tree : IsTree q s.nodes
  pub match : IsMatch q s.nodes s.found

IsMatch-Grows :
    (q : Query) (s s' : AStarNodes) (o : Option ℕ) → Grows s s' → IsMatch q s o → IsMatch q s' o
IsMatch-Grows q s s' none g m = tt
IsMatch-Grows q s s' (some i) g (there, b, hit) =
    let (same_x, same_y) = g.place i there in
    (omega (arith, there, g.more), b, rw (same_x, same_y) hit)

IsMatch-close_node :
    (q : Query) (i : ℕ) (s : AStarNodes) (o : Option ℕ)
    → IsMatch q s o
    → IsMatch q (close_node i s) o
unfolding close_node
IsMatch-close_node q i s none m = m
IsMatch-close_node q i s (some k) m = m

-- What a turn does.
abbrev pub IsTurned : Query → Search → Turn → Type 0
IsTurned q s (next s') = IsSearch q s' × Lessens s.nodes s'.nodes
IsTurned q s (ended s') = IsSearch q s'
IsTurned q s aborted = Unit

module _ (q : Query)
    (border : (x y : ℕ) → can_walk_to q.terrain x y ≡ true → is_inside x y ≡ true) where
  close_turn-IsTurned :
      (i : ℕ) (s : Search) (r : Bool × AStarNodes)
      → IsSearch q s
      → Visits q i (s.nodes.nodes i) s.nodes r.1
      → i < s.nodes.cur_node
      → s.nodes.open_nodes i ≡ true
      → IsTurned q s (close_turn i s r)
  close_turn-IsTurned i s (done, nodes) h v there is_open =
      let h' : IsSearch q (record s { nodes = close_node i nodes }) = record {
        tree = close_node-IsTree q i nodes v.tree;
        match =
            IsMatch-close_node q i nodes s.found
              (IsMatch-Grows q s.nodes nodes s.found v.grows h.match);
      } in
      let less = closed-Lessens s.nodes nodes i v.grows there is_open in closes done h' less
    where
      closes :
          (done : Bool)
          → IsSearch q (record s { nodes = close_node i nodes })
          → Lessens s.nodes (close_node i nodes)
          → IsTurned q s (close_turn i s (done, nodes))
      closes true h' less = (h', less)
      closes false h' less = elim (Bool-cases (is_found s.found)) [
        | inl there_is ↦ rw there_is (h', less)
        | inr nothing ↦ rw nothing tt
      ]

  expand-IsTurned :
      (i : ℕ) (s : Search)
      → IsSearch q s
      → i < s.nodes.cur_node
      → s.nodes.open_nodes i ≡ true
      → IsTurned q s (expand q i s)
  unfolding expand
  expand-IsTurned i s h there is_open =
      close_turn-IsTurned i s
        (visit_all q i (s.nodes.nodes i) (neighbors_of q.params.allow_diagonal s.nodes i) s.nodes) h
        (visit_all-Visits q border i (s.nodes.nodes i)
          (neighbors_of q.params.allow_diagonal s.nodes i) s.nodes
          (neighbors_of-offsets q.params.allow_diagonal s.nodes i) h.tree there refl
          (h.tree.inside i there))
        there is_open

  take_match-IsSearch :
      (i : ℕ) (s : Search) (m : Bool × ℕ)
      → IsSearch q s
      → i < s.nodes.cur_node
      → (m.0 ≡ true → (b : ℕ) × ((matches_at q (s.nodes.nodes i) b).0 ≡ true))
      → IsSearch q (take_match i s m)
  take_match-IsSearch i s (true, best_match) h there hit =
      let (b, e) = hit refl in record { tree = h.tree; match = (there, b, e) }
  take_match-IsSearch i s (false, best_match) h there hit = record {
    tree = h.tree;
    match = h.match;
  }

  take_match-nodes : (i : ℕ) (s : Search) (m : Bool × ℕ) → (take_match i s m).nodes ≡ s.nodes
  take_match-nodes i s (true, best_match) = refl
  take_match-nodes i s (false, best_match) = refl

  IsTurned-nodes :
      (s s' : Search) (r : Turn) → s'.nodes ≡ s.nodes → IsTurned q s' r → IsTurned q s r
  IsTurned-nodes s s' (next s'') e (h, less) = (h, rw (← e) less)
  IsTurned-nodes s s' (ended s'') e h = h
  IsTurned-nodes s s' aborted e h = tt

  turn_at-IsTurned :
      (s : Search) (o : Option ℕ)
      → IsSearch q s
      → ((i : ℕ) → o ≡ some i → (i < s.nodes.cur_node) × (s.nodes.open_nodes i ≡ true))
      → IsTurned q s (turn_at q s o)
  turn_at-IsTurned s none h best = h
  turn_at-IsTurned s (some i) h best =
      let (there, is_open) = best i refl in
      let m = matches_at q (s.nodes.nodes i) s.best_match in
      let e = take_match-nodes i s m in
      let h' = take_match-IsSearch i s m h there (λ hit. (s.best_match, hit)) in
      elim (Bool-cases (m.0 && m.1 == 0)) [
        | inl final ↦ rw final h'
        | inr open_end ↦ rw open_end (
            IsTurned-nodes s (take_match i s m) (expand q i (take_match i s m)) e
              (expand-IsTurned i (take_match i s m) h' (rw e there) (rw e is_open)))
      ]

  pub turn-IsTurned : (s : Search) → IsSearch q s → IsTurned q s (turn q s)
  unfolding turn get_best_node
  turn-IsTurned s h =
      elim (Bool-cases
        (not (q.params.max_search_dist == 0) || ltb s.nodes.closings (s.nodes.openings + 100))) [
          | inl goes_on ↦ rw goes_on (
              turn_at-IsTurned s (get_best_node s.nodes) h
                (λ i e. best_of-open s.nodes s.nodes.cur_node i e))
          | inr over ↦ rw over h
        ]
