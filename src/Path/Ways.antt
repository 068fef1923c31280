-- ===== src/Path/Ways.antt =====
-- The path search as a whole: `getPathMatching` of src/map.cpp.
use asca_ci.Base.{
  ℕ, zero, suc, ◌+◌, ◌≤◌, ◌<◌, ◌≡◌, refl, true, List, Option, none, some, ◌==◌, subst, arith,
  Bool-cases, inl, inr,
}
use asca_ci.Path.Condition.{matches}
use asca_ci.Path.Nodes.{AStarNodes, start_nodes, max_nodes}
use asca_ci.Path.Steps.{arrive, is_walkable, trace-IsWay}
use asca_ci.Path.Tree.{is_inside, IsTree, weight}
use asca_ci.Path.Turns.{IsMatch, IsSearch, IsTurned, turn-IsTurned}
use asca_ci.Path.Work.{sum, Lessens}
use asca_ci.Path.{
  Query, Direction, Search, Turn, next, ended, aborted, turn, after_turn, search, finish, path_to,
  get_path_matching, can_walk_to,
}

-- What the loop ends with.
abbrev IsEnd : Query → Option Search → Type 0
IsEnd q none = Unit
IsEnd q (some s) = IsSearch q s

-- The loop ends.
abbrev Ends : Query → Search → Type 0
Ends q s =
    (fuel : ℕ) × (r : Option Search) × ((more : ℕ) → search q (more + fuel) s ≡ some r) × IsEnd q r

abbrev start_search : Query → Search
start_search q = record { nodes = start_nodes q.start_x q.start_y; found = none; best_match = 0 }

start_search-IsSearch :
    (q : Query) → is_inside q.start_x q.start_y ≡ true → IsSearch q (start_search q)
unfolding start_nodes
start_search-IsSearch q inner = record {
  tree = record { linked = λ i h. (refl, refl, refl); inside = λ i h. inner; room = omega arith };
  match = tt;
}

-- The position matches, for some best distance.
abbrev pub IsGoal : Query → ℕ × ℕ → Type 0
IsGoal q (x, y) =
    (b : ℕ) × ((matches q.params q.terrain.is_sight_clear q.target_x q.target_y q.start_x q.start_y
        x y b).0
      ≡ true)

-- What the function returns, if a path: it can be walked, and its end matches.
abbrev IsReturn : Query → Option (List Direction) → Type 0
IsReturn q none = Unit
IsReturn q (some ds) = (is_walkable q ds ≡ true) × IsGoal q (arrive ds (q.start_x, q.start_y))

module _ (q : Query)
    (border : (x y : ℕ) → can_walk_to q.terrain x y ≡ true → is_inside x y ≡ true) where
  search-turn :
      (more fuel : ℕ) (s : Search) (r : Option Search)
      → after_turn q (search q (more + fuel)) (turn q s) ≡ some r
      → search q (more + suc fuel) s ≡ some r
  unfolding search
  search-turn more fuel s r h = let e : more + suc fuel ≡ suc (more + fuel) = omega arith in rw e h

  search-step :
      (s : Search) (t : Turn)
      → turn q s ≡ t
      → IsTurned q s t
      → ((s' : Search) → IsSearch q s' → Lessens s.nodes s'.nodes → Ends q s')
      → Ends q s
  unfolding search
  search-step s (next s') e (h, less) on =
      let (fuel, r, e', end) = on s' h less in
      (suc fuel, r, λ more. search-turn more fuel s r (rw e (e' more)), end)
  search-step s (ended s') e h on =
      (suc zero, some s', λ more. search-turn more zero s (some s') (rw e refl), h)
  search-step s aborted e h on =
      (suc zero, none, λ more. search-turn more zero s none (rw e refl), tt)

  -- By the nodes that can still be made, then by the work.
  search-Ends :
      (room work : ℕ) (s : Search)
      → IsSearch q s
      → max_nodes ≤ s.nodes.cur_node + room
      → sum s.nodes.cur_node (weight s.nodes) < work
      → Ends q s
  search-Ends room zero s h left small = absurd (omega (arith, small))
  search-Ends zero (suc work) s h left small =
      search-step s (turn q s) refl (turn-IsTurned q border s h) (λ s' h' less.
        search-Ends zero work s' h' (omega (arith, left, less.more))
          (omega (arith, small, less.least (omega (arith, left, h'.tree.room)))))
  search-Ends (suc room) (suc work) s h left small =
      search-step s (turn q s) refl (turn-IsTurned q border s h) (λ s' h' less.
        elim (Bool-cases (s'.nodes.cur_node == s.nodes.cur_node)) [
          | inl same ↦
              let e : s'.nodes.cur_node ≡ s.nodes.cur_node = ground (arith, same) in
              search-Ends (suc room) work s' h' (omega (arith, left, e))
                (omega (arith, small, less.least (omega (arith, e))))
          | inr more ↦
              let further : s.nodes.cur_node < s'.nodes.cur_node =
                ground (arith, more, less.more) in
              search-Ends room (suc (sum s'.nodes.cur_node (weight s'.nodes))) s' h'
                (omega (arith, left, further)) (omega arith)
        ])

  -- The path to a node that was found.
  path_to-ends :
      (s : AStarNodes) (o : Option ℕ)
      → IsTree q s
      → IsMatch q s o
      → (r : Option (List Direction)) × (path_to s o ≡ some r) × IsReturn q r
  path_to-ends s none t m = (none, refl, tt)
  path_to-ends s (some i) t (there, b, hit) =
      let n = s.nodes i in
      let (ds, e, (at, walked)) =
        trace-IsWay q border n.f s n n.parent t (t.linked i there) (omega arith) in
      (some ds, rw e refl, (walked, rw at (b, hit)))

  finish-ends :
      (r : Option Search)
      → IsEnd q r
      → (p : Option (List Direction)) × (finish (some r) ≡ some p) × IsReturn q p
  finish-ends none h = (none, refl, tt)
  finish-ends (some s) h = path_to-ends s.nodes s.found h.tree h.match

  after_turn-IsEnd :
      (fuel : ℕ) (s : Search) (t : Turn) (r : Option Search)
      → IsTurned q s t
      → ((s' : Search) → IsSearch q s' → search q fuel s' ≡ some r → IsEnd q r)
      → after_turn q (search q fuel) t ≡ some r
      → IsEnd q r
  after_turn-IsEnd fuel s (next s') r (h, less) on e = on s' h e
  after_turn-IsEnd fuel s (ended s') r h on e =
      let e' : some s' ≡ r = ground (arith, e) in subst (IsEnd q) e' h
  after_turn-IsEnd fuel s aborted r h on e =
      let e' : none ≡ r = ground (arith, e) in subst (IsEnd q) e' tt

  search-IsEnd :
      (fuel : ℕ) (s : Search) (r : Option Search)
      → IsSearch q s
      → search q fuel s ≡ some r
      → IsEnd q r
  unfolding search
  search-IsEnd zero s r h e = absurd (ground (arith, e))
  search-IsEnd (suc fuel) s r h e =
      after_turn-IsEnd fuel s (turn q s) r (turn-IsTurned q border s h)
        (λ s' h' e'. search-IsEnd fuel s' r h' e') e

  -- Where the start and all that can be walked to keep off the edge of the coordinates, the path
  -- search ends: from some fuel on it gives one result, a path or that there is none.
  pub get_path_matching-ends :
      is_inside q.start_x q.start_y ≡ true
      → (fuel : ℕ) × (r : Option (List Direction)) × ((more : ℕ)
          → get_path_matching (more + fuel) q ≡ some r)
  unfolding get_path_matching
  get_path_matching-ends inner =
      let (fuel, r, e, end) =
        search-Ends max_nodes (suc (sum 1 (weight (start_nodes q.start_x q.start_y))))
          (start_search q) (start_search-IsSearch q inner) (omega arith) (omega arith) in
      let (p, e', h) = finish-ends r end in (fuel, p, λ more. rw (e more) e')

  finish-IsReturn :
      (r : Option (Option Search)) (ds : List Direction)
      → ((r' : Option Search) → r ≡ some r' → IsEnd q r')
      → finish r ≡ some (some ds)
      → IsReturn q (some ds)
  finish-IsReturn none ds end e = absurd (ground (arith, e))
  finish-IsReturn (some r) ds end e =
      let (p, e', h) = finish-ends r (end r refl) in
      let same : p ≡ some ds = ground (arith, e, e') in subst (IsReturn q) same h

  -- Where the start and all that can be walked to keep off the edge of the coordinates, a path that
  -- the search returns, followed from the start with `getNextPosition`, passes only places that can
  -- be walked to, and leads to a position that matches for some best distance.
  pub get_path_matching-IsGoal :
      (fuel : ℕ) (ds : List Direction)
      → is_inside q.start_x q.start_y ≡ true
      → get_path_matching fuel q ≡ some (some ds)
      → (is_walkable q ds ≡ true) × IsGoal q (arrive ds (q.start_x, q.start_y))
  unfolding get_path_matching
  get_path_matching-IsGoal fuel ds inner e =
      finish-IsReturn (search q fuel (start_search q)) ds
        (λ r e'. search-IsEnd fuel (start_search q) r (start_search-IsSearch q inner) e') e
