-- ===== src/Path/Steps.antt =====
-- The directions of a path, followed from its start with `getNextPosition`.
use asca_ci.Base.Bits.{u16}
use asca_ci.Base.{
  ℕ, zero, suc, ◌+◌, ◌≤◌, ◌<◌, ◌≡◌, refl, sym, ap, ◌∙◌, Bool, true, false, List, [], ◌∷◌, Option,
  none, some, ◌==◌, ◌&&◌, arith, Bool-cases, inl, inr, ◌⊎◌,
}
use asca_ci.Path.Nodes.{AStarNode, AStarNodes}
use asca_ci.Path.Tree.{is_next, is_inside, IsLinked, IsTree}
use asca_ci.Path.{
  Query, Direction, north, east, south, west, south_west, south_east, north_west, north_east,
  step_between, get_next_position, minus, trace, can_walk_to,
}

-- A step of the path leads from a place to the one next to it.
abbrev IsMove : ℕ → ℕ → ℕ → ℕ → Direction → Type 0
IsMove p_x p_y x y d =
    (step_between p_x p_y x y ≡ some d) × (get_next_position d (p_x, p_y) ≡ (x, y))

-- How two neighbours lie on one axis.
record Apart (p c : ℕ) : Type 0 where
  down : (p == c + 1) ≡ true
  not_up : (p + 1 == c) ≡ false
  at_down : u16 (p + minus) ≡ c

record Beyond (p c : ℕ) : Type 0 where
  not_down : (p == c + 1) ≡ false
  up : (p + 1 == c) ≡ true
  at_up : u16 (p + 1) ≡ c

record Level (p c : ℕ) : Type 0 where
  not_down : (p == c + 1) ≡ false
  not_up : (p + 1 == c) ≡ false
  at_level : p ≡ c

axis-cases : (p c : ℕ) → p ≤ c + 1 → c ≤ p + 1 → c < 0x1_0000 → Apart p c ⊎ Beyond p c ⊎ Level p c
axis-cases p c above below small = elim (Bool-cases (p == c + 1)) [
  | inl down ↦
      inl (record {
        down = down;
        not_up = ground (arith, down);
        at_down = ground (arith, down, small);
      })
  | inr not_down ↦ inr (elim (Bool-cases (p + 1 == c)) [
    | inl up ↦ inl (record { not_down = not_down; up = up; at_up = ground (arith, up, small) })
    | inr not_up ↦ inr (record {
      not_down = not_down;
      not_up = not_up;
      at_level = ground (arith, not_down, not_up, above, below);
    })
  ])
]

pair : (a b c d : ℕ) → a ≡ c → b ≡ d → ◌≡◌ {A = ℕ × ℕ} (a, b) (c, d)
pair a b c d e e' = ap (λ k. (k, b)) e ∙ ap (λ k. (c, k)) e'

pub step_between-IsMove :
    (p_x p_y x y : ℕ)
    → is_next p_x p_y x y ≡ true
    → is_inside x y ≡ true
    → (d : Direction) × IsMove p_x p_y x y d
unfolding step_between get_next_position
step_between-IsMove p_x p_y x y near inner =
    elim (axis-cases p_x x (ground (arith, near)) (ground (arith, near)) (ground (arith, inner))) [
      | inl w ↦
          elim (axis-cases p_y y (ground (arith, near)) (ground (arith, near))
            (ground (arith, inner))) [
              | inl h ↦ (
                north_west,
                (
                  simp (w.down, w.not_up, h.down, h.not_up),
                  pair (u16 (p_x + minus)) (u16 (p_y + minus)) x y w.at_down h.at_down,
                ),
              )
              | inr (inl h) ↦ (
                south_west,
                (
                  simp (w.down, w.not_up, h.not_down, h.up),
                  pair (u16 (p_x + minus)) (u16 (p_y + 1)) x y w.at_down h.at_up,
                ),
              )
              | inr (inr h) ↦ (
                west,
                (
                  simp (w.down, w.not_up, h.not_down, h.not_up),
                  pair (u16 (p_x + minus)) (p_y) x y w.at_down h.at_level,
                ),
              )
            ]
      | inr (inl w) ↦
          elim (axis-cases p_y y (ground (arith, near)) (ground (arith, near))
            (ground (arith, inner))) [
              | inl h ↦ (
                north_east,
                (
                  simp (w.not_down, w.up, h.down, h.not_up),
                  pair (u16 (p_x + 1)) (u16 (p_y + minus)) x y w.at_up h.at_down,
                ),
              )
              | inr (inl h) ↦ (
                south_east,
                (
                  simp (w.not_down, w.up, h.not_down, h.up),
                  pair (u16 (p_x + 1)) (u16 (p_y + 1)) x y w.at_up h.at_up,
                ),
              )
              | inr (inr h) ↦ (
                east,
                (
                  simp (w.not_down, w.up, h.not_down, h.not_up),
                  pair (u16 (p_x + 1)) (p_y) x y w.at_up h.at_level,
                ),
              )
            ]
      | inr (inr w) ↦
          elim (axis-cases p_y y (ground (arith, near)) (ground (arith, near))
            (ground (arith, inner))) [
              | inl h ↦ (
                north,
                (
                  simp (w.not_down, w.not_up, h.down, h.not_up),
                  pair (p_x) (u16 (p_y + minus)) x y w.at_level h.at_down,
                ),
              )
              | inr (inl h) ↦ (
                south,
                (
                  simp (w.not_down, w.not_up, h.not_down, h.up),
                  pair (p_x) (u16 (p_y + 1)) x y w.at_level h.at_up,
                ),
              )
              | inr (inr h) ↦ absurd (ground (arith, near, w.at_level, h.at_level))
            ]
    ]

-- Where the directions lead, the last step first.
unfoldable pub arrive : List Direction → ℕ × ℕ → ℕ × ℕ
unfolding get_next_position
arrive [] start = start
arrive (d ∷ ds) start = get_next_position d (arrive ds start)

-- Every place after the start can be walked to.
unfoldable pub is_walkable : Query → List Direction → Bool
unfolding arrive can_walk_to
is_walkable q [] = true
is_walkable q (d ∷ ds) =
    let rest = is_walkable q ds in
    let (x, y) = arrive (d ∷ ds) (q.start_x, q.start_y) in can_walk_to q.terrain x y && rest

abbrev pub IsWay : Query → List Direction → ℕ → ℕ → Type 0
IsWay q ds x y = (arrive ds (q.start_x, q.start_y) ≡ (x, y)) × (is_walkable q ds ≡ true)

IsWay-push :
    (q : Query) (ds : List Direction) (d : Direction) (p_x p_y x y : ℕ)
    → IsWay q ds p_x p_y
    → get_next_position d (p_x, p_y) ≡ (x, y)
    → can_walk_to q.terrain x y ≡ true
    → IsWay q (d ∷ ds) x y
unfolding arrive is_walkable
IsWay-push q ds d p_x p_y x y (at, walked) e may =
    let there : get_next_position d (arrive ds (q.start_x, q.start_y)) ≡ (x, y) =
      ap (get_next_position d) at ∙ e in
    (there, rw (there, may, walked) refl)

-- The way along the parents, for which the cost of the last node is fuel enough.
pub trace-IsWay :
    (q : Query)
    → ((x y : ℕ) → can_walk_to q.terrain x y ≡ true → is_inside x y ≡ true)
    → (fuel : ℕ) (s : AStarNodes) (n : AStarNode) (o : Option ℕ) → IsTree q s
    → IsLinked q s n o
    → n.f ≤ fuel
    → (ds : List Direction) × (trace fuel s n.x n.y o ≡ some ds) × IsWay q ds n.x n.y
unfolding trace arrive is_walkable
trace-IsWay q border fuel s n none t (at_x, at_y, free) h =
    ([], refl, (pair q.start_x q.start_y n.x n.y (sym at_x) (sym at_y), refl))
trace-IsWay q border zero s n (some i) t (before, cheap, near, may) h =
    absurd (omega (arith, cheap, h))
trace-IsWay q border (suc fuel) s n (some i) t (before, cheap, near, may) h =
    let p = s.nodes i in
    let (ds, e, way) =
      trace-IsWay q border fuel s p p.parent t (t.linked i before) (omega (arith, cheap, h)) in
    let (d, (step, moved)) = step_between-IsMove p.x p.y n.x n.y near (border n.x n.y may) in
    (d ∷ ds, rw (e, step) refl, IsWay-push q ds d p.x p.y n.x n.y way moved may)
