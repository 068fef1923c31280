-- ===== src/Path/Offsets.antt =====
-- The offsets of the neighbours that a node is left by.
use asca_ci.Base.{
  ℕ, zero, suc, ◌≡◌, refl, Bool, true, not, List, [], ◌∷◌, Option, none, some, ◌==◌, if◌then◌else◌,
  ◌&&◌, ◌||◌, All, take,
}
use asca_ci.Path.Nodes.{AStarNode, AStarNodes}
use asca_ci.Path.{
  dir_neighbors, neighbors_from, neighbors_of, facing, Direction, north, east, south, west,
  south_west, south_east, north_west, north_east, minus,
}

-- The offset of a neighbour.
abbrev pub is_offset : ℕ × ℕ → Bool
is_offset (dx, dy) =
    (dx == 0 || dx == 1 || dx == minus)
    && (dy == 0 || dy == 1 || dy == minus)
    && not (dx == 0 && dy == 0)

All-take :
    (k : ℕ) (ds : List (ℕ × ℕ))
    → All (λ d. is_offset d ≡ true) ds
    → All (λ d. is_offset d ≡ true) (take k ds)
All-take zero ds h = tt
All-take (suc k) [] h = tt
All-take (suc k) (d ∷ ds) (h, hs) = (h, All-take k ds hs)

dir_neighbors-offsets : (d : Direction) → All (λ o. is_offset o ≡ true) (dir_neighbors d)
dir_neighbors-offsets north = (refl, (refl, (refl, (refl, (refl, tt)))))
dir_neighbors-offsets east = (refl, (refl, (refl, (refl, (refl, tt)))))
dir_neighbors-offsets south = (refl, (refl, (refl, (refl, (refl, tt)))))
dir_neighbors-offsets west = (refl, (refl, (refl, (refl, (refl, tt)))))
dir_neighbors-offsets south_west = (refl, (refl, (refl, (refl, (refl, tt)))))
dir_neighbors-offsets south_east = (refl, (refl, (refl, (refl, (refl, tt)))))
dir_neighbors-offsets north_west = (refl, (refl, (refl, (refl, (refl, tt)))))
dir_neighbors-offsets north_east = (refl, (refl, (refl, (refl, (refl, tt)))))

neighbors_from-offsets :
    (diagonal : Bool) (nodes : ℕ → AStarNode) (n : AStarNode) (o : Option ℕ)
    → All (λ d. is_offset d ≡ true) (neighbors_from diagonal nodes n o)
neighbors_from-offsets diagonal nodes n none =
    (refl, (refl, (refl, (refl, (refl, (refl, (refl, (refl, tt))))))))
neighbors_from-offsets diagonal nodes n (some p) =
    All-take (if diagonal then 5 else 3) (dir_neighbors (facing diagonal (nodes p) n))
      (dir_neighbors-offsets (facing diagonal (nodes p) n))

pub neighbors_of-offsets :
    (diagonal : Bool) (s : AStarNodes) (i : ℕ)
    → All (λ d. is_offset d ≡ true) (neighbors_of diagonal s i)
unfolding neighbors_of
neighbors_of-offsets diagonal s i =
    neighbors_from-offsets diagonal s.nodes (s.nodes i) (s.nodes i).parent
