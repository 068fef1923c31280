-- ===== src/Tiles/Tests.antt =====
-- A few tiles, at the corners of squares and of the map.
use asca_ci.Base.{
  ℕ, ◌+◌, ◌≡◌, refl, List, [], ◌∷◌, some, arith, Bool, true, false, not, ◌==◌, ◌&&◌, if◌then◌else◌,
}
use asca_ci.Tiles.World.{Placement, place_all, set_tiles, get_tile-set_tiles}
use asca_ci.Tiles.Linked.{IsWoven}
use asca_ci.Tiles.Woven.{set_tiles-IsWoven}
use asca_ci.Network.Message.{Position}
use asca_ci.Tiles.Census.{is_listed-get_spectators-enter_all}
use asca_ci.Tiles.Creatures.{enter_all, is_wanted}
use asca_ci.Tiles.Seen.{is_listed}
use asca_ci.Tiles.Spectators.{Range, get_spectators, is_seen}
use asca_ci.Tiles.{get_tile, get_leaf, is_there}

abbrev placements : List (Placement ℕ)
placements =
    record { x = 8; y = 7; z = 7; tile = 100 }
    ∷ record { x = 7; y = 7; z = 7; tile = 20 }
    ∷ record { x = 8; y = 7; z = 16; tile = 50 }
    ∷ record { x = 65535; y = 7; z = 7; tile = 3 }
    ∷ record { x = 8; y = 7; z = 7; tile = 1 }
    ∷ []

abbrev add : ℕ → ℕ → ℕ
add a b = a + b

tile_at_corner : get_tile 8 7 7 (set_tiles add placements) ≡ some 101
unfolding get_tile set_tiles
tile_at_corner = refl

get_tile-set_tiles_example :
    get_tile 8 7 7 (set_tiles add placements) ≡ place_all add placements 8 7 7
get_tile-set_tiles_example =
    get_tile-set_tiles add placements 8 7 7 (refl, (refl, (refl, (refl, (refl, tt))))) (omega arith)
      (omega arith)

set_tiles-IsWoven_example : IsWoven (set_tiles add placements)
set_tiles-IsWoven_example =
    set_tiles-IsWoven add placements (refl, (refl, (refl, (refl, (refl, tt)))))

-- A monster, a player next to it in the next square, and one far away.
abbrev stands : ℕ → Position
stands c =
    if c == 1
    then record { x = 7; y = 7; z = 7 }
    else if c == 2
    then record { x = 8; y = 7; z = 7 }
    else record { x = 65535; y = 7; z = 7 }

abbrev is_person : ℕ → Bool
is_person c = not (c == 1)

abbrev view : Range
view = record { left = 11; right = 11; up = 11; down = 11; min_z = 7; max_z = 7 }

seen_by :
    get_spectators stands
      (record { x = 9; y = 9; z = 7 })
      view
      false
      (enter_all stands is_person (3 ∷ 2 ∷ 1 ∷ []) (set_tiles add placements))
    ≡ 1 ∷ 2 ∷ []
unfolding get_spectators enter_all set_tiles
seen_by = refl

is_listed-get_spectators-enter_all_example :
    is_listed 2 (
      get_spectators stands
        (record { x = 9; y = 9; z = 7 })
        view
        true
        (enter_all stands is_person (3 ∷ 2 ∷ 1 ∷ []) (set_tiles add placements)))
    ≡ (is_seen (record { x = 9; y = 9; z = 7 }) view (stands 2)
        && (is_there (get_leaf (set_tiles add placements) 8 7)
            && (is_listed 2 (3 ∷ 2 ∷ 1 ∷ []) && is_wanted true (is_person 2))))
is_listed-get_spectators-enter_all_example =
    is_listed-get_spectators-enter_all add stands is_person placements (3 ∷ 2 ∷ 1 ∷ [])
      (record { x = 9; y = 9; z = 7 }) view true 2 (refl, (refl, (refl, (refl, (refl, tt)))))
      (omega arith) (omega arith)
