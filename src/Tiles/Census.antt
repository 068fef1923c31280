-- ===== src/Tiles/Census.antt =====
-- Tiles are set, creatures come, and the spectators of a position are looked for.
use asca_ci.Base.{
  ℕ, ◌<◌, ◌≡◌, refl, sym, ap, ◌∙◌, Bool, true, false, ◌&&◌, ◌||◌, List, [], ◌∷◌, ◌==◌, Bool-cases,
  inl, inr, arith, All,
}
use asca_ci.Network.Message.{Position}
use asca_ci.Tiles.Kept.{IsRooted}
use asca_ci.Tiles.Creatures.{
  listed_at-set_tiles, is_wanted, enter_all, enter_all-IsRooted, enter_all-IsWoven,
  is_listed-enter_all,
}
use asca_ci.Tiles.Seen.{is_listed, AreHome, is_listed-get_spectators}
use asca_ci.Tiles.Spectators.{Range, get_spectators, is_seen}
use asca_ci.Tiles.Squares.{same_square}
use asca_ci.Tiles.World.{Placement, set_tiles, set_tiles-IsRooted, is_position}
use asca_ci.Tiles.Woven.{set_tiles-IsWoven}
use asca_ci.Tiles.{QTreeNode, get_leaf, is_there, listed_at}

same_square-sym : (x y x' y' : ℕ) → same_square x y x' y' ≡ true → same_square x' y' x y ≡ true
same_square-sym x y x' y' e = ground (arith, e)

same_square-same : (x y : ℕ) → same_square x y x y ≡ true
same_square-same x y = ground arith

newcomer-eq :
    (t l e w w' s : Bool)
    → (e ≡ true → (s ≡ true) × (w ≡ w'))
    → ((t && (l && w')) || ((s && t) && (e && w))) ≡ (t && ((e || l) && w'))
newcomer-eq t l true w w' s h = let (same, equal) = h refl in rw (same, equal) (ground arith)
newcomer-eq t l false w w' s h = ground arith

newcomer-cases :
    (a s t e w : Bool) → (a || ((s && t) && (e && w))) ≡ true → a ≡ false → (s ≡ true) × (e ≡ true)
newcomer-cases a s t e w h off = (ground (arith, h, off), ground (arith, h, off))

module _ {ℓ} {T : Type ℓ} (where_is : ℕ → Position) (is_player : ℕ → Bool) (m : QTreeNode T)
    (r : IsRooted m) (empty : (b : Bool) (x y : ℕ) → listed_at b (get_leaf m x y) ≡ []) where
  enter_all-AreHome :
      (cs : List ℕ) (b : Bool) → AreHome where_is b (enter_all where_is is_player cs m)
  unfolding enter_all is_listed
  enter_all-AreHome [] b x y d e = absurd (ground (arith, ap (is_listed d) (sym (empty b x y)) ∙ e))
  enter_all-AreHome (c ∷ cs) b x y d e =
      let old = is_listed d (listed_at b (get_leaf (enter_all where_is is_player cs m) x y)) in
      let now = sym (is_listed-enter_all where_is is_player m r c cs d b x y) ∙ e in
      elim (Bool-cases old) [
        | inl there ↦ enter_all-AreHome cs b x y d there
        | inr away ↦
            let (same, equal) =
              newcomer-cases old (same_square (where_is c).x (where_is c).y x y)
                (is_there (get_leaf m x y)) (d == c) (is_wanted b (is_player c)) now away in
            let one_creature : d ≡ c = ground (arith, equal) in
            rw one_creature (same_square-sym (where_is c).x (where_is c).y x y same)
      ]

  -- A creature is listed at home if it has come, and there is a leaf.
  is_listed-home :
      (cs : List ℕ) (b : Bool) (d : ℕ)
      → is_listed d
          (listed_at b (get_leaf (enter_all where_is is_player cs m) (where_is d).x (where_is d).y))
        ≡ (is_there (get_leaf m (where_is d).x (where_is d).y)
            && (is_listed d cs && is_wanted b (is_player d)))
  unfolding enter_all is_listed
  is_listed-home [] b d = ap (is_listed d) (empty b (where_is d).x (where_is d).y) ∙ ground arith
  is_listed-home (c ∷ cs) b d =
      is_listed-enter_all where_is is_player m r c cs d b (where_is d).x (where_is d).y
      ∙ rw (is_listed-home cs b d) (
          newcomer-eq (is_there (get_leaf m (where_is d).x (where_is d).y)) (is_listed d cs)
            (d == c) (is_wanted b (is_player c)) (is_wanted b (is_player d))
            (same_square (where_is c).x (where_is c).y (where_is d).x (where_is d).y)
            (λ equal.
              let one_creature : d ≡ c = ground (arith, equal) in
              (
                rw one_creature (same_square-same (where_is c).x (where_is c).y),
                rw one_creature refl,
              )))

module _ {ℓ} {T : Type ℓ} (merge : T → T → T) (where_is : ℕ → Position) (is_player : ℕ → Bool) where
  -- Whatever tiles are set on an empty map, at positions of 16 bits, and whatever creatures then
  -- come, a creature whose position has 16 bits is among the spectators of a position, on any
  -- range, exactly where it is in the range, it has come to a leaf that is there, and it is a
  -- player where only players are asked for.
  pub is_listed-get_spectators-enter_all :
      (ps : List (Placement T)) (cs : List ℕ) (center : Position) (g : Range) (b : Bool) (c : ℕ)
      → All (λ p. is_position p ≡ true) ps
      → (where_is c).x < 0x1_0000
      → (where_is c).y < 0x1_0000
      → is_listed c (
          get_spectators where_is center g b (enter_all where_is is_player cs (set_tiles merge ps)))
        ≡ (is_seen center g (where_is c)
            && (is_there (get_leaf (set_tiles merge ps) (where_is c).x (where_is c).y)
                && (is_listed c cs && is_wanted b (is_player c))))
  is_listed-get_spectators-enter_all ps cs center g b c h small_x small_y =
      let m = set_tiles merge ps in
      let r = set_tiles-IsRooted merge ps in
      let empty = listed_at-set_tiles merge ps in
      is_listed-get_spectators (enter_all where_is is_player cs m)
        (enter_all-IsRooted where_is is_player m r cs)
        (enter_all-IsWoven where_is is_player m r cs (set_tiles-IsWoven merge ps h)) where_is b
        (enter_all-AreHome where_is is_player m r empty cs b) center g c small_x small_y
      ∙ ap (λ k. is_seen center g (where_is c) && k)
          (is_listed-home where_is is_player m r empty cs b c)
