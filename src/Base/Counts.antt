-- ===== src/Base/Counts.antt =====
-- Lists of numbers by how often each stands in them, with the standard library's `find`, `erase` and
-- `remove`.
use Prim.Native.Nat.{ℕ, ◌+◌, ◌-◌, ◌<◌}
use mathlib.Core.Path.{◌≡◌, refl}
use mathlib.Core.Bool.{Bool, true, false, ◌||◌}
use mathlib.Core.List.{List, [], ◌∷◌, ◌++◌}
use native.Mathlib.Omega.{arith}
use asca_ci.Base.Tests.{◌==◌, if◌then◌else◌}

-- `std::find`, compared with the end.
unfoldable pub elem : ℕ → List ℕ → Bool
elem q [] = false
elem q (x ∷ xs) = x == q || elem q xs

-- `erase` of what `std::find` gives.
unfoldable pub erase : ℕ → List ℕ → List ℕ
erase q [] = []
erase q (x ∷ xs) = let rest = erase q xs in if x == q then xs else x ∷ rest

-- `forward_list::remove`.
unfoldable pub remove : ℕ → List ℕ → List ℕ
remove q [] = []
remove q (x ∷ xs) = let rest = remove q xs in if x == q then rest else x ∷ rest

abbrev pub one : Bool → ℕ
one true = 1
one false = 0

abbrev pub count : ℕ → List ℕ → ℕ
count q [] = 0
count q (x ∷ xs) = one (x == q) + count q xs

pub count-erase : (p q : ℕ) (xs : List ℕ) → count p (erase q xs) ≡ count p xs - one (q == p)
unfolding erase
count-erase p q [] = ground arith
count-erase p q (x ∷ xs) = ground (arith, count-erase p q xs)

pub count-remove :
    (p q : ℕ) (xs : List ℕ) → count p (remove q xs) ≡ (if q == p then 0 else count p xs)
unfolding remove
count-remove p q [] = ground arith
count-remove p q (x ∷ xs) = ground (arith, count-remove p q xs)

pub count-snoc : (p q : ℕ) (xs : List ℕ) → count p (xs ++ q ∷ []) ≡ count p xs + one (q == p)
count-snoc p q [] = ground arith
count-snoc p q (x ∷ xs) = ground (arith, count-snoc p q xs)

pub elem-count : (q : ℕ) (xs : List ℕ) → elem q xs ≡ false → count q xs ≡ 0
unfolding elem
elem-count q [] h = refl
elem-count q (x ∷ xs) h = ground (arith, elem-count q xs, h)

pub count-elem : (q : ℕ) (xs : List ℕ) → elem q xs ≡ true → 0 < count q xs
unfolding elem
count-elem q [] h = absurd (ground (arith, h))
count-elem q (x ∷ xs) h = ground (arith, count-elem q xs, h)
