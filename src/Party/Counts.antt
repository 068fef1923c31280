-- ===== src/Party/Counts.antt =====
-- Lists of players and of parties by how often each stands in them.
use asca_ci.Base.Counts.{count, count-remove, remove}
use asca_ci.Base.{
  update, ℕ, ◌≡◌, refl, false, List, [], ◌∷◌, Option, none, ◌==◌, if◌then◌else◌, arith,
}
use asca_ci.Party.{uninvite_all, clear_all}

-- An update seen at one key.
pub update_self : {A : Type 0} (f : ℕ → A) (k : ℕ) (a : A) → update f k a k ≡ a
unfolding update
update_self f k a = ground arith

pub update-other :
    {A : Type 0} (f : ℕ → A) (k : ℕ) (a : A) (j : ℕ) → (k == j) ≡ false → update f k a j ≡ f j
unfolding update
update-other f k a j h = rw h refl

-- The loops of `disband`, by player.
pub clear_all_lem :
    (qs : List ℕ) (f : ℕ → Option ℕ) (p : ℕ)
    → clear_all qs f p ≡ (if count p qs == 0 then f p else none)
unfolding clear_all update
clear_all_lem [] f p = refl
clear_all_lem (q ∷ qs) f p = ground (arith, clear_all_lem qs (update f q none) p)

pub uninvite_all_lem :
    (i : ℕ) (qs : List ℕ) (f : ℕ → List ℕ) (p j : ℕ)
    → count j (uninvite_all i qs f p)
      ≡ (if count p qs == 0 then count j (f p) else if i == j then 0 else count j (f p))
unfolding uninvite_all update
uninvite_all_lem i [] f p j = refl
uninvite_all_lem i (q ∷ qs) f p j =
    ground (arith, uninvite_all_lem i qs (update f q (remove i (f q))) p j, count-remove j i (f q))
