-- ===== src/Network/Message/Slices.antt =====
-- Memory in parts: joined slices, and what a write leaves behind it.
use asca_ci.Base.{
  ℕ, zero, suc, ◌+◌, ◌≤◌, ◌≡◌, refl, sym, ap, subst, ◌∙◌, List, [], ◌∷◌, ◌++◌, arith, length,
  length-append, length-take, take, drop, take-append-drop,
}
use asca_ci.Network.Message.Buffer.{write_at, Holds, drop-drop}
use Prim.Native.Nat.add

drop-write_after :
    (buf : List ℕ) (q n : ℕ) (bytes : List ℕ)
    → q + length bytes ≤ n
    → drop n (write_at buf q bytes) ≡ drop n buf
unfolding write_at
drop-write_after [] q n bytes h = refl
drop-write_after (x ∷ xs) zero n [] h = refl
drop-write_after (x ∷ xs) zero zero (b ∷ bytes) h = absurd (omega arith)
drop-write_after (x ∷ xs) zero (suc n) (b ∷ bytes) h =
    drop-write_after xs zero n bytes (omega arith)
drop-write_after (x ∷ xs) (suc q) zero bytes h = absurd (omega arith)
drop-write_after (x ∷ xs) (suc q) (suc n) bytes h = drop-write_after xs q n bytes (omega arith)

-- A write leaves what lies behind it.
pub Holds-write_after :
    (buf : List ℕ) (q : ℕ) (bytes : List ℕ) (n : ℕ) (xs : List ℕ)
    → q + length bytes ≤ n
    → Holds buf n xs
    → Holds (write_at buf q bytes) n xs
Holds-write_after buf q bytes n xs h held = rw (drop-write_after buf q n bytes h) held

drop-append : (xs ys : List ℕ) → drop (length xs) (xs ++ ys) ≡ ys
drop-append [] ys = refl
drop-append (x ∷ xs) ys = drop-append xs ys

take-add : (a b : ℕ) (zs : List ℕ) → take (a + b) zs ≡ take a zs ++ take b (drop a zs)
take-add zero b zs = rw add.zero
take-add (suc a) zero [] = rw add.suc
take-add (suc a) (suc b) [] = rw add.suc
take-add (suc a) b (z ∷ zs) = rw add.suc (ap (◌∷◌ z) (take-add a b zs))

-- Two lists that stand one behind the other.
pub Holds-join :
    (buf : List ℕ) (p : ℕ) (xs ys : List ℕ)
    → Holds buf p xs
    → Holds buf (p + length xs) ys
    → Holds buf p (xs ++ ys)
Holds-join buf p xs ys hx hy =
    let hy' = rw (← drop-drop p (length xs) buf) at hy in
    rw (length-append xs ys, take-add (length xs) (length ys) (drop p buf), hx, hy')

-- What stands from an offset on, and the rest of the memory.
pub drop-Holds :
    (buf : List ℕ) (p : ℕ) (xs : List ℕ)
    → Holds buf p xs
    → drop p buf ≡ xs ++ drop (length xs) (drop p buf)
drop-Holds buf p xs h =
    sym (take-append-drop (length xs) (drop p buf))
    ∙ ap (λ zs. zs ++ drop (length xs) (drop p buf)) h

pub length-take_le : (p : ℕ) (buf : List ℕ) → p ≤ length buf → length (take p buf) ≡ p
length-take_le p buf h = omega (arith, length-take p buf)

-- The memory up to an offset, followed by a list.
pub drop-behind_take :
    (buf : List ℕ) (p : ℕ) (zs : List ℕ) → p ≤ length buf → drop p (take p buf ++ zs) ≡ zs
drop-behind_take buf p zs h =
    subst (λ n. drop n (take p buf ++ zs) ≡ zs) (length-take_le p buf h)
      (drop-append (take p buf) zs)

take-append_self : (xs ys : List ℕ) → take (length xs) (xs ++ ys) ≡ xs
take-append_self [] ys = refl
take-append_self (x ∷ xs) ys = ap (◌∷◌ x) (take-append_self xs ys)

pub Holds-behind_take :
    (buf : List ℕ) (p : ℕ) (xs ys : List ℕ) → p ≤ length buf → Holds (take p buf ++ (xs ++ ys)) p xs
Holds-behind_take buf p xs ys h = rw (drop-behind_take buf p (xs ++ ys) h) (take-append_self xs ys)
