-- ===== src/Network/Message/Buffer.antt =====
-- Memory as a list of bytes: `memcpy` into it, a read out of it, and numbers as bytes.
use asca_ci.Base.{
  ℕ, zero, suc, ◌+◌, ◌*◌, ◌/◌, ◌%◌, ◌^◌, ◌≤◌, ◌<◌, ◌≡◌, refl, ap, List, [], ◌∷◌, ◌++◌, arith,
  length, length-append, take, drop, get_or,
}
use Prim.Native.Nat.add
use native.Mathlib.Nat.{pow-suc, zero-add}

-- Bytes put at an offset; what lies past the end of the memory is lost.
unfoldable pub write_at : List ℕ → ℕ → List ℕ → List ℕ
write_at [] p bytes = []
write_at (x ∷ xs) zero [] = x ∷ xs
write_at (x ∷ xs) zero (b ∷ bytes) = b ∷ write_at xs zero bytes
write_at (x ∷ xs) (suc p) bytes = x ∷ write_at xs p bytes

-- The `n` bytes at an offset.
abbrev pub slice : ℕ → ℕ → List ℕ → List ℕ
slice p n buf = take n (drop p buf)

unfoldable pub le_bytes : ℕ → ℕ → List ℕ
le_bytes zero v = []
le_bytes (suc n) v = (v % 0x100) ∷ le_bytes n (v / 0x100)

unfoldable pub le_value : List ℕ → ℕ
le_value [] = 0
le_value (b ∷ bytes) = b + 0x100 * le_value bytes

pub length-le_bytes : (n v : ℕ) → length (le_bytes n v) ≡ n
unfolding le_bytes
length-le_bytes zero v = refl
length-le_bytes (suc n) v = ap suc (length-le_bytes n (v / 0x100))

pub le_value-le_bytes : (n v : ℕ) → v < 0x100 ^ n → le_value (le_bytes n v) ≡ v
unfolding le_bytes le_value
le_value-le_bytes zero v h = omega arith
le_value-le_bytes (suc n) v h =
    omega (arith, pow-suc 0x100 n, le_value-le_bytes n (v / 0x100) (omega (arith, pow-suc 0x100 n)))

pub length-write_at :
    (buf : List ℕ) (p : ℕ) (bytes : List ℕ) → length (write_at buf p bytes) ≡ length buf
unfolding write_at
length-write_at [] p bytes = refl
length-write_at (x ∷ xs) zero [] = refl
length-write_at (x ∷ xs) zero (b ∷ bytes) = ap suc (length-write_at xs zero bytes)
length-write_at (x ∷ xs) (suc p) bytes = ap suc (length-write_at xs p bytes)

-- What was written is read back, where it lies within the memory.
pub slice-write_at :
    (buf : List ℕ) (p : ℕ) (bytes : List ℕ)
    → p + length bytes ≤ length buf
    → slice p (length bytes) (write_at buf p bytes) ≡ bytes
unfolding write_at
slice-write_at [] zero [] h = refl
slice-write_at [] zero (b ∷ bytes) h = absurd (omega arith)
slice-write_at [] (suc p) bytes h = absurd (omega arith)
slice-write_at (x ∷ xs) zero [] h = refl
slice-write_at (x ∷ xs) zero (b ∷ bytes) h = ap (◌∷◌ b) (slice-write_at xs zero bytes (omega arith))
slice-write_at (x ∷ xs) (suc p) bytes h = slice-write_at xs p bytes (omega arith)

-- A write leaves what lies before it.
pub slice-write_before :
    (buf : List ℕ) (p n q : ℕ) (bytes : List ℕ)
    → p + n ≤ q
    → slice p n (write_at buf q bytes) ≡ slice p n buf
unfolding write_at
slice-write_before [] p n q bytes h = refl
slice-write_before (x ∷ xs) zero zero q bytes h = refl
slice-write_before (x ∷ xs) zero (suc n) zero bytes h = absurd (omega arith)
slice-write_before (x ∷ xs) zero (suc n) (suc q) bytes h =
    ap (◌∷◌ x) (slice-write_before xs zero n q bytes (omega arith))
slice-write_before (x ∷ xs) (suc p) n zero bytes h = absurd (omega arith)
slice-write_before (x ∷ xs) (suc p) n (suc q) bytes h =
    slice-write_before xs p n q bytes (omega arith)

-- Two writes in a row are one.
pub write_at-append :
    (buf : List ℕ) (p : ℕ) (xs ys : List ℕ)
    → write_at (write_at buf p xs) (p + length xs) ys ≡ write_at buf p (xs ++ ys)
unfolding write_at
write_at-append [] p xs ys = refl
write_at-append (x ∷ buf) zero [] ys = refl
write_at-append (x ∷ buf) zero (b ∷ xs) ys =
    rw zero-add (ap (◌∷◌ b) (rw zero-add at (write_at-append buf zero xs ys)))
write_at-append (x ∷ buf) (suc p) xs ys = rw add.suc (ap (◌∷◌ x) (write_at-append buf p xs ys))

-- A prefix that is two lists in a row is each of them.
take-append_inv :
    (zs xs ys : List ℕ)
    → take (length xs + length ys) zs ≡ xs ++ ys
    → (take (length xs) zs ≡ xs) × (take (length ys) (drop (length xs) zs) ≡ ys)
take-append_inv zs [] ys h = (refl, rw add.zero at h)
take-append_inv [] (x ∷ xs) ys h = let e : [] ≡ x ∷ (xs ++ ys) = rw add.suc at h in cc
take-append_inv (z ∷ zs) (x ∷ xs) ys h =
    let e : z ∷ take (length xs + length ys) zs ≡ x ∷ (xs ++ ys) = rw add.suc at h in
    let rest = take-append_inv zs xs ys (cc) in (cc, rest.1)

pub drop-drop : (p n : ℕ) (buf : List ℕ) → drop n (drop p buf) ≡ drop (p + n) buf
drop-drop zero n buf = rw add.zero
drop-drop (suc p) zero [] = rw add.suc
drop-drop (suc p) (suc n) [] = rw add.suc
drop-drop (suc p) n (x ∷ buf) = rw add.suc (drop-drop p n buf)

-- The bytes `bytes` stand in the memory from an offset on.
abbrev pub Holds : List ℕ → ℕ → List ℕ → Type 0
Holds buf p bytes = slice p (length bytes) buf ≡ bytes

pub Holds-append :
    (buf : List ℕ) (p : ℕ) (xs ys : List ℕ)
    → Holds buf p (xs ++ ys)
    → Holds buf p xs × Holds buf (p + length xs) ys
Holds-append buf p xs ys h =
    let (front, back) = take-append_inv (drop p buf) xs ys (rw length-append at h) in
    (front, rw (drop-drop p (length xs) buf) at back)

pub get_or-Holds : (buf : List ℕ) (p b d : ℕ) → Holds buf p (b ∷ []) → get_or buf p d ≡ b
get_or-Holds [] zero b d h = cc
get_or-Holds [] (suc p) b d h = cc
get_or-Holds (x ∷ buf) zero b d h = cc
get_or-Holds (x ∷ buf) (suc p) b d h = get_or-Holds buf p b d h

pub write_at-nil : (buf : List ℕ) (p : ℕ) → write_at buf p [] ≡ buf
unfolding write_at
write_at-nil [] p = refl
write_at-nil (x ∷ xs) zero = refl
write_at-nil (x ∷ xs) (suc p) = ap (◌∷◌ x) (write_at-nil xs p)
