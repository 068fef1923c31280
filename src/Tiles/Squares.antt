-- ===== src/Tiles/Squares.antt =====
-- Two positions lead to one leaf exactly where they lie in one square of eight by eight.
use native.Mathlib.Nat.{mul-div-mul_left, add-mul-div_right, div-lt_iff_lt-mul, mul_assoc, mul_comm}
use asca_ci.Base.Bits.{u16}
use asca_ci.Base.{
  ℕ, zero, suc, ◌+◌, ◌*◌, ◌/◌, ◌%◌, ◌<◌, ◌≡◌, refl, sym, ap, ◌∙◌, Bool, true, ◌==◌, ◌&&◌, subst,
  arith,
}
use asca_ci.Tiles.Leaves.{same_leaf}
use asca_ci.Tiles.{is_high, double, same_bool}

-- The bits of one axis.
unfoldable same_bits : ℕ → ℕ → ℕ → Bool
same_bits zero x x' = true
same_bits (suc d) x x' = same_bool (is_high x) (is_high x') && same_bits d (double x) (double x')

-- The low bits of twice a number.
low_double : (w x : ℕ) → 0 < w → u16 (double x) / (2 * w) ≡ x % 0x8000 / w
low_double w x h =
    let twice : u16 (double x) ≡ 2 * (x % 0x8000) = omega arith in
    ap (λ m. m / (2 * w)) twice ∙ mul-div-mul_left (x % 0x8000) w (omega arith)

-- The highest bit and those below it.
high_low : (w k x : ℕ) → 0 < w → w * k ≡ 0x8000 → u16 x / w ≡ x % 0x8000 / w + x / 0x8000 % 2 * k
high_low w k x h e =
    let b = x / 0x8000 % 2 in
    let parts : u16 x ≡ x % 0x8000 + b * 0x8000 = omega arith in
    let shared : b * k * w ≡ b * 0x8000 = mul_assoc b k w ∙ ap (λ m. b * m) (mul_comm k w ∙ e) in
    ap (λ m. m / w) (parts ∙ ap (λ m. x % 0x8000 + m) (sym shared))
    ∙ add-mul-div_right (x % 0x8000) (b * k) h

low_below : (w k x : ℕ) → 0 < w → w * k ≡ 0x8000 → x % 0x8000 / w < k
low_below w k x h e =
    let small : x % 0x8000 < 0x8000 = omega arith in
    (div-lt_iff_lt-mul h).1 (subst (λ m. x % 0x8000 < m) (sym (mul_comm k w ∙ e)) small)

digits-eq :
    (b b' r r' k : ℕ)
    → b < 2
    → b' < 2
    → r < k
    → r' < k
    → (same_bool (b == 1) (b' == 1) && r == r') ≡ (r + b * k == r' + b' * k)
digits-eq zero zero r r' k small small' h h' = ground (arith, h, h')
digits-eq zero (suc zero) r r' k small small' h h' = ground (arith, h, h')
digits-eq (suc zero) zero r r' k small small' h h' = ground (arith, h, h')
digits-eq (suc zero) (suc zero) r r' k small small' h h' = ground (arith, h, h')
digits-eq (suc (suc b)) b' r r' k small small' h h' = absurd (omega (arith, small))
digits-eq zero (suc (suc b')) r r' k small small' h h' = absurd (omega (arith, small'))
digits-eq (suc zero) (suc (suc b')) r r' k small small' h h' = absurd (omega (arith, small'))

abbrev power : ℕ → ℕ
power zero = 1
power (suc d) = 2 * power d

-- The bits that are looked at make up the number above a width.
same_bits-eq :
    (d w x x' : ℕ) → 0 < w → w * power d ≡ 0x1_0000 → same_bits d x x' ≡ (u16 x / w == u16 x' / w)
unfolding same_bits
same_bits-eq zero w x x' h e = let all : w ≡ 0x1_0000 = omega (arith, e) in rw all (ground arith)
same_bits-eq (suc d) w x x' h e =
    let k = power d in
    let k2 : 2 * w * k ≡ 0x1_0000 = ap (λ m. m * k) (mul_comm 2 w) ∙ mul_assoc w 2 k ∙ e in
    let k1 : w * k ≡ 0x8000 = omega (arith, mul_assoc 2 w k, k2) in
    ap (λ b. same_bool (is_high x) (is_high x') && b)
      (same_bits-eq d (2 * w) (double x) (double x') (omega (arith, h)) k2
        ∙ rw (low_double w x h, low_double w x' h) refl)
    ∙ digits-eq (x / 0x8000 % 2) (x' / 0x8000 % 2) (x % 0x8000 / w) (x' % 0x8000 / w) k
        (omega arith) (omega arith) (low_below w k x h k1) (low_below w k x' h k1)
    ∙ rw (high_low w k x h k1, high_low w k x' h k1) refl

four : (a b c d : Bool) → ((a && b) && (c && d)) ≡ ((a && c) && (b && d))
four a b c d = ground arith

same_leaf-same_bits :
    (d x y x' y' : ℕ) → same_leaf d x y x' y' ≡ (same_bits d x x' && same_bits d y y')
unfolding same_leaf same_bits
same_leaf-same_bits zero x y x' y' = refl
same_leaf-same_bits (suc d) x y x' y' =
    ap (λ b. (same_bool (is_high x) (is_high x') && same_bool (is_high y) (is_high y')) && b)
      (same_leaf-same_bits d (double x) (double y) (double x') (double y'))
    ∙ four (same_bool (is_high x) (is_high x')) (same_bool (is_high y) (is_high y'))
        (same_bits d (double x) (double x')) (same_bits d (double y) (double y'))

abbrev pub same_square : ℕ → ℕ → ℕ → ℕ → Bool
same_square x y x' y' = (u16 x / 8 == u16 x' / 8) && (u16 y / 8 == u16 y' / 8)

-- The 13 levels of the tree.
pub same_leaf-same_square : (x y x' y' : ℕ) → same_leaf 13 x y x' y' ≡ same_square x y x' y'
same_leaf-same_square x y x' y' =
    same_leaf-same_bits 13 x y x' y'
    ∙ ap (λ b. b && same_bits 13 y y') (same_bits-eq 13 8 x x' (omega arith) refl)
    ∙ ap (λ b. (u16 x / 8 == u16 x' / 8) && b) (same_bits-eq 13 8 y y' (omega arith) refl)
