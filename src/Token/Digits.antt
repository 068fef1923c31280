-- ===== src/Token/Digits.antt =====
-- Which tokens there are.
use asca_ci.Base.{
  ℕ, zero, suc, ◌+◌, ◌-◌, ◌*◌, ◌/◌, ◌%◌, ◌≤◌, ◌<◌, ◌≡◌, refl, ap, ◌∙◌, sym, List, [], ◌∷◌, ◌++◌,
  none, some, ltb, length, length-append, drop, append_assoc, append-nil, if◌then◌else◌, Bool-cases,
  inl, inr, arith,
}
use asca_ci.Token.{digits, to_string, last_of, generate_token, truncate_hash, counter_bytes}

-- Exactly the last `n` decimal digits of a number, with leading zeros.
unfoldable pub last_digits : ℕ → ℕ → List ℕ
last_digits zero v = []
last_digits (suc n) v = last_digits n (v / 10) ++ (v % 10 + 48) ∷ []

abbrev pub power_of_ten : ℕ → ℕ
power_of_ten zero = 1
power_of_ten (suc k) = 10 * power_of_ten k

length-last_digits : (n v : ℕ) → length (last_digits n v) ≡ n
unfolding last_digits
length-last_digits zero v = refl
length-last_digits (suc n) v =
    length-append (last_digits n (v / 10)) ((v % 10 + 48) ∷ [])
    ∙ omega (arith, length-last_digits n (v / 10))

length-digits_pos : (f v : ℕ) → 0 < f → 0 < length (digits f v)
unfolding digits
length-digits_pos zero v h = absurd (omega (arith, h))
length-digits_pos (suc f) v h = elim (Bool-cases (ltb v 10)) [
  | inl small ↦ rw small (omega arith)
  | inr big ↦ rw big (omega (arith, length-append (digits f (v / 10)) ((v % 10 + 48) ∷ [])))
]

power_of_ten_pos : (k : ℕ) → 0 < power_of_ten k
power_of_ten_pos zero = omega arith
power_of_ten_pos (suc k) = omega (arith, power_of_ten_pos k)

digits-last_digits : (f v : ℕ) → v < f → digits f v ≡ last_digits (length (digits f v)) v
unfolding digits last_digits
digits-last_digits zero v h = absurd (omega (arith, h))
digits-last_digits (suc f) v h = elim (Bool-cases (ltb v 10)) [
  | inl small ↦ let e : v % 10 ≡ v = ground (arith, small) in rw (small, e) refl
  | inr big ↦
      let shorter : v / 10 < f = ground (arith, h, big) in
      let grown : length (digits f (v / 10) ++ (v % 10 + 48) ∷ [])
          ≡ suc (length (digits f (v / 10))) =
        length-append (digits f (v / 10)) ((v % 10 + 48) ∷ []) ∙ omega arith in
      rw (big, grown) (ap (λ ds. ds ++ (v % 10 + 48) ∷ []) (digits-last_digits f (v / 10) shorter))
]

length-digits :
    (k f v : ℕ) → v < f → ltb (length (digits f v)) (k + 2) ≡ ltb v (10 * power_of_ten k)
unfolding digits
length-digits k zero v h = absurd (omega (arith, h))
length-digits zero (suc f) v h = elim (Bool-cases (ltb v 10)) [
  | inl small ↦ rw small (ground (arith, small))
  | inr big ↦
      let more = length-digits_pos f (v / 10) (ground (arith, h, big)) in
      rw big (ground (arith, length-append (digits f (v / 10)) ((v % 10 + 48) ∷ []), more, big))
]
length-digits (suc k) (suc f) v h = elim (Bool-cases (ltb v 10)) [
  | inl small ↦ rw small (ground (arith, small, power_of_ten_pos k))
  | inr big ↦
      let shorter : v / 10 < f = ground (arith, h, big) in
      rw big (
        ground (
          arith,
          length-append (digits f (v / 10)) ((v % 10 + 48) ∷ []),
          length-digits k f (v / 10) shorter,
        ))
]

drop-append : (ds xs : List ℕ) (m : ℕ) → length ds ≡ m → drop m (ds ++ xs) ≡ xs
drop-append [] xs zero e = refl
drop-append [] xs (suc m) e = absurd (omega (arith, e))
drop-append (d ∷ ds) xs zero e = absurd (omega (arith, e))
drop-append (d ∷ ds) xs (suc m) e = drop-append ds xs m (omega (arith, e))

-- More digits stand in front.
last_digits-more :
    (n k m v : ℕ)
    → k ≡ m + n
    → (ds : List ℕ) × (length ds ≡ m) × (last_digits k v ≡ ds ++ last_digits n v)
unfolding last_digits
last_digits-more zero k m v e =
    (last_digits k v, length-last_digits k v ∙ omega (arith, e), sym (append-nil (last_digits k v)))
last_digits-more (suc n) zero m v e = absurd (omega (arith, e))
last_digits-more (suc n) (suc k) m v e =
    let (ds, size, split) = last_digits-more n k m (v / 10) (omega (arith, e)) in
    (
      ds,
      size,
      ap (λ xs. xs ++ (v % 10 + 48) ∷ []) split
          ∙ append_assoc ds (last_digits n (v / 10)) ((v % 10 + 48) ∷ []),
    )

drop-last_digits : (n k v : ℕ) → n ≤ k → drop (k - n) (last_digits k v) ≡ last_digits n v
drop-last_digits n k v h =
    let (ds, size, split) = last_digits-more n k (k - n) v (omega (arith, h)) in
    ap (drop (k - n)) split ∙ drop-append ds (last_digits n v) (k - n) size

last_of-to_string :
    (k v : ℕ)
    → last_of (k + 2) (to_string v)
      ≡ (if ltb v (10 * power_of_ten k) then none else some (last_digits (k + 2) v))
unfolding last_of to_string
last_of-to_string k v =
    let size = length-digits k (suc v) v (omega arith) in
    elim (Bool-cases (ltb v (10 * power_of_ten k))) [
      | inl few ↦ let short = size ∙ few in rw (few, short) refl
      | inr many ↦
          let long = size ∙ many in
          let all = digits-last_digits (suc v) v (omega arith) in
          rw (many, long)
            (ap some (
              ap (drop (length (digits (suc v) v) - (k + 2))) all
              ∙ drop-last_digits (k + 2) (length (digits (suc v) v)) v (ground (arith, long))))
    ]

-- Of a token of `k + 2` digits: where the truncated hash is below 10 to the power `k + 1`, there is
-- none, since the text is shorter than the token and an exception is thrown; else the token is
-- the last `k + 2` decimal digits of the hash, with leading zeros.
pub generate_token-last_digits :
    (hmac : List ℕ → List ℕ → List ℕ) (key : List ℕ) (counter k : ℕ)
    → generate_token hmac key counter (k + 2) ≡ (
        if ltb (truncate_hash (hmac key (counter_bytes counter))) (10 * power_of_ten k)
        then none
        else some (last_digits (k + 2) (truncate_hash (hmac key (counter_bytes counter)))))
unfolding generate_token
generate_token-last_digits hmac key counter k =
    last_of-to_string k (truncate_hash (hmac key (counter_bytes counter)))
