-- ===== src/Network/Xtea/Local.antt =====
-- The cipher changes the whole blocks of the message and nothing behind them.
use asca_ci.Base.{
  ℕ, zero, suc, ◌+◌, ◌*◌, ◌/◌, ◌≡◌, refl, ◌∙◌, ap, List, [], ◌∷◌, ◌++◌, Option, none, some, arith,
  length, Option-cases, inl, inr, sym, some_inj,
}
use asca_ci.Network.Xtea.{
  Halves, store, apply_blocks, apply_rounds, encrypt_loop, decrypt_loop, encrypt, decrypt,
  encrypt_round, decrypt_round, ◌>>=◌, delta, sub32,
}
use asca_ci.Base.Bits.{u32}
use mathlib.Core.Option

abbrev behind : List ℕ → Option (List ℕ) → Option (List ℕ)
behind ys = Option.map (λ xs. xs ++ ys)

-- A function of the memory that works on its first `size` bytes.
pub record IsLocal (size : ℕ) (f : List ℕ → Option (List ℕ)) : Type 0 where
  pub front : (xs ys : List ℕ) → length xs ≡ size → f (xs ++ ys) ≡ behind ys (f xs)
  pub same_length : (xs zs : List ℕ) → f xs ≡ some zs → length zs ≡ length xs

map-store-append :
    (w : Halves) (ys : List ℕ) (m : Option (List ℕ))
    → Option.map (store w) (behind ys m) ≡ behind ys (Option.map (store w) m)
unfolding store
map-store-append w ys none = refl
map-store-append w ys (some zs) = refl

apply_blocks-append :
    (round : Halves → Halves) (n : ℕ) (xs ys : List ℕ)
    → length xs ≡ n * 8
    → apply_blocks round n (xs ++ ys) ≡ behind ys (apply_blocks round n xs)
unfolding apply_blocks
apply_blocks-append round zero [] ys h = refl
apply_blocks-append round zero (x ∷ xs) ys h = absurd (omega arith)
apply_blocks-append round (suc n) (a ∷ b ∷ c ∷ d ∷ e ∷ f ∷ g ∷ h ∷ rest) ys size =
    rw (apply_blocks-append round n rest ys (omega arith)) (map-store-append _ ys _)
apply_blocks-append round (suc n) _ ys size = absurd (omega arith)

apply_blocks-length :
    (round : Halves → Halves) (n : ℕ) (xs zs : List ℕ)
    → apply_blocks round n xs ≡ some zs
    → length zs ≡ length xs
unfolding apply_blocks store
apply_blocks-length round zero xs zs e = ground (arith, e)
apply_blocks-length round (suc n) (a ∷ b ∷ c ∷ d ∷ e ∷ f ∷ g ∷ h ∷ rest) zs p =
    elim (Option-cases (apply_blocks round n rest)) [
      | inl stuck ↦ let none_is_some = rw stuck at p in cc
      | inr (back, done) ↦
          omega
            (arith, ap length (some_inj (rw done at p)), apply_blocks-length round n rest back done)
    ]
apply_blocks-length round (suc n) _ zs p = cc

-- Two such passes in a row are one.
IsLocal-bind :
    {size : ℕ} (f g : List ℕ → Option (List ℕ))
    → IsLocal size f
    → IsLocal size g
    → IsLocal size (λ x. f x >>= g)
IsLocal-bind f g lf lg = record {
  front = λ xs ys e. elim (Option-cases (f xs)) [
    | inl stuck ↦ rw (lf.front xs ys e, stuck)
    | inr (zs, done) ↦ rw (lf.front xs ys e, done) (lg.front zs ys (lf.same_length xs zs done ∙ e))
  ];
  same_length = λ xs zs p. elim (Option-cases (f xs)) [
    | inl stuck ↦ let none_is_some = rw stuck at p in cc
    | inr (us, done) ↦ lg.same_length us zs (rw done at p) ∙ lf.same_length xs us done
  ];
}

module _ (k : List ℕ) (n : ℕ) where
  apply_rounds-IsLocal : (round : Halves → Halves) → IsLocal (n * 8) (apply_rounds round (n * 8))
  unfolding apply_rounds
  apply_rounds-IsLocal round =
      let e : (n * 8 + 7) / 8 ≡ n = omega arith in
      record {
        front = λ xs ys h. rw e (apply_blocks-append round n xs ys h);
        same_length = λ xs zs p. apply_blocks-length round _ xs zs p;
      }

  encrypt_loop-IsLocal :
      (rounds sum next_sum : ℕ) → IsLocal (n * 8) (encrypt_loop k (n * 8) rounds sum next_sum)
  unfolding encrypt_loop
  encrypt_loop-IsLocal zero sum next_sum = record {
    front = λ xs ys e. refl;
    same_length = λ xs zs p. ap length (sym (some_inj p));
  }
  encrypt_loop-IsLocal (suc rounds) sum next_sum =
      IsLocal-bind _ _ (apply_rounds-IsLocal (encrypt_round k sum next_sum))
        (encrypt_loop-IsLocal rounds next_sum (u32 (next_sum + delta)))

  decrypt_loop-IsLocal :
      (rounds sum next_sum : ℕ) → IsLocal (n * 8) (decrypt_loop k (n * 8) rounds sum next_sum)
  unfolding decrypt_loop
  decrypt_loop-IsLocal zero sum next_sum = record {
    front = λ xs ys e. refl;
    same_length = λ xs zs p. ap length (sym (some_inj p));
  }
  decrypt_loop-IsLocal (suc rounds) sum next_sum =
      IsLocal-bind _ _ (apply_rounds-IsLocal (decrypt_round k sum next_sum))
        (decrypt_loop-IsLocal rounds next_sum (sub32 next_sum delta))

  pub encrypt-IsLocal : IsLocal (n * 8) (λ bytes. encrypt bytes (n * 8) k)
  unfolding encrypt
  encrypt-IsLocal = encrypt_loop-IsLocal 32 0 _

  pub decrypt-IsLocal : IsLocal (n * 8) (λ bytes. decrypt bytes (n * 8) k)
  unfolding decrypt
  decrypt-IsLocal = decrypt_loop-IsLocal 32 _ _
