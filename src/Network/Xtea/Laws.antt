-- ===== src/Network/Xtea/Laws.antt =====
-- Decryption inverts encryption, for every key, length and content that the memory holds.
use asca_ci.Base.{
  ℕ, zero, suc, ◌+◌, ◌*◌, ◌≤◌, ◌<◌, ◌/◌, ◌≡◌, refl, ap, subst, ◌∙◌, List, ◌∷◌, Option, none, some,
  arith, All, length,
}
use asca_ci.Base.Bits.{u32}
use asca_ci.Network.Xtea.{
  Halves, load32, store, apply_blocks, apply_rounds, delta, encrypt_round, decrypt_round, sub32,
  encrypt_loop, decrypt_loop, encrypt, decrypt, ◌>>=◌,
}
use asca_ci.Network.Xtea.Words.{
  IsByte, IsWords, load32-bytes, store-load32, load32-IsWords, store-bytes,
}

-- `g` undoes `f` on 32-bit halves.
abbrev Undoes : (Halves → Halves) → (Halves → Halves) → Type 0
Undoes f g = (w : Halves) → IsWords w → IsWords (f w) × (g (f w) ≡ w)

-- A pass with `there` gives bytes of the same number, and a pass with `back` restores the memory.
pub record Restores (there back : List ℕ → Option (List ℕ)) (bytes : List ℕ) : Type 0 where
  pub out : List ℕ
  pub returns : there bytes ≡ some out
  pub same_length : length out ≡ length bytes
  pub bytes_out : All IsByte out
  pub restores : back out ≡ some bytes

module _ (f g : Halves → Halves) (undo : Undoes f g) where
  store-Restores :
      (n : ℕ) (a b c d e f' g' h : ℕ) (rest : List ℕ)
      → All IsByte (a ∷ b ∷ c ∷ d ∷ e ∷ f' ∷ g' ∷ h ∷ rest)
      → Restores (apply_blocks f n) (apply_blocks g n) rest
      → Restores
          (apply_blocks f (suc n))
          (apply_blocks g (suc n))
          (a ∷ b ∷ c ∷ d ∷ e ∷ f' ∷ g' ∷ h ∷ rest)
  unfolding apply_blocks store
  store-Restores n a b c d e f' g' h rest (ha, (hb, (hc, (hd, (he, (hf, (hg, (hh, hr)))))))) r =
      let w : Halves = record { left = load32 a b c d; right = load32 e f' g' h } in
      let words : IsWords w = load32-IsWords a b c d e f' g' h ha hb hc hd he hf hg hh in
      let (fits, back) = undo w words in
      record {
        out = store (f w) r.out;
        returns = rw r.returns;
        same_length = omega (arith, r.same_length);
        bytes_out = store-bytes (f w) r.out r.bytes_out;
        restores =
            rw (r.restores, load32-bytes (f w).left fits.0, load32-bytes (f w).right fits.1)
              (ap (λ v. some (store v rest)) back
                ∙ ap some (store-load32 a b c d e f' g' h ha hb hc hd he hf hg hh rest));
      }

  apply_blocks-Restores :
      (n : ℕ) (bytes : List ℕ)
      → n * 8 ≤ length bytes
      → All IsByte bytes
      → Restores (apply_blocks f n) (apply_blocks g n) bytes
  unfolding apply_blocks
  apply_blocks-Restores zero bytes fits h = record {
    out = bytes;
    returns = refl;
    same_length = refl;
    bytes_out = h;
    restores = refl;
  }
  apply_blocks-Restores (suc n) (a ∷ b ∷ c ∷ d ∷ e ∷ f' ∷ g' ∷ h ∷ rest) fits bs =
      store-Restores n a b c d e f' g' h rest bs
        (apply_blocks-Restores n rest (omega arith) bs.1.1.1.1.1.1.1.1)
  apply_blocks-Restores (suc n) _ fits bs = absurd (omega arith)

sub32-add : (a x : ℕ) → a < 0x1_0000_0000 → sub32 (u32 (a + x)) x ≡ a
sub32-add a x h = omega arith

round-Undoes :
    (k : List ℕ) (sum next_sum : ℕ)
    → Undoes (encrypt_round k sum next_sum) (decrypt_round k next_sum sum)
unfolding encrypt_round decrypt_round
round-Undoes k sum next_sum w (hl, hr) =
    (omega arith, rw (sub32-add w.right _ hr, sub32-add w.left _ hl))

-- The counter of the rounds after `n` of them.
abbrev up : ℕ → ℕ → ℕ
up zero sum = sum
up (suc n) sum = u32 (up n sum + delta)

up-lt : (n sum : ℕ) → sum < 0x1_0000_0000 → up n sum < 0x1_0000_0000
up-lt zero sum h = h
up-lt (suc n) sum h = omega arith

up-suc : (n sum : ℕ) → up n (u32 (sum + delta)) ≡ up (suc n) sum
up-suc zero sum = refl
up-suc (suc n) sum = ap (λ t. u32 (t + delta)) (up-suc n sum)

bind_some : (m : Option (List ℕ)) → (m >>= some) ≡ m
bind_some none = refl
bind_some (some x) = refl

bind_step :
    (m : Option (List ℕ)) (f g c : List ℕ → Option (List ℕ))
    → ((x : List ℕ) → f x ≡ (g x >>= c))
    → (m >>= f) ≡ (m >>= g >>= c)
bind_step none f g c h = refl
bind_step (some x) f g c h = h x

module _ (k : List ℕ) (size : ℕ) where
  pass_back : ℕ → List ℕ → Option (List ℕ)
  pass_back sum = apply_rounds (decrypt_round k (u32 (sum + delta)) sum) size

  -- The last round of the decryption works with the counters that the first of the encryption had.
  decrypt_loop-snoc :
      (n sum : ℕ) (bytes : List ℕ)
      → sum < 0x1_0000_0000
      → decrypt_loop k size (suc n) (up (suc n) sum) (sub32 (up (suc n) sum) delta) bytes ≡ (
          decrypt_loop k size n (up (suc n) sum) (sub32 (up (suc n) sum) delta) bytes
          >>= pass_back sum)
  unfolding decrypt_loop pass_back
  decrypt_loop-snoc zero sum bytes h = rw (sub32-add sum delta h) (bind_some (pass_back sum bytes))
  decrypt_loop-snoc (suc n) sum bytes h =
      rw (sub32-add (up (suc n) sum) delta (up-lt (suc n) sum h))
        (bind_step _ _ _ _ (λ bytes'. decrypt_loop-snoc n sum bytes' h))

  -- One round over all blocks.
  pass-Restores :
      (sum : ℕ) (bytes : List ℕ)
      → (size + 7) / 8 * 8 ≤ length bytes
      → All IsByte bytes
      → Restores (apply_rounds (encrypt_round k sum (u32 (sum + delta))) size) (pass_back sum) bytes
  unfolding apply_rounds pass_back
  pass-Restores sum bytes fits h =
      apply_blocks-Restores _ _ (round-Undoes k sum (u32 (sum + delta))) ((size + 7) / 8) bytes fits
        h

  -- `n` rounds of decryption undo `n` rounds of encryption.
  loops-Restores :
      (n sum : ℕ) (bytes : List ℕ)
      → sum < 0x1_0000_0000
      → (size + 7) / 8 * 8 ≤ length bytes
      → All IsByte bytes
      → Restores
          (encrypt_loop k size n sum (u32 (sum + delta)))
          (decrypt_loop k size n (up n sum) (sub32 (up n sum) delta))
          bytes
  unfolding encrypt_loop
  loops-Restores zero sum bytes small fits h = record {
    out = bytes;
    returns = refl;
    same_length = refl;
    bytes_out = h;
    restores = unfold decrypt_loop in refl;
  }
  loops-Restores (suc n) sum bytes small fits h =
      let first = pass-Restores sum bytes fits h in
      let rest =
        loops-Restores n (u32 (sum + delta)) first.out (omega arith) (rw first.same_length fits)
          first.bytes_out in
      record {
        out = rest.out;
        returns = rw first.returns rest.returns;
        same_length = rest.same_length ∙ first.same_length;
        bytes_out = rest.bytes_out;
        restores =
            decrypt_loop-snoc n sum rest.out small
            ∙ ap (λ m. m >>= pass_back sum)
                (subst (λ t. decrypt_loop k size n t (sub32 t delta) rest.out ≡ some first.out)
                  (up-suc n sum) rest.restores)
            ∙ first.restores;
      }

-- Where the memory holds the message rounded up to whole blocks, encryption succeeds, keeps the
-- memory's size and gives bytes; decrypting its result with the same key gives the memory back.
pub encrypt-decrypt-Restores :
    (k : List ℕ) (size : ℕ) (bytes : List ℕ)
    → (size + 7) / 8 * 8 ≤ length bytes
    → All IsByte bytes
    → Restores (λ b. encrypt b size k) (λ b. decrypt b size k) bytes
unfolding encrypt decrypt
encrypt-decrypt-Restores k size bytes fits h = loops-Restores k size 32 0 bytes (omega arith) fits h
