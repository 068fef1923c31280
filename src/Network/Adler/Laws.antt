-- ===== src/Network/Adler/Laws.antt =====
-- The deferred reduction is exact: no sum of a chunk passes 32 bits.
use asca_ci.Base.{
  ℕ, zero, suc, ◌+◌, ◌*◌, ◌%◌, ◌/◌, ◌≤◌, ◌<◌, ◌≡◌, refl, ◌∙◌, ap, List, [], ◌∷◌, ◌++◌, arith, All,
  length, take, drop, length-take, length-drop, take-append-drop, sym,
}
use asca_ci.Base.Bits.{u32, short-bit_or}
use asca_ci.Network.Adler.{Sums, adler, add_chunk, reduce, add_chunks, checksum, chunk_size}

-- The definition of the checksum: both sums modulo 65521 at every byte.
pub add_byte : ℕ → Sums → Sums
add_byte x s = let a = (s.a + x) % adler in record { a = a; b = (s.b + a) % adler }

pub add_bytes : List ℕ → Sums → Sums
add_bytes [] s = s
add_bytes (x ∷ xs) s = add_bytes xs (add_byte x s)

abbrev pub IsByte : ℕ → Type 0
IsByte n = n < 0x100

-- Twice the largest second sum after `k` bytes of a chunk.
abbrev limit : ℕ → ℕ
limit k = 131040 + 131040 * k + 255 * (k * k + k)

limit-suc : (k : ℕ) → limit (suc k) ≡ limit k + 131040 + 510 * (k + 1)
limit-suc k = omega arith

limit-lt : (k : ℕ) → k ≤ 5552 → limit k < 0x2_0000_0000
limit-lt k h = let square : k * k ≤ 5552 * k = grind arith in omega arith

record Bounded (k : ℕ) (s : Sums) : Type 0 where
  a_bound : s.a ≤ 65520 + 255 * k
  b_bound : 2 * s.b ≤ limit k

-- The sums without the wrap.
add_chunk_free : List ℕ → Sums → Sums
add_chunk_free [] s = s
add_chunk_free (x ∷ xs) s = let a = s.a + x in add_chunk_free xs (record { a = a; b = s.b + a })

add_chunk-free :
    (bytes : List ℕ) (k : ℕ) (s : Sums)
    → All IsByte bytes
    → k + length bytes ≤ 5552
    → Bounded k s
    → add_chunk bytes s ≡ add_chunk_free bytes s
unfolding add_chunk add_chunk_free
add_chunk-free [] k s h room v = refl
add_chunk-free (x ∷ xs) k s h room v =
    let small_a : s.a + x < 0x1_0000_0000 = omega (arith, v.a_bound) in
    let small_b : 2 * (s.b + (s.a + x)) ≤ limit (suc k) =
      omega (arith, v.a_bound, v.b_bound, limit-suc k) in
    let ea : u32 (s.a + x) ≡ s.a + x = omega arith in
    let eb : u32 (s.b + (s.a + x)) ≡ s.b + (s.a + x) =
      omega (arith, limit-lt (suc k) (omega arith)) in
    rw (ea, eb)
      (add_chunk-free xs (suc k) (record { a = s.a + x; b = s.b + (s.a + x) }) h.1 (omega arith)
        (record { a_bound = omega (arith, v.a_bound); b_bound = small_b }))

add_chunk_free-reduce :
    (bytes : List ℕ) (s : Sums) → reduce (add_chunk_free bytes s) ≡ add_bytes bytes (reduce s)
unfolding reduce add_chunk_free add_bytes add_byte
add_chunk_free-reduce [] s = refl
add_chunk_free-reduce (x ∷ xs) s =
    rw (add_chunk_free-reduce xs (record { a = s.a + x; b = s.b + (s.a + x) }))
      (ap (add_bytes xs) (ground arith))

add_bytes-append :
    (xs ys : List ℕ) (s : Sums) → add_bytes (xs ++ ys) s ≡ add_bytes ys (add_bytes xs s)
unfolding add_bytes
add_bytes-append [] ys s = refl
add_bytes-append (x ∷ xs) ys s = add_bytes-append xs ys (add_byte x s)

All-take : (n : ℕ) (xs : List ℕ) → All IsByte xs → All IsByte (take n xs)
All-take zero xs h = tt
All-take (suc n) [] h = tt
All-take (suc n) (x ∷ xs) h = (h.0, All-take n xs h.1)

All-drop : (n : ℕ) (xs : List ℕ) → All IsByte xs → All IsByte (drop n xs)
All-drop zero xs h = h
All-drop (suc n) [] h = tt
All-drop (suc n) (x ∷ xs) h = All-drop n xs h.1

-- Both sums are below 65521.
IsReduced : Sums → Type 0
IsReduced s = (s.a < adler) × (s.b < adler)

reduce-IsReduced : (s : Sums) → IsReduced (reduce s)
unfolding reduce IsReduced
reduce-IsReduced s = omega arith

reduce-of_IsReduced : (s : Sums) → IsReduced s → reduce s ≡ s
unfolding reduce IsReduced
reduce-of_IsReduced s h = ground arith

chunk_lem :
    (bytes : List ℕ) (s : Sums)
    → All IsByte bytes
    → length bytes ≤ 5552
    → IsReduced s
    → reduce (add_chunk bytes s) ≡ add_bytes bytes s
unfolding IsReduced
chunk_lem bytes s h room v = rw (
  add_chunk-free bytes 0 s h (omega arith)
      (record { a_bound = omega arith; b_bound = omega arith }),
  add_chunk_free-reduce bytes s,
  reduce-of_IsReduced s v,
)

add_chunks_lem :
    (n : ℕ) (bytes : List ℕ) (s : Sums)
    → All IsByte bytes
    → length bytes ≤ n * 5552
    → IsReduced s
    → add_chunks n bytes s ≡ add_bytes bytes s
unfolding add_chunks
add_chunks_lem zero [] s h room v = unfold add_bytes in refl
add_chunks_lem zero (x ∷ xs) s h room v = absurd (omega arith)
add_chunks_lem (suc n) bytes s h room v =
    let front = take chunk_size bytes in
    let back = drop chunk_size bytes in
    let next = reduce (add_chunk front s) in
    add_chunks_lem n back next (All-drop chunk_size bytes h)
      (omega (arith, length-drop chunk_size bytes)) (reduce-IsReduced (add_chunk front s))
    ∙ ap (add_bytes back) (
        chunk_lem front s (All-take chunk_size bytes h)
          (omega (arith, length-take chunk_size bytes)) v)
    ∙ sym (add_bytes-append front back s)
    ∙ ap (λ xs. add_bytes xs s) (take-append-drop chunk_size bytes)

add_bytes-IsReduced : (bytes : List ℕ) (s : Sums) → IsReduced s → IsReduced (add_bytes bytes s)
unfolding add_bytes
add_bytes-IsReduced [] s h = h
add_bytes-IsReduced (x ∷ xs) s h =
    add_bytes-IsReduced xs (add_byte x s) (unfold IsReduced add_byte in omega arith)

abbrev pub initial : Sums
initial = record { a = 1; b = 0 }

-- Of bytes that fit a message the checksum is the one that its definition gives, which reduces
-- both sums at every byte: the first sum in the low 16 bits, the second above.
pub checksum-add_bytes :
    (bytes : List ℕ)
    → All IsByte bytes
    → length bytes ≤ 24590
    → checksum bytes ≡ (add_bytes bytes initial).b * 0x1_0000 + (add_bytes bytes initial).a
unfolding checksum IsReduced
checksum-add_bytes bytes h short =
    let sums = add_bytes bytes initial in
    let small : IsReduced sums = add_bytes-IsReduced bytes initial (omega arith) in
    let e : add_chunks ((length bytes + 5551) / chunk_size) bytes initial ≡ sums =
      add_chunks_lem ((length bytes + 5551) / chunk_size) bytes initial h (omega arith)
        (omega arith) in
    let wrap : u32 (sums.b * 0x1_0000) ≡ sums.b * 0x1_0000 = omega arith in
    ground (arith, e, wrap, short-bit_or sums.a sums.b (omega arith))

pub checksum-lt :
    (bytes : List ℕ) → All IsByte bytes → length bytes ≤ 24590 → checksum bytes < 0x1_0000_0000
unfolding IsReduced
checksum-lt bytes h short =
    omega (arith, checksum-add_bytes bytes h short, add_bytes-IsReduced bytes initial (omega arith))
