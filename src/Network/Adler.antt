-- ===== src/Network/Adler.antt =====
-- `adlerChecksum` of src/tools.cpp: sums of up to 5552 bytes between two reductions.
pub mod Laws
use asca_ci.Base.{
  ℕ, zero, suc, ◌+◌, ◌*◌, ◌/◌, ◌%◌, bit_or, List, [], ◌∷◌, ltb, if◌then◌else◌, length, take, drop,
}
use asca_ci.Base.Bits.{u32}

abbrev pub adler : ℕ
adler = 65521

abbrev pub chunk_size : ℕ
chunk_size = 5552

abbrev pub max_length : ℕ
max_length = 24590

pub record Sums : Type 0 where
  pub a : ℕ
  pub b : ℕ

-- The inner loop: `a += *data++; b += a`, on 32 bits.
pub add_chunk : List ℕ → Sums → Sums
add_chunk [] s = s
add_chunk (x ∷ xs) s = let a = u32 (s.a + x) in add_chunk xs (record { a = a; b = u32 (s.b + a) })

pub reduce : Sums → Sums
reduce s = record { a = s.a % adler; b = s.b % adler }

-- The outer loop, by the chunks that are left.
pub add_chunks : ℕ → List ℕ → Sums → Sums
unfolding reduce
add_chunks zero bytes s = s
add_chunks (suc n) bytes s =
    add_chunks n (drop chunk_size bytes) (reduce (add_chunk (take chunk_size bytes) s))

unfoldable pub checksum : List ℕ → ℕ
checksum bytes =
    if ltb max_length (length bytes)
    then 0
    else (let s : Sums =
          add_chunks ((length bytes + 5551) / chunk_size) bytes (record { a = 1; b = 0 }) in
        bit_or (u32 (s.b * 0x1_0000)) s.a)
