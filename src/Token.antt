-- ===== src/Token.antt =====
-- One-time tokens: `generateToken` of src/tools.cpp and the test of a login in src/iologindata.cpp.
-- The keyed hash is an argument.
pub mod Digits
pub mod Tests
use asca_ci.Base.{
  ℕ, zero, suc, ◌+◌, ◌-◌, ◌*◌, ◌/◌, ◌%◌, Bool, true, false, List, [], ◌∷◌, ◌++◌, Option, none, some,
  ltb, ◌==◌, ◌||◌, if◌then◌else◌, set, get_or, length, drop, replicate,
}
use asca_ci.Base.Bits.{u64}
use asca_ci.Wildcard.Insert.{same_name}

-- The loop from the place `i` down to 1; the first byte stays 0.
unfoldable pub fill_counter : ℕ → ℕ → List ℕ → List ℕ
fill_counter zero counter mac = mac
fill_counter (suc i) counter mac = fill_counter i (counter / 256) (set mac (suc i) (counter % 256))

unfoldable pub counter_bytes : ℕ → List ℕ
unfolding fill_counter
counter_bytes counter = fill_counter 7 counter (replicate 8 0)

abbrev pub back : List ℕ → ℕ
back [] = 0
back (x ∷ []) = x
back (x ∷ y ∷ ys) = back (y ∷ ys)

-- Four bytes of the hash, without the sign.
unfoldable pub truncate_hash : List ℕ → ℕ
truncate_hash mac =
    let offset = back mac % 16 in
    (get_or mac offset 0 * 0x100_0000
      + get_or mac (offset + 1) 0 * 0x1_0000
      + get_or mac (offset + 2) 0 * 0x100
      + get_or mac (offset + 3) 0)
    % 0x8000_0000

-- `to_string`, on fuel: each turn drops a digit.
unfoldable pub digits : ℕ → ℕ → List ℕ
digits zero v = []
digits (suc fuel) v =
    let rest = digits fuel (v / 10) in
    if ltb v 10 then (v + 48) ∷ [] else rest ++ (v % 10 + 48) ∷ []

unfoldable pub to_string : ℕ → List ℕ
unfolding digits
to_string v = digits (suc v) v

-- `substr` from the end; where the text is too short the place wraps around and `substr` throws.
unfoldable pub last_of : ℕ → List ℕ → Option (List ℕ)
last_of n s = if ltb (length s) n then none else some (drop (length s - n) s)

unfoldable pub generate_token : (List ℕ → List ℕ → List ℕ) → List ℕ → ℕ → ℕ → Option (List ℕ)
unfolding to_string counter_bytes truncate_hash last_of
generate_token hmac key counter n =
    last_of n (to_string (truncate_hash (hmac key (counter_bytes counter))))

abbrev pub matches : List ℕ → Option (List ℕ) → Option Bool → Option Bool
matches token none later = none
matches token (some t) later = if same_name token t then some true else later

-- The test of a token at a login: now, before, after. An exception is `none`.
unfoldable pub is_token_valid : (List ℕ → List ℕ → List ℕ) → List ℕ → ℕ → List ℕ → Option Bool
unfolding generate_token
is_token_valid hmac secret token_time token =
    matches token (generate_token hmac secret token_time 6) (
      matches token (generate_token hmac secret (u64 (token_time + 0xffff_ffff_ffff_ffff)) 6)
        (matches token (generate_token hmac secret (u64 (token_time + 1)) 6) (some false)))
