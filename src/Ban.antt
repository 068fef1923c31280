-- ===== src/Ban.antt =====
-- The limit on connection attempts of one address, of src/ban.cpp and src/ban.h. The clock, in
-- milliseconds, is an argument.
pub mod Patient
pub mod Tests
use asca_ci.Base.{
  ℕ, suc, ◌+◌, ◌-◌, Bool, true, false, List, [], ◌∷◌, Option, none, some, ltb, leb, ◌==◌,
  if◌then◌else◌, ◌||◌,
}
use asca_ci.Base.Bits.{u32, u64}

pub record ConnectBlock : Type 0 where
  pub last_attempt : ℕ
  pub block_time : ℕ
  pub count : ℕ

-- `ipConnectMap`, at most one entry of each address.
abbrev pub ConnectMap : Type 0
ConnectMap = List (ℕ × ConnectBlock)

unfoldable pub find : ℕ → ConnectMap → Option ConnectBlock
find ip [] = none
find ip ((ip', block) ∷ rest) = let later = find ip rest in if ip == ip' then some block else later

-- The entry of an address is set, or added at the end.
unfoldable pub store : ℕ → ConnectBlock → ConnectMap → ConnectMap
store ip block [] = (ip, block) ∷ []
store ip block ((ip', old) ∷ rest) =
    let later = store ip block rest in if ip == ip' then (ip, block) ∷ rest else (ip', old) ∷ later

-- `int64_t timeDiff`, by its bit pattern.
abbrev pub time_diff : ℕ → ConnectBlock → ℕ
time_diff now b = u64 (now + 0x1_0000_0000_0000_0000 - u64 b.last_attempt)

-- A difference with the sign bit is negative.
abbrev pub at_most : ℕ → ℕ → Bool
at_most bound diff = leb 0x8000_0000_0000_0000 diff || leb diff bound

-- An attempt of an address that is not blocked.
unfoldable pub count_attempt : ℕ → ConnectBlock → Bool × ConnectBlock
count_attempt now b =
    let diff = time_diff now b in
    let seen = record b { last_attempt = now } in
    let counted = u32 (b.count + 1) in
    if at_most 5000 diff
    then (if ltb 5 counted
        then (if at_most 500 diff
            then (false, record seen { count = 0; block_time = u64 (now + 3000) })
            else (true, record seen { count = 0 }))
        else (true, record seen { count = counted }))
    else (true, record seen { count = 1 })

unfoldable pub attempt : ℕ → ConnectBlock → Bool × ConnectBlock
unfolding count_attempt
attempt now b =
    if ltb now b.block_time
    then (false, record b { block_time = u64 (b.block_time + 250) })
    else count_attempt now b

-- What is done with the entry that is found.
unfoldable pub answer : ℕ → ℕ → ConnectMap → Option ConnectBlock → Bool × ConnectMap
answer now ip blocks none =
    (true, store ip (record { last_attempt = now; block_time = 0; count = 1 }) blocks)
answer now ip blocks (some b) = let (accepted, b') = attempt now b in (accepted, store ip b' blocks)

unfoldable pub accept_connection : ℕ → ℕ → ConnectMap → Bool × ConnectMap
accept_connection now ip blocks = answer now ip blocks (find ip blocks)
