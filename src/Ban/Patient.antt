-- ===== src/Ban/Patient.antt =====
-- Who is never refused.
use asca_ci.Base.{
  not, ◌||◌, ℕ, ◌+◌, ◌<◌, ◌≡◌, refl, true, false, List, [], ◌∷◌, Option, none, some, arith, ◌==◌,
  if◌then◌else◌, ltb, Bool-cases, Option-cases, inl, inr,
}
use asca_ci.Base.Bits.{u64}
use asca_ci.Ban.{ConnectBlock, ConnectMap, find, store, attempt, answer, accept_connection}

-- An attempt: its time, and the address.
abbrev pub Attempt : Type 0
Attempt = ℕ × ℕ

abbrev pub after_attempts : List Attempt → ConnectMap → ConnectMap
after_attempts [] blocks = blocks
after_attempts ((now, ip) ∷ es) blocks = after_attempts es (accept_connection now ip blocks).1

-- Every attempt of the address is accepted.
abbrev pub Accepted : ℕ → List Attempt → ConnectMap → Type 0
Accepted ip [] blocks = Unit
Accepted ip ((now, ip') ∷ es) blocks =
    ((not (ip == ip') || (accept_connection now ip' blocks).0) ≡ true)
    × Accepted ip es (accept_connection now ip' blocks).1

abbrev pub Later : Option ℕ → ℕ → Type 0
Later none now = Unit
Later (some last) now = last + 500 < now

-- The address waits more than half a second between two attempts, and times fit 63 bits.
abbrev pub Patient : ℕ → Option ℕ → List Attempt → Type 0
Patient ip last [] = Unit
Patient ip last ((now, ip') ∷ es) =
    (now < 0x8000_0000_0000_0000)
    × ((ip == ip') ≡ true → Later last now)
    × Patient ip (if ip == ip' then some now else last) es

-- The entry of an address that was never blocked.
data IsCalm : Option ℕ → Option ConnectBlock → Type 0 where
  unseen : IsCalm none none
  seen :
      {last : ℕ} {b : ConnectBlock}
      → b.last_attempt ≡ last
      → b.block_time ≡ 0
      → IsCalm (some last) (some b)

find-store_self :
    (ip : ℕ) (b : ConnectBlock) (blocks : ConnectMap) → find ip (store ip b blocks) ≡ some b
unfolding find store
find-store_self ip b [] = ground arith
find-store_self ip b ((ip', old) ∷ rest) = elim (Bool-cases (ip == ip')) [
  | inl same ↦ ground arith
  | inr other ↦ rw (other, other) (find-store_self ip b rest)
]

find-store_other :
    (ip ip' : ℕ) (b : ConnectBlock) (blocks : ConnectMap)
    → (ip == ip') ≡ false
    → find ip (store ip' b blocks) ≡ find ip blocks
unfolding find store
find-store_other ip ip' b [] h = rw h refl
find-store_other ip ip' b ((key, old) ∷ rest) h = ground (arith, find-store_other ip ip' b rest h)

attempt-IsCalm :
    (now last : ℕ) (b : ConnectBlock)
    → now < 0x8000_0000_0000_0000
    → b.last_attempt ≡ last
    → b.block_time ≡ 0
    → last + 500 < now
    → ((attempt now b).0 ≡ true)
      × ((attempt now b).1.last_attempt ≡ now)
      × ((attempt now b).1.block_time ≡ 0)
unfolding attempt
attempt-IsCalm now last b h last_seen calm gap = ground arith

module _ (now ip ip' : ℕ) (blocks : ConnectMap) where
  -- The attempt of another address leaves the entry alone.
  accept-other : (ip == ip') ≡ false → find ip (accept_connection now ip' blocks).1 ≡ find ip blocks
  unfolding accept_connection answer
  accept-other h = elim (Option-cases (find ip' blocks)) [
    | inl absent ↦ rw absent (find-store_other ip ip' _ blocks h)
    | inr (b, found) ↦ rw found (find-store_other ip ip' _ blocks h)
  ]

accept-IsCalm :
    (now ip : ℕ) (last : Option ℕ) (entry : Option ConnectBlock) (blocks : ConnectMap)
    → find ip blocks ≡ entry
    → IsCalm last entry
    → now < 0x8000_0000_0000_0000
    → Later last now
    → ((accept_connection now ip blocks).0 ≡ true)
      × IsCalm (some now) (find ip (accept_connection now ip blocks).1)
unfolding accept_connection answer
accept-IsCalm now ip none none blocks e unseen h gap =
    rw (e, find-store_self) (refl, seen refl refl)
accept-IsCalm now ip none (some b) blocks e c h gap = elim c [ ]
accept-IsCalm now ip (some last) none blocks e c h gap = elim c [ ]
accept-IsCalm now ip (some last) (some b) blocks e (seen last_seen calm) h gap =
    let (accepted, last', calm') = attempt-IsCalm now last b h last_seen calm gap in
    rw (e, find-store_self) (accepted, seen last' calm')

IsCalm-Accepted :
    (ip : ℕ) (last : Option ℕ) (es : List Attempt) (blocks : ConnectMap)
    → IsCalm last (find ip blocks)
    → Patient ip last es
    → Accepted ip es blocks
IsCalm-Accepted ip last [] blocks calm p = tt
IsCalm-Accepted ip last ((now, ip') ∷ es) blocks calm (h, gap, p) = elim (Bool-cases (ip == ip')) [
  | inl same ↦
      let (accepted, calm') =
        accept-IsCalm now ip last (find ip blocks) blocks refl calm h (gap same) in
      let e : ip' ≡ ip = ground (arith, same) in
      (rw (same, e, accepted) refl, IsCalm-Accepted ip (some now) es _ (rw e calm') (rw same at p))
  | inr other ↦ (
    rw other refl,
    IsCalm-Accepted ip last es _ (rw (accept-other now ip ip' blocks other) calm) (rw other at p),
  )
]

-- At times that fit 63 bits, an address that has no entry yet and waits more than half a second
-- between its attempts is accepted each time, however many attempts it makes and whatever other addresses do in between.
pub accept_connection-Accepted :
    (ip : ℕ) (es : List Attempt) (blocks : ConnectMap)
    → find ip blocks ≡ none
    → Patient ip none es
    → Accepted ip es blocks
accept_connection-Accepted ip es blocks new p = IsCalm-Accepted ip none es blocks (rw new unseen) p

-- An address under a block is refused, and each attempt makes the block 250 milliseconds longer,
-- as long as its end fits 64 bits;
-- no other address notices.
pub accept_connection-blocked :
    (now ip ip' : ℕ) (b : ConnectBlock) (blocks : ConnectMap)
    → find ip blocks ≡ some b
    → now < b.block_time
    → b.block_time + 250 < 0x1_0000_0000_0000_0000
    → (ip' == ip) ≡ false
    → ((accept_connection now ip blocks).0 ≡ false)
      × (find ip (accept_connection now ip blocks).1
          ≡ some (record b { block_time = b.block_time + 250 }))
      × (find ip' (accept_connection now ip blocks).1 ≡ find ip' blocks)
unfolding accept_connection answer attempt
accept_connection-blocked now ip ip' b blocks found under room other =
    let is_under : ltb now b.block_time ≡ true = ground arith in
    let longer : u64 (b.block_time + 250) ≡ b.block_time + 250 = omega arith in
    let b' : ConnectBlock = record b { block_time = b.block_time + 250 } in
    rw (found, is_under, longer)
      (refl, find-store_self ip b' blocks, find-store_other ip' ip b' blocks other)
