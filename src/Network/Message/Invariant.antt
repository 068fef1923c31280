-- ===== src/Network/Message/Invariant.antt =====
-- What every write keeps: the buffer's size, the step between position and length, and the room.
use asca_ci.Base.{
  ℕ, ◌+◌, ◌<◌, ◌≡◌, List, [], ◌∷◌, arith, length, length-replicate, replicate, get_or, bit_and,
}
use asca_ci.Base.Bits.{u16}
use asca_ci.Network.Message.{
  Message, Position, ItemType, max_body_length, networkmessage_maxsize, put, add_byte, add,
  add_bytes, add_padding_bytes, add_string, add_position, add_item, add_item_id, reset, fluid_map,
}
use asca_ci.Network.Message.Buffer.{length-write_at, length-le_bytes, le_bytes}

-- A message that is being written: its array is whole, the position runs 8 ahead of the length,
-- and stays below the largest body.
pub record IsOutgoing (m : Message) : Type 0 where
  pub array : length m.buffer ≡ networkmessage_maxsize
  pub in_step : m.position ≡ m.length + 8
  pub room : m.position < max_body_length

pub put-IsOutgoing :
    (bytes : List ℕ) (m : Message)
    → m.position + length bytes < max_body_length
    → IsOutgoing m
    → IsOutgoing (put bytes m)
put-IsOutgoing bytes m h v =
    omega (arith, length-write_at m.buffer m.position bytes, v.array, v.in_step)

-- A call that writes to a message.
pub data Write : Type 0 where
  byte : ℕ → Write
  number : ℕ → ℕ → Write
  bytes : List ℕ → Write
  padding : ℕ → Write
  text : List ℕ → Write
  place : Position → Write
  item : ℕ → ℕ → Write
  item_id : ℕ → Write

add-IsOutgoing : (n v : ℕ) (m : Message) → IsOutgoing m → IsOutgoing (add n v m)
unfolding add
add-IsOutgoing n v m h = ground (arith, put-IsOutgoing (le_bytes n v) m, length-le_bytes n v)

add_byte-IsOutgoing : (v : ℕ) (m : Message) → IsOutgoing m → IsOutgoing (add_byte v m)
unfolding add_byte
add_byte-IsOutgoing v m h = ground (arith, put-IsOutgoing (v ∷ []) m)

add_bytes-IsOutgoing : (bs : List ℕ) (m : Message) → IsOutgoing m → IsOutgoing (add_bytes bs m)
unfolding add_bytes
add_bytes-IsOutgoing bs m h = ground (arith, put-IsOutgoing bs m)

add_padding-IsOutgoing : (n : ℕ) (m : Message) → IsOutgoing m → IsOutgoing (add_padding_bytes n m)
unfolding add_padding_bytes
add_padding-IsOutgoing n m h =
    ground (arith, put-IsOutgoing (replicate n 0x33) m, length-replicate {A = ℕ} n 0x33)

add_string-IsOutgoing : (s : List ℕ) (m : Message) → IsOutgoing m → IsOutgoing (add_string s m)
unfolding add_string
add_string-IsOutgoing s m h = ground (
  arith,
  put-IsOutgoing (le_bytes 2 (u16 (length s))) m,
  length-le_bytes 2 (u16 (length s)),
  put-IsOutgoing s (put (le_bytes 2 (u16 (length s))) m),
)

add_position-IsOutgoing :
    (p : Position) (m : Message) → IsOutgoing m → IsOutgoing (add_position p m)
unfolding add_position
add_position-IsOutgoing p m h =
    add_byte-IsOutgoing p.z _ (add-IsOutgoing 2 p.y _ (add-IsOutgoing 2 p.x m h))

module _ (items : ℕ → ItemType) where
  add_item-IsOutgoing :
      (id count : ℕ) (m : Message) → IsOutgoing m → IsOutgoing (add_item items id count m)
  unfolding add_item
  add_item-IsOutgoing id count m h =
      let h' = add-IsOutgoing 2 (items id).client_id m h in
      ground (
        arith,
        h',
        add_byte-IsOutgoing count (add 2 (items id).client_id m) h',
        add_byte-IsOutgoing (get_or fluid_map (bit_and count 7) 0) (add 2 (items id).client_id m)
            h',
      )

  pub run_write : Write → Message → Message
  run_write (byte v) = add_byte v
  run_write (number n v) = add n v
  run_write (bytes bs) = add_bytes bs
  run_write (padding n) = add_padding_bytes n
  run_write (text s) = add_string s
  run_write (place p) = add_position p
  run_write (item id count) = add_item items id count
  run_write (item_id id) = add_item_id items id

  pub run_writes : List Write → Message → Message
  run_writes [] m = m
  run_writes (w ∷ ws) m = run_writes ws (run_write w m)

  run_write-IsOutgoing : (w : Write) (m : Message) → IsOutgoing m → IsOutgoing (run_write w m)
  unfolding run_write
  run_write-IsOutgoing (byte v) m h = add_byte-IsOutgoing v m h
  run_write-IsOutgoing (number n v) m h = add-IsOutgoing n v m h
  run_write-IsOutgoing (bytes bs) m h = add_bytes-IsOutgoing bs m h
  run_write-IsOutgoing (padding n) m h = add_padding-IsOutgoing n m h
  run_write-IsOutgoing (text s) m h = add_string-IsOutgoing s m h
  run_write-IsOutgoing (place p) m h = add_position-IsOutgoing p m h
  run_write-IsOutgoing (item id count) m h = add_item-IsOutgoing id count m h
  run_write-IsOutgoing (item_id id) m h =
      unfold add_item_id in add-IsOutgoing 2 (items id).client_id m h

  run_writes-IsOutgoing :
      (ws : List Write) (m : Message) → IsOutgoing m → IsOutgoing (run_writes ws m)
  unfolding run_writes
  run_writes-IsOutgoing [] m h = h
  run_writes-IsOutgoing (w ∷ ws) m h = run_writes-IsOutgoing ws _ (run_write-IsOutgoing w m h)

  -- Whatever is written to a fresh message, in any order: the array keeps its size, the position
  -- stays 8 ahead of the length, and below the largest body.
  pub run_writes-reset-IsOutgoing :
      (ws : List Write) (m : Message)
      → length m.buffer ≡ networkmessage_maxsize
      → IsOutgoing (run_writes ws (reset m))
  unfolding reset
  run_writes-reset-IsOutgoing ws m h =
      run_writes-IsOutgoing ws _ (record { array = h; in_step = omega arith; room = omega arith })
