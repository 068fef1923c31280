-- ===== src/Network/Connection/Header.antt =====
-- The header of a packet on an open socket.
use asca_ci.Base.{ℕ, ◌+◌, ◌/◌, ◌%◌, ◌≤◌, ◌<◌, ◌≡◌, true, false, [], ◌∷◌, some, arith, length, ltb}
use asca_ci.Base.Bits.{u32, bit_or-byte}
use asca_ci.Network.Connection.{
  Connection, is_disconnected, read_body, time_passed, reset_counter, accept_header, parse_header,
}
use asca_ci.Network.Message.{Message, networkmessage_maxsize, get_length_header}
use asca_ci.Network.Message.Buffer.{Holds, Holds-append, get_or-Holds, le_bytes}
use asca_ci.Network.Protocol.{Protocol}

-- The length in the first two bytes.
get_length_header-Holds :
    (m : Message) (v : ℕ) → v < 0x1_0000 → Holds m.buffer 0 (le_bytes 2 v) → get_length_header m ≡ v
unfolding get_length_header le_bytes
get_length_header-Holds m v small h =
    let (low, high) = Holds-append m.buffer 0 ((v % 0x100) ∷ []) ((v / 0x100 % 0x100) ∷ []) h in
    rw
      (
        get_or-Holds m.buffer 0 (v % 0x100) 0 low,
        get_or-Holds m.buffer 1 (v / 0x100 % 0x100) 0 high,
        bit_or-byte (v % 0x100) (v / 0x100 % 0x100) (omega arith),
      )
      (omega arith)

-- A socket that is past its first message, and within the limit of packets a second.
pub record IsOpen (max_packets now : ℕ) (q : Protocol) (c : Connection) : Type 0 where
  pub connected : is_disconnected c.state ≡ false
  pub past_first : c.received_first ≡ true
  pub with_protocol : c.protocol ≡ some q
  pub array : length c.msg.buffer ≡ networkmessage_maxsize
  pub within : u32 (c.packets_sent + 1) / time_passed c now ≤ max_packets

reset_counter-keeps :
    (now : ℕ) (c : Connection)
    → ((reset_counter now c).msg ≡ c.msg)
      × ((reset_counter now c).state ≡ c.state)
      × ((reset_counter now c).received_first ≡ c.received_first)
      × ((reset_counter now c).protocol ≡ c.protocol)
unfolding reset_counter
reset_counter-keeps now c = ground arith

accept_header-read_body :
    (size : ℕ) (c : Connection)
    → 0 < size
    → size < 24574
    → get_length_header c.msg ≡ size
    → accept_header c
      ≡ (record c { msg = record (c.msg) { length = size + 2; position = 2 } }, read_body size)
unfolding accept_header
accept_header-read_body size c pos small e = rw e (ground arith)

-- The body that is read next is as long as the header says.
pub parse_header-read_body :
    (max_packets now size : ℕ) (q : Protocol) (c : Connection)
    → IsOpen max_packets now q c
    → 0 < size
    → size < 24574
    → Holds c.msg.buffer 0 (le_bytes 2 size)
    → (c' : Connection) × (parse_header max_packets now false c ≡ (c', read_body size))
      × (c'.msg ≡ record (c.msg) { length = size + 2; position = 2 })
      × (c'.state ≡ c.state)
      × (c'.received_first ≡ c.received_first)
      × (c'.protocol ≡ c.protocol)
unfolding parse_header
parse_header-read_body max_packets now size q c i pos small h =
    let counted = record c { packets_sent = u32 (c.packets_sent + 1) } in
    let keeps = reset_counter-keeps now counted in
    let header = get_length_header-Holds c.msg size (omega arith) h in
    let next = reset_counter now counted in
    let within : ltb max_packets (counted.packets_sent / time_passed c now) ≡ false =
      ground (arith, i.within) in
    (
      record next { msg = record (next.msg) { length = size + 2; position = 2 } },
      rw (i.connected, within) (accept_header-read_body size next pos small (rw (keeps.0) header)),
      rw (keeps.0),
      keeps.1,
      keeps.2,
      keeps.3,
    )
