-- ===== src/Network/Connection.antt =====
-- src/connection.cpp: the read handlers, the checksum test and the send queue of one socket.
-- Timers, locks and the dispatcher are left out; a completed read or write is a call of a handler.
pub mod Header
pub mod Queue
pub mod Progress
use asca_ci.Base.{
  ℕ, ◌+◌, ◌-◌, ◌/◌, Bool, true, false, List, [], ◌∷◌, ◌++◌, Option, none, some, ltb, leb, ◌==◌,
  if◌then◌else◌, ◌||◌,
}
use asca_ci.Base.Bits.{u16, u32}
use asca_ci.Network.Adler
use asca_ci.Network.Message.{Message, networkmessage_maxsize, get, skip_bytes, get_length_header}
use asca_ci.Network.Message.Buffer.{slice}
use asca_ci.Network.Output.{OutputMessage, output_bytes, ◌>>=◌}
use asca_ci.Network.Protocol.{Protocol, on_send_message, on_recv_message}

pub data ConnectionState : Type 0 where
  disconnected request_charlist gameworld_auth game pending : ConnectionState

abbrev pub is_disconnected : ConnectionState → Bool
is_disconnected disconnected = true
is_disconnected _ = false

pub record Connection : Type 0 where
  pub msg : Message
  pub queue : List OutputMessage
  pub protocol : Option Protocol
  pub time_connected : ℕ
  pub packets_sent : ℕ
  pub state : ConnectionState
  pub received_first : Bool
  pub socket_open : Bool
  -- The buffers handed to the socket so far, oldest first.
  pub written : List (List ℕ)

abbrev is_empty {ℓ} : {A : Type ℓ} → List A → Bool
is_empty [] = true
is_empty (x ∷ xs) = false

unfoldable pub close : Bool → Connection → Connection
close force c = record c {
  state = disconnected;
  socket_open = if is_empty c.queue || force then false else c.socket_open;
}

-- What a read handler asks for next.
pub data Next : Type 0 where
  stop : Next
  read_body : ℕ → Next

-- The largest of 1 and the seconds since the counter was reset plus 1, as a `uint32_t`.
abbrev pub time_passed : Connection → ℕ → ℕ
time_passed c now =
    let passed = u32 (now + 1 + (0x1_0000_0000 - u32 c.time_connected)) in
    if passed == 0 then 1 else passed

pub reset_counter : ℕ → Connection → Connection
reset_counter now c =
    if ltb 2 (time_passed c now) then record c { time_connected = now; packets_sent = 0 } else c

-- The part of `parseHeader` behind the rate limit.
accept_header : Connection → Connection × Next
accept_header c =
    let size = get_length_header c.msg in
    if size == 0 || leb (networkmessage_maxsize - 16) size then (close true c, stop) else (
      record c { msg = record (c.msg) { length = u16 (size + 2); position = 2 } },
      read_body size,
    )

unfoldable pub parse_header : ℕ → ℕ → Bool → Connection → Connection × Next
unfolding accept_header reset_counter
parse_header max_packets now error c =
    if error
    then (close true c, stop)
    else if is_disconnected c.state
    then (c, stop)
    else (let counted = record c { packets_sent = u32 (c.packets_sent + 1) } in
        if ltb max_packets (counted.packets_sent / time_passed c now)
        then (close false counted, stop)
        else accept_header (reset_counter now counted))

-- The checksum of what stands behind the four bytes at the position. The length is an `int32_t`
-- that may be negative: then, as at 0, the checksum is 0.
abbrev body_checksum : Message → ℕ
body_checksum m =
    let len = m.length - (m.position + 4) in
    if ltb 0 len then Adler.checksum (slice (m.position + 4) len m.buffer) else 0

-- Whether the checksum is right. If not, the position steps back by 4.
unfoldable pub check_packet : Message → Bool × Message
check_packet m =
    let (received, m') = get 4 m in
    if received == body_checksum m then (true, m') else (false, skip_bytes 0xFFFC m')

-- What is handed to the protocol.
pub data Delivery : Type 0 where
  nothing : Delivery
  first_message message : Message → Delivery

abbrev delivered : Option Message → Delivery
delivered none = nothing
delivered (some m) = message m

-- `make_protocol` of the service port is an argument: from the checksum's verdict and the message
-- to a protocol and the message behind its identifier. `none` is a fault of the cipher, or a call
-- through a null protocol.
module _ (make_protocol : Bool → Message → Option (Protocol × Message)) where
  parse_first : Connection → Bool → Message → Connection × Delivery
  parse_first c right m = elim c.protocol [
    | none ↦ elim (make_protocol right m) [
      | none ↦ (close true (record c { msg = m; received_first = true }), nothing)
      | some (p, m') ↦
          (record c { msg = m'; protocol = some p; received_first = true }, first_message m')
    ]
    | some p ↦
        let m' = skip_bytes 1 m in (record c { msg = m'; received_first = true }, first_message m')
  ]

  unfoldable pub parse_packet : Bool → Connection → Option (Connection × Delivery)
  unfolding check_packet parse_first
  parse_packet error c =
      if error
      then some (close true c, nothing)
      else if is_disconnected c.state
      then some (c, nothing)
      else (let (right, m) = check_packet c.msg in
          if c.received_first
          then (c.protocol >>= λ p.
              on_recv_message p m >>= λ r. some (record c { msg = m }, delivered r))
          else some (parse_first c right m))

-- `none` is a failed assertion, or a call through a null protocol.
unfoldable pub internal_send : OutputMessage → Connection → Option Connection
internal_send o c = do
  p ← c.protocol
  o' ← on_send_message p o
  some (record c { written = c.written ++ output_bytes o' ∷ [] })

unfoldable pub send : OutputMessage → Connection → Option Connection
unfolding internal_send
send o c =
    if is_disconnected c.state
    then some c
    else (let queued = record c { queue = c.queue ++ o ∷ [] } in
        if is_empty c.queue then internal_send o queued else some queued)

-- The queue behind the message that was written.
after_write : List OutputMessage → Connection → Option Connection
unfolding internal_send
after_write [] c = some (
    if is_disconnected c.state
    then record c { queue = []; socket_open = false }
    else record c { queue = [] })
after_write (o ∷ rest) c = internal_send o (record c { queue = o ∷ rest })

-- `onWriteOperation`. It is only called while a message is in the queue.
unfoldable pub on_write_operation : Bool → Connection → Option Connection
unfolding after_write close
on_write_operation error c = elim c.queue [
  | [] ↦ none
  | written ∷ rest ↦
      if error then some (close true (record c { queue = [] })) else after_write rest c
]
