-- ===== src/Network/Tests.antt =====
-- The network's theorems at concrete inputs.
use asca_ci.Base.{
  ℕ, ◌≡◌, refl, true, false, List, [], ◌∷◌, none, some, arith, length, replicate, length-replicate,
  ◌∙◌, ◌++◌, ◌*◌, ◌+◌, map,
}
use asca_ci.Network.Adler.{checksum}
use asca_ci.Network.Adler.Laws.{checksum-add_bytes, add_bytes, initial}
use asca_ci.Network.Message.{Message, networkmessage_maxsize, put, reset, ItemType}
use asca_ci.Network.Message.Buffer.{le_bytes, slice, slice-write_at, length-write_at}
use asca_ci.Network.Message.Codec.{Field, byte, number, text, place, shape}
use asca_ci.Network.Message.Invariant.{IsOutgoing, run_writes, run_writes-reset-IsOutgoing, Write}
use asca_ci.Network.Message.RoundTrip.{read_fields, write_fields, read_fields-write_fields}
use asca_ci.Network.Message.Reads.{Reads}
use asca_ci.Network.Connection.{Connection, game, message}
use asca_ci.Network.Connection.Header.{IsOpen}
use asca_ci.Network.Connection.Progress.{CanSend, run-IsFifo}
use asca_ci.Network.Connection.Queue.{Event, sends, write_ends, messages, run, IsFifo}
use asca_ci.Network.Output.{OutputMessage, output_bytes, adler}
use asca_ci.Network.Protocol.{Protocol, on_send_message}
use asca_ci.Network.Protocol.Framing.{IsReady}
use asca_ci.Network.Protocol.Delivery.{receive, receive-on_send_message}
use asca_ci.Network.Protocol.Sending.{on_send_message-frame}
use asca_ci.Network.Xtea.{encrypt, decrypt}
use asca_ci.Network.Xtea.Laws.{Restores, encrypt-decrypt-Restores}

-- The array of a message, kept shut: it is long.
blank : (xs : List ℕ) × (length xs ≡ networkmessage_maxsize)
blank = (replicate networkmessage_maxsize 0, length-replicate {A = ℕ} networkmessage_maxsize 0)

abbrev key : List ℕ
key = 0x0123_4567 ∷ 0x89AB_CDEF ∷ 0xFEDC_BA98 ∷ 0x7654_3210 ∷ []

abbrev block : List ℕ
block = 1 ∷ 2 ∷ 3 ∷ 4 ∷ 250 ∷ 251 ∷ 252 ∷ 253 ∷ []

encrypt-decrypt-Restores_example : Restores (λ b. encrypt b 8 key) (λ b. decrypt b 8 key) block
encrypt-decrypt-Restores_example = encrypt-decrypt-Restores key 8 block (omega arith) (omega arith)

checksum-add_bytes_example :
    checksum block ≡ (add_bytes block initial).b * 0x1_0000 + (add_bytes block initial).a
checksum-add_bytes_example = checksum-add_bytes block (omega arith) (omega arith)

abbrev empty_message : Message
empty_message = record { length = 0; position = 8; overrun = false; buffer = blank.0 }

empty_message-IsOutgoing : IsOutgoing empty_message
empty_message-IsOutgoing = record { array = blank.1; in_step = refl; room = omega arith }

abbrev fields : List Field
fields =
    byte 0x64
    ∷ number 4 0xDEAD_BEEF
    ∷ text (72 ∷ 105 ∷ [])
    ∷ place (record { x = 1000; y = 1024; z = 7 })
    ∷ []

read_fields-write_fields_example :
    read_fields (map shape fields) (record (write_fields fields empty_message) { position = 8 })
    ≡ (fields, write_fields fields empty_message)
unfolding le_bytes
read_fields-write_fields_example =
    read_fields-write_fields fields empty_message empty_message-IsOutgoing (omega arith)
      (omega arith)

abbrev short_message : Message
short_message = record {
  length = 3;
  position = 8;
  overrun = false;
  buffer = replicate 8 0 ++ (1 ∷ 255 ∷ 255 ∷ []);
}

abbrev items : ℕ → ItemType
items id = record {
  client_id = id + 100;
  stackable = true;
  splash = false;
  fluid_container = false;
}

run_writes-reset-IsOutgoing_example : IsOutgoing (
    run_writes items
      (Write.byte 0x64 ∷ Write.item 5 3 ∷ Write.padding 6 ∷ [])
      (reset empty_message))
run_writes-reset-IsOutgoing_example =
    run_writes-reset-IsOutgoing items (Write.byte 0x64 ∷ Write.item 5 3 ∷ Write.padding 6 ∷ [])
      empty_message blank.1

-- A protocol in checksum mode that encrypts.
abbrev protocol : Protocol
protocol = record {
  output_buffer = none;
  key = key;
  encryption_enabled = true;
  checksum_mode = adler;
  raw_messages = false;
}

abbrev body : List ℕ
body = 0x64 ∷ 2 ∷ 255 ∷ []

-- The body written to a fresh message.
abbrev ready : OutputMessage
ready = record { msg = put body empty_message; output_buffer_start = 8 }

ready-IsReady : IsReady body ready
ready-IsReady = record {
  start = refl;
  array = length-write_at blank.0 8 body ∙ blank.1;
  in_step = omega arith;
  room = omega arith;
  held = slice-write_at blank.0 8 body (omega (arith, blank.1));
  size = omega arith;
  bytes = omega arith;
}

abbrev socket : Connection
socket = record {
  msg = empty_message;
  queue = [];
  protocol = some protocol;
  time_connected = 1000;
  packets_sent = 4;
  state = game;
  received_first = true;
  socket_open = true;
  written = [];
}

socket-IsOpen : IsOpen 25 1001 protocol socket
socket-IsOpen = record {
  connected = refl;
  past_first = refl;
  with_protocol = refl;
  array = blank.1;
  within = omega arith;
}

receive-on_send_message_example :
    (o' : OutputMessage) × (c' : Connection) × (m : Message) × (on_send_message protocol ready
      ≡ some o')
    × (receive (λ b m. none) 25 1001 (output_bytes o') socket ≡ some (c', message m))
    × (m.length ≡ length body)
    × (m.position ≡ 8)
    × (slice 8 (length body) m.buffer ≡ body)
receive-on_send_message_example =
    receive-on_send_message (λ b m. none) 25 1001 protocol protocol body ready socket ready-IsReady
      refl refl refl refl refl socket-IsOpen

-- A second message is accepted while the first is written.
abbrev events : List Event
events = sends ready ∷ sends ready ∷ write_ends ∷ sends ready ∷ []

ready-CanSend : CanSend protocol ready
ready-CanSend =
    let (o', made, wire) =
      on_send_message-frame key body ready ready-IsReady protocol refl refl refl refl in
    (o', made)

run-IsFifo_example :
    (c' : Connection) × (run events socket ≡ some c') × IsFifo protocol (messages events) c'
run-IsFifo_example =
    run-IsFifo protocol events socket refl refl refl refl tt
      (ready-CanSend, (ready-CanSend, (ready-CanSend, tt)))
