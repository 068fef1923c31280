-- ===== src/Network/Protocol/Delivery.antt =====
-- From one side's `onSendMessage` to the other side's `parsePacket`.
use asca_ci.Base.{
  ℕ, zero, suc, ◌+◌, ◌≤◌, ◌≡◌, refl, ap, ◌∙◌, true, false, Bool, List, [], ◌∷◌, ◌++◌, Option, some,
  arith, length, length-append, take, drop,
}
use asca_ci.Network.Adler
use asca_ci.Network.Connection.Header.{IsOpen, parse_header-read_body}
use asca_ci.Network.Connection.{
  Connection, is_disconnected, Next, stop, read_body, Delivery, nothing, message, parse_header,
  parse_packet,
}
use asca_ci.Network.Message.{Message, networkmessage_maxsize}
use asca_ci.Network.Message.Buffer.{
  Holds, Holds-append, write_at, slice, slice-write_at, length-write_at, le_bytes, length-le_bytes,
}
use asca_ci.Network.Output.{OutputMessage, output_bytes, adler}
use asca_ci.Network.Protocol.{Protocol, on_send_message, on_recv_message}
use asca_ci.Network.Protocol.Framing.{IsReady, frame}
use asca_ci.Network.Protocol.Sending.{cipher, cipher-Restores, length-cipher, on_send_message-frame}
use asca_ci.Network.Protocol.Receiving.{
  IsFramed, check_packet-true, xtea_decrypt-opened, opened-Holds, opened, behind_checksum,
}

-- The bytes that the socket reads into the buffer at an offset.
abbrev pub read_into : ℕ → List ℕ → Connection → Connection
read_into p bytes c = record c { msg = record (c.msg) { buffer = write_at c.msg.buffer p bytes } }

-- The body that the header announced.
read_rest :
    (Bool → Message → Option (Protocol × Message))
    → List ℕ
    → Connection × Next
    → Option (Connection × Delivery)
read_rest make_protocol bytes (c, stop) = some (c, nothing)
read_rest make_protocol bytes (c, read_body n) =
    parse_packet make_protocol false (read_into 2 (take n bytes) c)

-- One packet of a socket's stream: the header is read and parsed, then the body.
pub receive :
    (Bool → Message → Option (Protocol × Message))
    → ℕ
    → ℕ
    → List ℕ
    → Connection
    → Option (Connection × Delivery)
unfolding read_rest
receive make_protocol max_packets now wire c =
    read_rest make_protocol (drop 2 wire)
      (parse_header max_packets now false (read_into 0 (take 2 wire) c))

on_recv_message-opened :
    (key body cipher : List ℕ) (q : Protocol) (m : Message) (f : IsFramed key body cipher m)
    → q.key ≡ key
    → q.encryption_enabled ≡ true
    → on_recv_message q (behind_checksum key body cipher m f)
      ≡ some (some (opened key body cipher m f))
unfolding on_recv_message
on_recv_message-opened key body cipher q m f k e =
    rw (e, k, xtea_decrypt-opened key body cipher m f)

parse_packet-message :
    (make_protocol : Bool → Message → Option (Protocol × Message)) (key body cipher : List ℕ)
    (q : Protocol) (c : Connection) (f : IsFramed key body cipher c.msg)
    → q.key ≡ key
    → q.encryption_enabled ≡ true
    → is_disconnected c.state ≡ false
    → c.received_first ≡ true
    → c.protocol ≡ some q
    → parse_packet make_protocol false c
      ≡ some (
        record c { msg = behind_checksum key body cipher c.msg f },
        message (opened key body cipher c.msg f),
      )
unfolding parse_packet
parse_packet-message make_protocol key body cipher q c f k e alive past prot = rw (
  alive,
  check_packet-true key body cipher c.msg f,
  past,
  prot,
  on_recv_message-opened key body cipher q c.msg f k e,
)

abbrev checked : List ℕ → List ℕ
checked cipher = le_bytes 4 (Adler.checksum cipher) ++ cipher

length-checked : (xs : List ℕ) → length (checked xs) ≡ length xs + 4
length-checked xs = omega (
  arith,
  length-append (le_bytes 4 (Adler.checksum xs)) xs,
  length-le_bytes 4 (Adler.checksum xs),
)

take_all : (n : ℕ) (xs : List ℕ) → length xs ≡ n → take n xs ≡ xs
take_all zero [] h = refl
take_all zero (x ∷ xs) h = absurd (omega arith)
take_all (suc n) [] h = refl
take_all (suc n) (x ∷ xs) h = ap (◌∷◌ x) (take_all n xs (omega arith))

take-frame : (xs : List ℕ) → take 2 (frame xs) ≡ le_bytes 2 (length xs + 4)
unfolding le_bytes
take-frame xs = refl

drop-frame : (xs : List ℕ) → drop 2 (frame xs) ≡ checked xs
unfolding le_bytes
drop-frame xs = refl

module _ (key body : List ℕ) (o : OutputMessage) (r : IsReady body o) where
  abbrev sent : List ℕ
  sent = cipher key body o r

  small_enough : length sent + 22 ≤ networkmessage_maxsize
  small_enough = omega (arith, length-cipher key body o r, r.room, r.in_step, r.size)

  -- The buffer behind the header is the frame's rest.
  received-IsFramed :
      (m : Message)
      → m.position ≡ 2
      → m.length ≡ length sent + 6
      → length m.buffer ≡ networkmessage_maxsize
      → Holds m.buffer 2 (checked sent)
      → IsFramed key body sent m
  received-IsFramed m at_two size array held =
      let (sum, rest) = Holds-append m.buffer 2 (le_bytes 4 (Adler.checksum sent)) sent held in
      record {
        position = at_two;
        size = size;
        array = array;
        sum = sum;
        held = rw (length-le_bytes 4 (Adler.checksum sent)) at rest;
        whole = length-cipher key body o r;
        small = omega (arith, small_enough);
        bytes = unfold cipher in (cipher-Restores key body r.bytes).bytes_out;
        decrypts = unfold cipher in (cipher-Restores key body r.bytes).restores;
      }

-- What a socket has read when the header's handler asked for the body.
record GotHeader (max_packets now : ℕ) (q : Protocol) (key body : List ℕ) (o : OutputMessage)
    (r : IsReady body o) (c : Connection) : Type 0 where
  after : Connection
  parses :
      parse_header max_packets now false
        (read_into 0 (le_bytes 2 (length (cipher key body o r) + 4)) c)
      ≡ (after, read_body (length (cipher key body o r) + 4))
  alive : is_disconnected after.state ≡ false
  past_first : after.received_first ≡ true
  with_protocol : after.protocol ≡ some q
  framed :
      IsFramed key body
        (cipher key body o r)
        (read_into 2 (checked (cipher key body o r)) after).msg

got_header :
    (max_packets now : ℕ) (q : Protocol) (key body : List ℕ) (o : OutputMessage)
    (r : IsReady body o) (c : Connection)
    → IsOpen max_packets now q c
    → GotHeader max_packets now q key body o r c
got_header max_packets now q key body o r c i =
    let xs = cipher key body o r in
    let two = length-le_bytes 2 (length xs + 4) in
    let small = small_enough key body o r in
    let c0 = read_into 0 (le_bytes 2 (length xs + 4)) c in
    let array0 : length c0.msg.buffer ≡ networkmessage_maxsize =
      length-write_at c.msg.buffer 0 (le_bytes 2 (length xs + 4)) ∙ i.array in
    let open0 : IsOpen max_packets now q c0 = record {
      connected = i.connected;
      past_first = i.past_first;
      with_protocol = i.with_protocol;
      array = array0;
      within = i.within;
    } in
    let (c', parses, msg', state', past', prot') =
      parse_header-read_body max_packets now (length xs + 4) q c0 open0 (omega arith)
        (omega (arith, small))
        (slice-write_at c.msg.buffer 0 (le_bytes 2 (length xs + 4))
          (omega (arith, two, i.array))) in
    let array' : length c'.msg.buffer ≡ networkmessage_maxsize = rw msg' array0 in
    record {
      after = c';
      parses = parses;
      alive = rw state' i.connected;
      past_first = past' ∙ i.past_first;
      with_protocol = prot' ∙ i.with_protocol;
      framed =
          received-IsFramed key body o r (read_into 2 (checked xs) c').msg
            (ap (λ (m : Message). m.position) msg')
            (ap (λ (m : Message). m.length) msg' ∙ omega arith)
            (length-write_at c'.msg.buffer 2 (checked xs) ∙ array')
            (slice-write_at c'.msg.buffer 2 (checked xs)
              (omega (arith, array', length-checked xs, small)));
    }

receive-parts :
    (make_protocol : Bool → Message → Option (Protocol × Message)) (max_packets now n : ℕ)
    (wire header body : List ℕ) (c c' : Connection)
    → take 2 wire ≡ header
    → drop 2 wire ≡ body
    → parse_header max_packets now false (read_into 0 header c) ≡ (c', read_body n)
    → length body ≡ n
    → receive make_protocol max_packets now wire c
      ≡ parse_packet make_protocol false (read_into 2 body c')
unfolding receive
receive-parts make_protocol max_packets now n wire header body c c' front back parses whole =
    rw (front, back, parses) (rw (take_all n body whole))

-- A message that is ready, sent by an encrypting protocol in checksum mode, and read by an open
-- socket whose protocol decrypts with the same key: no assertion fails on the way, the receiver
-- takes the packet, and its reader starts at the first byte of the body, with the body's length.
pub receive-on_send_message :
    (make_protocol : Bool → Message → Option (Protocol × Message)) (max_packets now : ℕ)
    (p q : Protocol) (body : List ℕ) (o : OutputMessage) (c : Connection)
    → IsReady body o
    → p.encryption_enabled ≡ true
    → p.raw_messages ≡ false
    → p.checksum_mode ≡ adler
    → q.encryption_enabled ≡ true
    → q.key ≡ p.key
    → IsOpen max_packets now q c
    → (o' : OutputMessage) × (c' : Connection) × (m : Message) × (on_send_message p o ≡ some o')
      × (receive make_protocol max_packets now (output_bytes o') c ≡ some (c', message m))
      × (m.length ≡ length body)
      × (m.position ≡ 8)
      × (slice 8 (length body) m.buffer ≡ body)
receive-on_send_message make_protocol max_packets now p q body o c r pe praw pmode qe same i =
    let (o', sends, wire) = on_send_message-frame p.key body o r p refl pe praw pmode in
    let g = got_header max_packets now q p.key body o r c i in
    let xs = cipher p.key body o r in
    let c'' = read_into 2 (checked xs) g.after in
    (
      o',
      record c'' { msg = behind_checksum p.key body xs c''.msg g.framed },
      opened p.key body xs c''.msg g.framed,
      sends,
      receive-parts make_protocol max_packets now (length xs + 4) (output_bytes o')
            (le_bytes 2 (length xs + 4)) (checked xs) c g.after (ap (take 2) wire ∙ take-frame xs)
            (ap (drop 2) wire ∙ drop-frame xs) g.parses (length-checked xs)
          ∙ parse_packet-message make_protocol p.key body xs q c'' g.framed same qe g.alive
              g.past_first g.with_protocol,
      refl,
      refl,
      opened-Holds p.key body xs c''.msg g.framed,
    )
