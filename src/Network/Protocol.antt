-- ===== src/Network/Protocol.antt =====
-- src/protocol.cpp: framing, encryption and the autosend buffer of one client.
pub mod Framing
pub mod Sending
pub mod Receiving
pub mod Delivery
use asca_ci.Base.{
  ℕ, ◌+◌, ◌-◌, ◌%◌, Bool, true, false, List, [], ◌∷◌, ◌++◌, Option, none, some, ltb, leb, ◌==◌,
  if◌then◌else◌, length, take, drop, not,
}
use asca_ci.Network.Message.{Message, max_protocol_body_length, add_padding_bytes, get, get_byte}
use asca_ci.Network.Output.{
  OutputMessage, ChecksumMode, write_message_length, add_crypto_header, ◌>>=◌, fresh,
}
use asca_ci.Network.Message.Buffer.{slice, write_at}
use asca_ci.Network.Xtea

pub record Protocol : Type 0 where
  pub output_buffer : Option OutputMessage
  pub key : List ℕ
  pub encryption_enabled : Bool
  pub checksum_mode : ChecksumMode
  pub raw_messages : Bool

-- The cipher works on the memory from an offset on.
unfoldable pub encrypt_at : List ℕ → ℕ → ℕ → List ℕ → Option (List ℕ)
encrypt_at key start size buf = do
  back ← Xtea.encrypt (drop start buf) size key
  some (take start buf ++ back)

unfoldable pub decrypt_at : List ℕ → ℕ → ℕ → List ℕ → Option (List ℕ)
decrypt_at key start size buf = do
  back ← Xtea.decrypt (drop start buf) size key
  some (take start buf ++ back)

-- Padded to whole blocks of 8 bytes.
unfoldable pub pad : OutputMessage → OutputMessage
unfolding add_padding_bytes
pad o =
    let padding_bytes = o.msg.length % 8 in
    if padding_bytes == 0 then o else record o { msg = add_padding_bytes (8 - padding_bytes) o.msg }

unfoldable pub xtea_encrypt : List ℕ → OutputMessage → Option OutputMessage
unfolding pad encrypt_at
xtea_encrypt key o = do
  let p = pad o
  buf ← encrypt_at key p.output_buffer_start p.msg.length p.msg.buffer
  some (record p { msg = record (p.msg) { buffer = buf } })

-- `none` is a failed assertion, or a read past the array.
unfoldable pub on_send_message : Protocol → OutputMessage → Option OutputMessage
unfolding write_message_length xtea_encrypt add_crypto_header
on_send_message p o =
    if p.raw_messages
    then some o
    else (write_message_length o >>= λ o'.
        if p.encryption_enabled
        then (xtea_encrypt p.key o' >>= add_crypto_header p.checksum_mode)
        else some o')

-- `length - 6` is a multiple of 8, and so is `length + 2`; a length below 6 fails this test.
-- The flag says whether the message was taken; the cipher's fault is `none`.
unfoldable pub xtea_decrypt : List ℕ → Message → Option (Bool × Message)
unfolding decrypt_at
xtea_decrypt key m =
    if (m.length + 2) % 8 == 0
    then (decrypt_at key m.position (m.length - 6) m.buffer >>= λ buf.
        let (inner_length, m') = get 2 (record m { buffer = buf }) in
        if ltb m.length (inner_length + 8)
        then some (false, m')
        else some (true, record m' { length = inner_length }))
    else some (false, m)

-- The message that `parsePacket` is called with, if it is called.
unfoldable pub on_recv_message : Protocol → Message → Option (Option Message)
unfolding xtea_decrypt
on_recv_message p m =
    if p.encryption_enabled
    then (xtea_decrypt p.key m >>= λ r. if r.0 then some (some r.1) else some none)
    else some (some m)

-- The RSA cipher, of src/rsa.cpp over a library, works on 128 bytes; it is an argument.
unfoldable pub rsa_decrypt : (List ℕ → List ℕ) → Message → Bool × Message
rsa_decrypt cipher m =
    if ltb (m.length - m.position) 128
    then (false, m)
    else (let plain = cipher (slice m.position 128 m.buffer) in
        let (first, m') = get_byte (record m { buffer = write_at m.buffer m.position plain }) in
        (first == 0, m'))

pub record Buffered : Type 0 where
  pub protocol : Protocol
  pub sent : List OutputMessage

keep_buffer : Buffered → OutputMessage → List OutputMessage → Buffered × OutputMessage
keep_buffer b o sent =
    (record { protocol = record (b.protocol) { output_buffer = some o }; sent = sent }, o)

-- `getOutputBuffer`: a full buffer is sent and replaced. The array of a new message is given.
unfoldable pub get_output_buffer : List ℕ → ℕ → Buffered → Buffered × OutputMessage
unfolding keep_buffer
get_output_buffer array size b = elim b.protocol.output_buffer [
  | none ↦ keep_buffer b (fresh array) b.sent
  | some o ↦
      if ltb max_protocol_body_length (o.msg.length + size)
      then keep_buffer b (fresh array) (b.sent ++ o ∷ [])
      else keep_buffer b o b.sent
]
