-- ===== src/Network/Output.antt =====
-- src/outputmessage.h: headers are put in front of the body, towards the start of the array.
use asca_ci.Base.{ℕ, ◌+◌, ◌-◌, false, List, Option, none, some, leb, if◌then◌else◌}
use asca_ci.Base.Bits.{u16}
use asca_ci.Network.Message.{Message, initial_buffer_position, put}
use asca_ci.Network.Message.Buffer.{write_at, slice, le_bytes}
use asca_ci.Network.Adler

pub data ChecksumMode : Type 0 where
  disabled adler : ChecksumMode

pub record OutputMessage : Type 0 where
  pub msg : Message
  pub output_buffer_start : ℕ

-- `none` is the failed assertion that the headers still fit.
unfoldable pub add_header : ℕ → ℕ → OutputMessage → Option OutputMessage
add_header n value o =
    if leb n o.output_buffer_start
    then some (record {
      msg = record (o.msg) {
        length = u16 (o.msg.length + n);
        buffer = write_at o.msg.buffer (o.output_buffer_start - n) (le_bytes n value);
      };
      output_buffer_start = o.output_buffer_start - n;
    })
    else none

unfoldable pub write_message_length : OutputMessage → Option OutputMessage
unfolding add_header
write_message_length o = add_header 2 o.msg.length o

infixl 5 ◌>>=◌
abbrev pub ◌>>=◌ {ℓ κ} : {A : Type ℓ} {B : Type κ} → Option A → (A → Option B) → Option B
none >>= f = none
some a >>= f = f a

-- The bytes from `getOutputBuffer()` on, as many as the length says.
abbrev pub output_bytes : OutputMessage → List ℕ
output_bytes o = slice o.output_buffer_start o.msg.length o.msg.buffer

unfoldable pub add_checksum : ChecksumMode → OutputMessage → Option OutputMessage
unfolding add_header
add_checksum adler o = add_header 4 (Adler.checksum (output_bytes o)) o
add_checksum disabled o = some o

unfoldable pub add_crypto_header : ChecksumMode → OutputMessage → Option OutputMessage
unfolding add_checksum write_message_length
add_crypto_header mode o = add_checksum mode o >>= write_message_length

-- `append`: no check of the room that is left.
unfoldable pub append : Message → OutputMessage → OutputMessage
append other o = record o { msg = put (slice 8 other.length other.buffer) o.msg }

-- A new message of the pool. The source leaves its array as it is allocated, so the array is given.
unfoldable pub fresh : List ℕ → OutputMessage
fresh array = record {
  msg = record { length = 0; position = initial_buffer_position; overrun = false; buffer = array };
  output_buffer_start = initial_buffer_position;
}
