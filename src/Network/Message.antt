-- ===== src/Network/Message.antt =====
-- src/networkmessage.h and src/networkmessage.cpp. The buffer is the array's bytes; a number of
-- several bytes is stored low byte first, as on the machines that the server is built for.
pub mod Buffer
pub mod Invariant
pub mod Codec
pub mod Reading
pub mod RoundTrip
pub mod Slices
pub mod Reads
use asca_ci.Base.{
  ℕ, ◌+◌, ◌-◌, ◌*◌, bit_and, bit_or, Bool, true, false, not, ◌||◌, ◌&&◌, List, [], ◌∷◌, ltb, leb,
  ◌==◌, if◌then◌else◌, length as size, get_or, replicate,
}
use asca_ci.Base.Bits.{u16}
use Buffer.{write_at, slice, le_bytes, le_value}

abbrev pub initial_buffer_position : ℕ
initial_buffer_position = 8

abbrev pub networkmessage_maxsize : ℕ
networkmessage_maxsize = 24590

-- The array's size less 2 bytes of header, 4 of checksum and 8 of padding.
abbrev pub max_body_length : ℕ
max_body_length = 24576

abbrev pub max_protocol_body_length : ℕ
max_protocol_body_length = 24566

-- `info` and `buffer`.
pub record Message : Type 0 where
  pub length : ℕ
  pub position : ℕ
  pub overrun : Bool
  pub buffer : List ℕ

unfoldable pub reset : Message → Message
reset m = record m { length = 0; position = initial_buffer_position; overrun = false }

unfoldable pub can_add : ℕ → Message → Bool
can_add size m = ltb (size + m.position) max_body_length

-- The test of `canRead`; a failed test also sets `overrun`. Where the position lies past the
-- array the difference is 0 here and negative there: both refuse.
unfoldable pub can_read : ℕ → Message → Bool
can_read size m =
    leb (m.position + size) (m.length + 8) && ltb size (networkmessage_maxsize - m.position)

abbrev refuse : Message → Message
refuse m = record m { overrun = true }

-- The bytes at the position, which moves past them.
abbrev pub consume : ℕ → Message → Message
consume size m = record m { position = u16 (m.position + size) }

unfoldable pub get_byte : Message → ℕ × Message
unfolding can_read
get_byte m = if can_read 1 m then (get_or m.buffer m.position 0, consume 1 m) else (0, refuse m)

unfoldable pub get_previous_byte : Message → ℕ × Message
get_previous_byte m =
    if m.position == 0
    then (0, m)
    else (get_or m.buffer (m.position - 1) 0, record m { position = m.position - 1 })

-- `get<T>` for an unsigned type of `size` bytes.
unfoldable pub get : ℕ → Message → ℕ × Message
unfolding can_read
get size m =
    if can_read size m
    then (le_value (slice m.position size m.buffer), consume size m)
    else (0, refuse m)

get_chars : ℕ → Message → List ℕ × Message
unfolding can_read
get_chars size m =
    if can_read size m then (slice m.position size m.buffer, consume size m) else ([], refuse m)

-- A length of 0 says that the message holds the length.
unfoldable pub get_string : ℕ → Message → List ℕ × Message
unfolding get get_chars
get_string size m =
    if size == 0 then (let (held, m') = get 2 m in get_chars held m') else get_chars size m

pub record Position : Type 0 where
  pub x : ℕ
  pub y : ℕ
  pub z : ℕ

unfoldable pub get_position : Message → Position × Message
unfolding get get_byte
get_position m =
    let (x, m1) = get 2 m in
    let (y, m2) = get 2 m1 in let (z, m3) = get_byte m2 in (record { x = x; y = y; z = z }, m3)

-- The `int16_t` argument as its bit pattern.
unfoldable pub skip_bytes : ℕ → Message → Message
skip_bytes count m = record m { position = u16 (m.position + count) }

-- Bytes copied to the position, which moves past them; the length grows by as many.
abbrev pub put : List ℕ → Message → Message
put bytes m = record m {
  position = u16 (m.position + size bytes);
  length = u16 (m.length + size bytes);
  buffer = write_at m.buffer m.position bytes;
}

unfoldable pub add_byte : ℕ → Message → Message
unfolding can_add
add_byte value m = if can_add 1 m then put (value ∷ []) m else m

-- `add<T>` for an unsigned type of `n` bytes.
unfoldable pub add : ℕ → ℕ → Message → Message
unfolding can_add
add n value m = if can_add n m then put (le_bytes n value) m else m

unfoldable pub add_bytes : List ℕ → Message → Message
unfolding can_add
add_bytes bytes m = if not (can_add (size bytes) m) || ltb 8192 (size bytes) then m else put bytes m

unfoldable pub add_padding_bytes : ℕ → Message → Message
unfolding can_add
add_padding_bytes n m = if can_add n m then put (replicate n 0x33) m else m

unfoldable pub add_string : List ℕ → Message → Message
unfolding can_add add
add_string value m =
    if not (can_add (size value + 2) m) || ltb 8192 (size value)
    then m
    else put value (add 2 (u16 (size value)) m)

unfoldable pub add_position : Position → Message → Message
unfolding add add_byte
add_position pos m = add_byte pos.z (add 2 pos.y (add 2 pos.x m))

-- What the message needs of an item's type.
pub record ItemType : Type 0 where
  pub client_id : ℕ
  pub stackable : Bool
  pub splash : Bool
  pub fluid_container : Bool

-- `fluidMap`, by the low three bits of a count.
abbrev pub fluid_map : List ℕ
fluid_map = 0 ∷ 1 ∷ 5 ∷ 3 ∷ 6 ∷ 8 ∷ 9 ∷ 2 ∷ []

-- The table of item types is an argument.
unfoldable pub add_item : (ℕ → ItemType) → ℕ → ℕ → Message → Message
unfolding add add_byte
add_item items id count m =
    let it = items id in
    let m' = add 2 it.client_id m in
    if it.stackable
    then add_byte count m'
    else if it.splash || it.fluid_container
    then add_byte (get_or fluid_map (bit_and count 7) 0) m'
    else m'

unfoldable pub add_item_id : (ℕ → ItemType) → ℕ → Message → Message
unfolding add
add_item_id items id m = add 2 (items id).client_id m

unfoldable pub get_length_header : Message → ℕ
get_length_header m = u16 (bit_or (get_or m.buffer 0 0) (get_or m.buffer 1 0 * 0x100))
