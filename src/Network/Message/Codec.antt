-- ===== src/Network/Message/Codec.antt =====
-- A message read back field by field, as the receiving side does it.
use asca_ci.Base.{
  ℕ, ◌+◌, ◌^◌, ◌≤◌, ◌<◌, ◌≡◌, ◌∙◌, List, [], ◌∷◌, ◌++◌, arith, length, length-append,
}
use asca_ci.Base.Bits.{u16}
use asca_ci.Network.Message.{
  Message, Position, max_body_length, put, add_byte, add, add_string, add_position, get_byte, get,
  get_string, get_position,
}
use asca_ci.Network.Message.Buffer.{le_bytes, length-le_bytes, write_at-append}
use asca_ci.Network.Message.Invariant.{IsOutgoing, put-IsOutgoing}

pub data Field : Type 0 where
  byte : ℕ → Field
  number : ℕ → ℕ → Field
  text : List ℕ → Field
  place : Position → Field

-- What a reader has to know of a field.
pub data Shape : Type 0 where
  a_byte : Shape
  a_number : ℕ → Shape
  a_text : Shape
  a_place : Shape

abbrev pub shape : Field → Shape
shape (byte v) = a_byte
shape (number n v) = a_number n
shape (text s) = a_text
shape (place p) = a_place

unfoldable pub write_field : Field → Message → Message
write_field (byte v) = add_byte v
write_field (number n v) = add n v
write_field (text s) = add_string s
write_field (place p) = add_position p

abbrev retype {ℓ} : {A : Type ℓ} → (A → Field) → A × Message → Field × Message
retype f (a, m) = (f a, m)

unfoldable pub read_field : Shape → Message → Field × Message
read_field a_byte m = retype byte (get_byte m)
read_field (a_number n) m = retype (number n) (get n m)
read_field a_text m = retype text (get_string 0 m)
read_field a_place m = retype place (get_position m)

-- The values that the types of the source admit; a longer text is dropped by `addString`.
abbrev pub Fits : Field → Type 0
Fits (byte v) = v < 0x100
Fits (number n v) = v < 0x100 ^ n
Fits (text s) = length s ≤ 8192
Fits (place p) = (p.x < 0x1_0000) × (p.y < 0x1_0000) × (p.z < 0x100)

abbrev pub encode : Field → List ℕ
encode (byte v) = v ∷ []
encode (number n v) = le_bytes n v
encode (text s) = le_bytes 2 (length s) ++ s
encode (place p) = le_bytes 2 p.x ++ (le_bytes 2 p.y ++ p.z ∷ [])

pub place_size : (p : Position) → length (encode (place p)) ≡ 5
place_size p = omega (
  arith,
  length-append (le_bytes 2 p.x) (le_bytes 2 p.y ++ p.z ∷ []),
  length-append (le_bytes 2 p.y) (p.z ∷ []),
  length-le_bytes 2 p.x,
  length-le_bytes 2 p.y,
)

-- Writes in a row.
pub put-put :
    (m : Message) (xs ys : List ℕ)
    → IsOutgoing m
    → m.position + length (xs ++ ys) < max_body_length
    → put ys (put xs m) ≡ put (xs ++ ys) m
put-put m xs ys v h = ground (arith, length-append xs ys, write_at-append m.buffer m.position xs ys)

add-put :
    (n v : ℕ) (m : Message) → m.position + n < max_body_length → add n v m ≡ put (le_bytes n v) m
unfolding add
add-put n v m room = ground arith

add_string-put :
    (s : List ℕ) (m : Message)
    → length s ≤ 8192
    → m.position + (length s + 2) < max_body_length
    → add_string s m ≡ put s (put (le_bytes 2 (length s)) m)
unfolding add_string
add_string-put s m short room = let e : u16 (length s) ≡ length s = omega arith in ground (arith, e)

add_byte-put :
    (v : ℕ) (m : Message) → m.position + 1 < max_body_length → add_byte v m ≡ put (v ∷ []) m
unfolding add_byte
add_byte-put v m room = ground arith

add_position-put :
    (p : Position) (m : Message)
    → IsOutgoing m
    → m.position + 5 < max_body_length
    → add_position p m ≡ put (encode (place p)) m
unfolding add_position
add_position-put p m i room =
    let xs = le_bytes 2 p.x in
    let ys = le_bytes 2 p.y in
    let i' : IsOutgoing (put xs m) = put-IsOutgoing xs m (omega (arith, length-le_bytes 2 p.x)) i in
    rw
      (
        add-put 2 p.x m (omega arith),
        add-put 2 p.y (put xs m) (omega (arith, length-le_bytes 2 p.x)),
        add_byte-put p.z (put ys (put xs m))
            (omega (arith, length-le_bytes 2 p.x, length-le_bytes 2 p.y)),
      )
      (put-put (put xs m) ys (p.z ∷ []) i'
          (omega (arith, length-append ys (p.z ∷ []), length-le_bytes 2 p.x, length-le_bytes 2 p.y))
        ∙ put-put m xs (ys ++ p.z ∷ []) i (omega (arith, place_size p)))

-- Within the room that is left, each write is one write of the field's bytes.
pub write_field-put :
    (f : Field) (m : Message)
    → IsOutgoing m
    → Fits f
    → m.position + length (encode f) < max_body_length
    → write_field f m ≡ put (encode f) m
unfolding write_field
write_field-put (byte v) m i ok room = add_byte-put v m room
write_field-put (number n v) m i ok room = add-put n v m (omega (arith, length-le_bytes n v))
write_field-put (text s) m i ok room =
    add_string-put s m ok
      (omega (arith, length-append (le_bytes 2 (length s)) s, length-le_bytes 2 (length s)))
    ∙ put-put m (le_bytes 2 (length s)) s i room
write_field-put (place p) m i ok room = add_position-put p m i (omega (arith, place_size p))
