-- ===== src/Network/Message/Reading.antt =====
-- Reading what stands in a message: each read gives the value and moves past its bytes.
use asca_ci.Base.{
  ℕ, ◌+◌, ◌^◌, ◌≤◌, ◌<◌, ◌≡◌, ap, true, List, [], ◌∷◌, ◌++◌, arith, length, length-append,
}
use asca_ci.Base.Bits.{u16}
use asca_ci.Network.Message.{
  Message, Position, max_body_length, consume, can_read, get_byte, get, get_chars, get_string,
  get_position,
}
use asca_ci.Network.Message.Buffer.{
  Holds, Holds-append, get_or-Holds, slice, le_bytes, length-le_bytes, le_value-le_bytes,
}
use asca_ci.Network.Message.Codec.{
  Field, byte, number, text, place, shape, Fits, encode, read_field, place_size,
}

-- Reading: the bytes stand at the position, inside the length and the array.
pub record Readable (bytes : List ℕ) (m : Message) : Type 0 where
  pub there : Holds m.buffer m.position bytes
  pub inside : m.position + length bytes ≤ m.length + 8
  pub below : m.position + length bytes < max_body_length

pub Readable-append :
    (xs ys : List ℕ) (m : Message)
    → Readable (xs ++ ys) m
    → Readable xs m × Readable ys (consume (length xs) m)
Readable-append xs ys m r =
    let (front, back) = Holds-append m.buffer m.position xs ys r.there in
    let e : u16 (m.position + length xs) ≡ m.position + length xs =
      omega (arith, r.below, length-append xs ys) in
    (
      record {
        there = front;
        inside = omega (arith, r.inside, length-append xs ys);
        below = omega (arith, r.below, length-append xs ys);
      },
      record {
        there = rw e back;
        inside = omega (arith, r.inside, length-append xs ys);
        below = omega (arith, r.below, length-append xs ys);
      },
    )

pub consume-consume :
    (a b : ℕ) (m : Message)
    → m.position + a + b < max_body_length
    → consume b (consume a m) ≡ consume (a + b) m
consume-consume a b m h = ground arith

can_read-Readable :
    (bytes : List ℕ) (m : Message) → Readable bytes m → can_read (length bytes) m ≡ true
unfolding can_read
can_read-Readable bytes m r = ground (arith, r.inside, r.below)

pub get-Readable :
    (n v : ℕ) (m : Message) → v < 0x100 ^ n → Readable (le_bytes n v) m → get n m ≡ (v, consume n m)
unfolding get
get-Readable n v m small r =
    let ok : can_read n m ≡ true = rw length-le_bytes at (can_read-Readable (le_bytes n v) m r) in
    let held : slice m.position n m.buffer ≡ le_bytes n v = rw length-le_bytes at r.there in
    rw (ok, held, le_value-le_bytes n v small)

get_byte-Readable : (v : ℕ) (m : Message) → Readable (v ∷ []) m → get_byte m ≡ (v, consume 1 m)
unfolding get_byte
get_byte-Readable v m r =
    rw (can_read-Readable (v ∷ []) m r, get_or-Holds m.buffer m.position v 0 r.there)

get_chars-Readable :
    (s : List ℕ) (m : Message) → Readable s m → get_chars (length s) m ≡ (s, consume (length s) m)
unfolding get_chars
get_chars-Readable s m r = rw (can_read-Readable s m r, r.there)

get_string-Readable :
    (s : List ℕ) (m : Message)
    → length s ≤ 8192
    → Readable (encode (text s)) m
    → get_string 0 m ≡ (s, consume (length (encode (text s))) m)
unfolding get_string
get_string-Readable s m short r =
    let (front, back) = Readable-append (le_bytes 2 (length s)) s m r in
    let moved : Readable s (consume 2 m) = rw length-le_bytes at back in
    rw
      (
        get-Readable 2 (length s) m (omega arith) front,
        get_chars-Readable s (consume 2 m) moved,
        length-append (le_bytes 2 (length s)) s,
        length-le_bytes 2 (length s),
      )
      (ap (λ m'. (s, m'))
        (consume-consume 2 (length s) m (
          omega (
            arith,
            r.below,
            length-append (le_bytes 2 (length s)) s,
            length-le_bytes 2 (length s),
          ))))

get_position-Readable :
    (p : Position) (m : Message)
    → Fits (place p)
    → Readable (encode (place p)) m
    → get_position m ≡ (p, consume 5 m)
unfolding get_position
get_position-Readable p m ok r =
    let (front, back) = Readable-append (le_bytes 2 p.x) (le_bytes 2 p.y ++ p.z ∷ []) m r in
    let rest : Readable (le_bytes 2 p.y ++ p.z ∷ []) (consume 2 m) = rw length-le_bytes at back in
    let (middle, last) = Readable-append (le_bytes 2 p.y) (p.z ∷ []) (consume 2 m) rest in
    let end : Readable (p.z ∷ []) (consume 2 (consume 2 m)) = rw length-le_bytes at last in
    rw
      (
        get-Readable 2 p.x m (omega arith) front,
        get-Readable 2 p.y (consume 2 m) (omega arith) middle,
        get_byte-Readable p.z (consume 2 (consume 2 m)) end,
      )
      (ap (λ m'. (p, m')) (ground arith))

pub read_field-Readable :
    (f : Field) (m : Message)
    → Fits f
    → Readable (encode f) m
    → read_field (shape f) m ≡ (f, consume (length (encode f)) m)
unfolding read_field
read_field-Readable (byte v) m ok r = rw (get_byte-Readable v m r)
read_field-Readable (number n v) m ok r = rw (get-Readable n v m ok r, length-le_bytes n v)
read_field-Readable (text s) m ok r = rw (get_string-Readable s m ok r)
read_field-Readable (place p) m ok r = rw (get_position-Readable p m ok r, place_size p)
