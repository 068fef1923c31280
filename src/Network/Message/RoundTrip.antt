-- ===== src/Network/Message/RoundTrip.antt =====
-- A sequence of fields, written to a message and read back from it.
use asca_ci.Base.{
  ℕ, ◌+◌, ◌<◌, ◌≡◌, ap, ◌∙◌, List, [], ◌∷◌, ◌++◌, map, arith, All, length, length-append,
}
use asca_ci.Network.Message.{Message, max_body_length, put, consume}
use asca_ci.Network.Message.Buffer.{slice-write_at, write_at-nil}
use asca_ci.Network.Message.Invariant.{IsOutgoing, put-IsOutgoing}
use asca_ci.Network.Message.Codec.{
  Field, Shape, shape, Fits, encode, write_field, read_field, write_field-put, put-put,
}
use asca_ci.Network.Message.Reading.{
  Readable, Readable-append, consume-consume, read_field-Readable,
}

pub write_fields : List Field → Message → Message
write_fields [] m = m
write_fields (f ∷ fs) m = write_fields fs (write_field f m)

unfoldable pub read_fields : List Shape → Message → List Field × Message
read_fields [] m = ([], m)
read_fields (s ∷ ss) m =
    let (f, m') = read_field s m in let (fs, m'') = read_fields ss m' in (f ∷ fs, m'')

abbrev pub encode_fields : List Field → List ℕ
encode_fields [] = []
encode_fields (f ∷ fs) = encode f ++ encode_fields fs

put-nil : (m : Message) → IsOutgoing m → put [] m ≡ m
put-nil m i = ground (arith, write_at-nil m.buffer m.position)

write_fields-put :
    (fs : List Field) (m : Message)
    → IsOutgoing m
    → All Fits fs
    → m.position + length (encode_fields fs) < max_body_length
    → write_fields fs m ≡ put (encode_fields fs) m
unfolding write_fields
write_fields-put [] m i ok room = rw (put-nil m i)
write_fields-put (f ∷ fs) m i ok room =
    let e = length-append (encode f) (encode_fields fs) in
    let room' : m.position + length (encode f) < max_body_length = omega (arith, e) in
    rw (write_field-put f m i ok.0 room') (
      write_fields-put fs (put (encode f) m) (put-IsOutgoing (encode f) m room' i) ok.1
        (omega (arith, e))
      ∙ put-put m (encode f) (encode_fields fs) i room)

read_fields-Readable :
    (fs : List Field) (m : Message)
    → All Fits fs
    → Readable (encode_fields fs) m
    → read_fields (map shape fs) m ≡ (fs, consume (length (encode_fields fs)) m)
unfolding read_fields
read_fields-Readable [] m ok r = ground (arith, r.below)
read_fields-Readable (f ∷ fs) m ok r =
    let (front, back) = Readable-append (encode f) (encode_fields fs) m r in
    rw
      (
        read_field-Readable f m ok.0 front,
        read_fields-Readable fs (consume (length (encode f)) m) ok.1 back,
        length-append (encode f) (encode_fields fs),
      )
      (ap (λ m'. (f ∷ fs, m'))
        (consume-consume (length (encode f)) (length (encode_fields fs)) m
          (omega (arith, r.below, length-append (encode f) (encode_fields fs)))))

-- Fields of the sizes that their types admit, written one after the other to a message with room
-- for all of them, are read back by a reader that starts where the writing started: the same
-- values in the same order, and the reader ends with the message as the writer left it.
pub read_fields-write_fields :
    (fs : List Field) (m : Message)
    → IsOutgoing m
    → All Fits fs
    → m.position + length (encode_fields fs) < max_body_length
    → read_fields (map shape fs) (record (write_fields fs m) { position = m.position })
      ≡ (fs, write_fields fs m)
read_fields-write_fields fs m i ok room = rw (write_fields-put fs m i ok room) (
    read_fields-Readable fs (record (put (encode_fields fs) m) { position = m.position }) ok
      (record {
        there = slice-write_at m.buffer m.position (encode_fields fs) (omega (arith, i.array));
        inside = omega (arith, i.in_step);
        below = room;
      }))
