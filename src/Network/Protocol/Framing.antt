-- ===== src/Network/Protocol/Framing.antt =====
-- What `onSendMessage` puts on the wire.
use asca_ci.Base.{
  ℕ, ◌+◌, ◌-◌, ◌*◌, ◌/◌, ◌%◌, ◌<◌, ◌≡◌, ◌∙◌, List, ◌++◌, some, arith, ◌==◌, All, length,
  length-append, replicate, length-replicate, Bool-cases, inl, inr,
}
use asca_ci.Network.Adler
use asca_ci.Network.Message.{max_body_length, networkmessage_maxsize}
use asca_ci.Network.Message.Buffer.{
  Holds, write_at, le_bytes, length-le_bytes, slice-write_at, slice-write_before, length-write_at,
  write_at-nil,
}
use asca_ci.Network.Message.Slices.{Holds-join, Holds-write_after}
use asca_ci.Network.Output.{OutputMessage, write_message_length}
use asca_ci.Network.Protocol.{pad}
use asca_ci.Network.Xtea.Words.{IsByte}

-- The bytes of padding behind a body of `n` bytes and its length.
abbrev pub padding : ℕ → ℕ
padding n = (8 - (n + 2) % 8) % 8

-- The body behind its length, padded to whole blocks.
abbrev pub plain : List ℕ → List ℕ
plain body = le_bytes 2 (length body) ++ (body ++ replicate (padding (length body)) 0x33)

abbrev pub blocks : List ℕ → ℕ
blocks body = (length body + 9) / 8

pub length-plain : (body : List ℕ) → length (plain body) ≡ blocks body * 8
length-plain body =
    let tail : List ℕ = replicate (padding (length body)) 0x33 in
    omega (
      arith,
      length-append (le_bytes 2 (length body)) (body ++ tail),
      length-append body tail,
      length-le_bytes 2 (length body),
      length-replicate {A = ℕ} (padding (length body)) 0x33,
    )

-- The frame around the encrypted blocks: the length of what follows, and its checksum.
abbrev pub frame : List ℕ → List ℕ
frame cipher = le_bytes 2 (length cipher + 4) ++ (le_bytes 4 (Adler.checksum cipher) ++ cipher)

-- A message ready to be sent: its body stands behind the room for the headers.
pub record IsReady (body : List ℕ) (o : OutputMessage) : Type 0 where
  pub start : o.output_buffer_start ≡ 8
  pub array : length o.msg.buffer ≡ networkmessage_maxsize
  pub in_step : o.msg.position ≡ o.msg.length + 8
  pub room : o.msg.position + 8 < max_body_length
  pub held : Holds o.msg.buffer 8 body
  pub size : length body ≡ o.msg.length
  pub bytes : All IsByte body

abbrev pub headed_buffer : List ℕ → OutputMessage → List ℕ
headed_buffer body o = write_at o.msg.buffer 6 (le_bytes 2 (length body))

abbrev pub padded_buffer : List ℕ → OutputMessage → List ℕ
padded_buffer body o =
    write_at (headed_buffer body o) (8 + length body) (replicate (padding (length body)) 0x33)

abbrev pub headed : List ℕ → OutputMessage → OutputMessage
headed body o = record {
  msg = record (o.msg) { length = length body + 2; buffer = headed_buffer body o };
  output_buffer_start = 6;
}

abbrev pub padded : List ℕ → OutputMessage → OutputMessage
padded body o = record {
  msg = record (o.msg) {
    length = blocks body * 8;
    position = 8 + length body + padding (length body);
    buffer = padded_buffer body o;
  };
  output_buffer_start = 6;
}

module _ (body : List ℕ) (o : OutputMessage) (r : IsReady body o) where
  pub write_message_length-headed : write_message_length o ≡ some (headed body o)
  unfolding write_message_length
  write_message_length-headed = ground (arith, r.start, r.size, r.room, r.in_step)

  pub pad-padded : pad (headed body o) ≡ padded body o
  unfolding pad
  pad-padded = elim (Bool-cases ((length body + 2) % 8 == 0)) [
    | inl whole ↦
        let none_left : padding (length body) ≡ 0 = ground arith in
        rw (whole, none_left)
          (ground (arith, r.size, r.in_step, write_at-nil (headed_buffer body o) (8 + length body)))
    | inr more ↦
        let rest : 8 - (length body + 2) % 8 ≡ padding (length body) = ground arith in
        let filled = length-replicate {A = ℕ} (padding (length body)) 0x33 in
        rw (more, rest) (ground (arith, r.size, r.in_step, r.room, filled))
  ]

  pub padded-Holds : Holds (padded_buffer body o) 6 (plain body)
  padded-Holds =
      let two = length-le_bytes 2 (length body) in
      let tail : List ℕ = replicate (padding (length body)) 0x33 in
      let filled : length tail ≡ padding (length body) = length-replicate _ _ in
      let headed_size = length-write_at o.msg.buffer 6 (le_bytes 2 (length body)) in
      Holds-join (padded_buffer body o) 6 (le_bytes 2 (length body)) (body ++ tail)
        (slice-write_before (headed_buffer body o) 6 (length (le_bytes 2 (length body)))
            (8 + length body) tail (omega (arith, two))
          ∙ slice-write_at o.msg.buffer 6 (le_bytes 2 (length body)) (omega (arith, two, r.array)))
        (rw two (
          Holds-join (padded_buffer body o) 8 body tail
            (slice-write_before (headed_buffer body o) 8 (length body) (8 + length body) tail
                (omega arith)
              ∙ Holds-write_after o.msg.buffer 6 (le_bytes 2 (length body)) 8 body
                  (omega (arith, two)) r.held)
            (slice-write_at (headed_buffer body o) (8 + length body) tail
              (omega (arith, filled, headed_size, r.array, r.size, r.in_step, r.room)))))
