-- ===== src/Network/Protocol/Sending.antt =====
-- An encrypted message on the wire: the frame around the cipher of its padded body.
use asca_ci.Base.{
  ℕ, zero, suc, ◌+◌, ◌*◌, ◌/◌, ◌≤◌, ◌≡◌, ap, ◌∙◌, true, false, List, [], ◌∷◌, ◌++◌, some, arith,
  All, length, length-append, length-drop, take, drop, replicate,
}
use asca_ci.Network.Adler
use asca_ci.Network.Message.{networkmessage_maxsize}
use asca_ci.Network.Message.Buffer.{
  Holds, write_at, slice, le_bytes, length-le_bytes, slice-write_at, length-write_at,
}
use asca_ci.Network.Message.Slices.{
  Holds-join, Holds-write_after, drop-Holds, Holds-behind_take, length-take_le,
}
use asca_ci.Network.Output.{OutputMessage, add_crypto_header, output_bytes, adler}
use asca_ci.Network.Protocol.{Protocol, xtea_encrypt, on_send_message}
use asca_ci.Network.Protocol.Framing.{
  IsReady, blocks, plain, length-plain, frame, padding, headed, padded, padded_buffer,
  write_message_length-headed, pad-padded, padded-Holds,
}
use asca_ci.Network.Xtea
use asca_ci.Network.Xtea.Words.{IsByte}
use asca_ci.Network.Xtea.Laws.{Restores, encrypt-decrypt-Restores}
use asca_ci.Network.Xtea.Local.{encrypt-IsLocal}

All-append : (xs ys : List ℕ) → All IsByte xs → All IsByte ys → All IsByte (xs ++ ys)
All-append [] ys hx hy = hy
All-append (x ∷ xs) ys hx hy = (hx.0, All-append xs ys hx.1 hy)

All-replicate : (n b : ℕ) → IsByte b → All IsByte (replicate n b)
All-replicate zero b h = tt
All-replicate (suc n) b h = (h, All-replicate n b h)

All-le_bytes : (n v : ℕ) → All IsByte (le_bytes n v)
unfolding le_bytes
All-le_bytes zero v = tt
All-le_bytes (suc n) v = (omega arith, All-le_bytes n (v / 0x100))

plain-bytes : (body : List ℕ) → All IsByte body → All IsByte (plain body)
plain-bytes body h =
    All-append (le_bytes 2 (length body)) _ (All-le_bytes 2 (length body))
      (All-append body _ h (All-replicate (padding (length body)) 0x33 (omega arith)))

-- Encrypting the padded body of bytes works, and can be undone.
pub cipher-Restores :
    (key body : List ℕ)
    → All IsByte body
    → Restores
        (λ b. Xtea.encrypt b (blocks body * 8) key)
        (λ b. Xtea.decrypt b (blocks body * 8) key)
        (plain body)
cipher-Restores key body h =
    encrypt-decrypt-Restores key (blocks body * 8) (plain body) (omega (arith, length-plain body))
      (plain-bytes body h)

module _ (key body : List ℕ) (o : OutputMessage) (r : IsReady body o) where
  unfoldable pub cipher : List ℕ
  cipher = (cipher-Restores key body r.bytes).out

  rest : List ℕ
  rest = drop (length (plain body)) (drop 6 (padded_buffer body o))

  abbrev sealed_buffer : List ℕ
  sealed_buffer = take 6 (padded_buffer body o) ++ (cipher ++ rest)

  abbrev sealed : OutputMessage
  sealed = record (padded body o) { msg = record ((padded body o).msg) { buffer = sealed_buffer } }

  drop-padded : drop 6 (padded_buffer body o) ≡ plain body ++ rest
  unfolding rest
  drop-padded = drop-Holds (padded_buffer body o) 6 (plain body) (padded-Holds body o r)

  pub length-cipher : length cipher ≡ blocks body * 8
  unfolding cipher
  length-cipher = (cipher-Restores key body r.bytes).same_length ∙ length-plain body

  encrypt-padded :
      Xtea.encrypt (drop 6 (padded_buffer body o)) (blocks body * 8) key ≡ some (cipher ++ rest)
  unfolding cipher
  encrypt-padded = rw (
    drop-padded,
    (encrypt-IsLocal key (blocks body)).front (plain body) rest (length-plain body),
    (cipher-Restores key body r.bytes).returns,
  )

  xtea_encrypt-sealed : xtea_encrypt key (headed body o) ≡ some sealed
  unfolding xtea_encrypt
  xtea_encrypt-sealed = rw (pad-padded body o r, encrypt-padded)

  length-padded_buffer : length (padded_buffer body o) ≡ networkmessage_maxsize
  length-padded_buffer = rw (length-write_at, length-write_at) r.array

  body_fits : blocks body * 8 + 14 ≤ networkmessage_maxsize
  body_fits = omega (arith, r.room, r.in_step, r.size)

  length-sealed_buffer : length sealed_buffer ≡ networkmessage_maxsize
  length-sealed_buffer = omega (
    arith,
    length-append (take 6 (padded_buffer body o)) (cipher ++ rest),
    ap length drop-padded,
    length-append (plain body) rest,
    length-append cipher rest,
    length-cipher,
    length-plain body,
    length-drop 6 (padded_buffer body o),
    length-take_le 6 (padded_buffer body o) (omega (arith, length-padded_buffer)),
    length-padded_buffer,
  )

  sealed-Holds : Holds sealed_buffer 6 cipher
  sealed-Holds =
      Holds-behind_take (padded_buffer body o) 6 cipher rest (omega (arith, length-padded_buffer))

  abbrev summed_buffer : List ℕ
  summed_buffer = write_at sealed_buffer 2 (le_bytes 4 (Adler.checksum cipher))

  abbrev framed_buffer : List ℕ
  framed_buffer = write_at summed_buffer 0 (le_bytes 2 (length cipher + 4))

  abbrev framed : OutputMessage
  framed = record {
    msg = record ((padded body o).msg) { length = length cipher + 6; buffer = framed_buffer };
    output_buffer_start = 0;
  }

  add_crypto_header-framed : add_crypto_header adler sealed ≡ some framed
  unfolding add_crypto_header
  add_crypto_header-framed =
      let whole : slice 6 (blocks body * 8) sealed_buffer ≡ cipher =
        rw length-cipher at sealed-Holds in
      rw whole (ground (arith, length-cipher, body_fits))

  framed-Holds : Holds framed_buffer 0 (frame cipher)
  framed-Holds =
      let two = length-le_bytes 2 (length cipher + 4) in
      let four = length-le_bytes 4 (Adler.checksum cipher) in
      let summed_size = length-write_at sealed_buffer 2 (le_bytes 4 (Adler.checksum cipher)) in
      let header = le_bytes 2 (length cipher + 4) in
      let sum = le_bytes 4 (Adler.checksum cipher) in
      Holds-join framed_buffer 0 header (sum ++ cipher)
        (slice-write_at summed_buffer 0 header
          (omega (arith, two, summed_size, length-sealed_buffer)))
        (rw two (
          Holds-join framed_buffer 2 sum cipher
            (Holds-write_after summed_buffer 0 header 2 sum (omega (arith, two))
              (slice-write_at sealed_buffer 2 sum (omega (arith, four, length-sealed_buffer))))
            (rw four (
              Holds-write_after summed_buffer 0 header 6 cipher (omega (arith, two)) (
                Holds-write_after sealed_buffer 2 sum 6 cipher (omega (arith, four))
                  sealed-Holds)))))

  length-frame : length (frame cipher) ≡ length cipher + 6
  length-frame =
      let sum = le_bytes 4 (Adler.checksum cipher) in
      omega (
        arith,
        length-append (le_bytes 2 (length cipher + 4)) (sum ++ cipher),
        length-append sum cipher,
        length-le_bytes 2 (length cipher + 4),
        length-le_bytes 4 (Adler.checksum cipher),
      )

  -- What an encrypting client sends of a ready message: no assertion fails, and the bytes handed
  -- to the socket are the frame around the cipher.
  pub on_send_message-frame :
      (p : Protocol)
      → p.key ≡ key
      → p.encryption_enabled ≡ true
      → p.raw_messages ≡ false
      → p.checksum_mode ≡ adler
      → (o' : OutputMessage) × (on_send_message p o ≡ some o') × (output_bytes o' ≡ frame cipher)
  unfolding on_send_message
  on_send_message-frame p k e raw mode = (
    framed,
    rw (
      raw,
      write_message_length-headed body o r,
      e,
      k,
      xtea_encrypt-sealed,
      mode,
      add_crypto_header-framed,
    ),
    rw length-frame at framed-Holds,
  )
