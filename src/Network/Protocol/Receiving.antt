-- ===== src/Network/Protocol/Receiving.antt =====
-- A framed message taken from the wire: its checksum, its decryption and its body.
use asca_ci.Base.{
  ℕ, ◌+◌, ◌-◌, ◌*◌, ◌%◌, ◌≤◌, ◌≡◌, ◌∙◌, true, List, ◌++◌, some, arith, All, length, take, drop,
  ◌==◌,
}
use asca_ci.Network.Adler
use asca_ci.Network.Adler.Laws.{checksum-lt}
use asca_ci.Network.Connection.{check_packet}
use asca_ci.Network.Message.{Message, networkmessage_maxsize, get}
use asca_ci.Network.Message.Buffer.{Holds, Holds-append, le_bytes, length-le_bytes}
use asca_ci.Network.Message.Reading.{get-Readable}
use asca_ci.Network.Message.Slices.{drop-Holds, Holds-behind_take}
use asca_ci.Network.Protocol.{decrypt_at, xtea_decrypt}
use asca_ci.Network.Protocol.Framing.{blocks, plain}
use asca_ci.Network.Xtea
use asca_ci.Network.Xtea.Words.{IsByte}
use asca_ci.Network.Xtea.Local.{decrypt-IsLocal}

-- A message whose frame, but for the length, stands behind the header.
pub record IsFramed (key body cipher : List ℕ) (m : Message) : Type 0 where
  pub position : m.position ≡ 2
  pub size : m.length ≡ length cipher + 6
  pub array : length m.buffer ≡ networkmessage_maxsize
  pub sum : Holds m.buffer 2 (le_bytes 4 (Adler.checksum cipher))
  pub held : Holds m.buffer 6 cipher
  pub whole : length cipher ≡ blocks body * 8
  pub small : length cipher + 14 ≤ networkmessage_maxsize
  pub bytes : All IsByte cipher
  pub decrypts : Xtea.decrypt cipher (blocks body * 8) key ≡ some (plain body)

module _ (key body cipher : List ℕ) (m : Message) (f : IsFramed key body cipher m) where
  abbrev pub behind_checksum : Message
  behind_checksum = record m { position = 6 }

  get-checksum : get 4 m ≡ (Adler.checksum cipher, behind_checksum)
  get-checksum =
      get-Readable 4 (Adler.checksum cipher) m (checksum-lt cipher f.bytes (omega (arith, f.small)))
        (record {
          there = rw f.position f.sum;
          inside = omega (arith, f.position, length-le_bytes 4 (Adler.checksum cipher));
          below = omega (arith, f.position, length-le_bytes 4 (Adler.checksum cipher));
        })
      ∙ ground (arith, f.position)

  pub check_packet-true : check_packet m ≡ (true, behind_checksum)
  unfolding check_packet
  check_packet-true =
      let len : m.length - (m.position + 4) ≡ length cipher = omega (arith, f.position, f.size) in
      rw (get-checksum, len) (ground (arith, f.held, f.position, f.whole))

  pub rest : List ℕ
  rest = drop (length cipher) (drop 6 m.buffer)

  abbrev pub plain_buffer : List ℕ
  plain_buffer = take 6 m.buffer ++ (plain body ++ rest)

  drop-cipher : drop 6 m.buffer ≡ cipher ++ rest
  unfolding rest
  drop-cipher = drop-Holds m.buffer 6 cipher f.held

  plain-Holds : Holds plain_buffer 6 (plain body)
  plain-Holds = Holds-behind_take m.buffer 6 (plain body) rest (omega (arith, f.array))

  decrypt_at-plain : decrypt_at key 6 (blocks body * 8) m.buffer ≡ some plain_buffer
  unfolding decrypt_at
  decrypt_at-plain =
      rw (drop-cipher, (decrypt-IsLocal key (blocks body)).front cipher rest f.whole, f.decrypts)

  abbrev pub opened : Message
  opened = record m { length = length body; position = 8; buffer = plain_buffer }

  pub xtea_decrypt-opened : xtea_decrypt key behind_checksum ≡ some (true, opened)
  unfolding xtea_decrypt
  xtea_decrypt-opened =
      let len : m.length - 6 ≡ blocks body * 8 = omega (arith, f.size, f.whole) in
      let aligned : ((m.length + 2) % 8 == 0) ≡ true = ground (arith, f.size, f.whole) in
      let inner =
        get-Readable 2 (length body) (record m { position = 6; buffer = plain_buffer })
          (omega (arith, f.small, f.whole))
          (record {
            there = (Holds-append plain_buffer 6 (le_bytes 2 (length body)) _ plain-Holds).0;
            inside = omega (arith, f.size, length-le_bytes 2 (length body), f.whole);
            below = omega (arith, length-le_bytes 2 (length body));
          }) in
      rw (aligned, len, decrypt_at-plain, inner) (ground (arith, f.size, f.whole))

  pub opened-Holds : Holds opened.buffer 8 body
  opened-Holds =
      let behind = (Holds-append plain_buffer 6 (le_bytes 2 (length body)) _ plain-Holds).1 in
      (Holds-append plain_buffer 8 body _ (rw (length-le_bytes 2 (length body)) at behind)).0
