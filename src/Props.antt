-- ===== src/Props.antt =====
-- `PropStream` and `PropWriteStream` of src/fileloader.h. The stream is the bytes between `p` and
-- `end`; numbers are stored low byte first, as on the machines that the server is built for.
pub mod RoundTrip
pub mod Tests
use asca_ci.Base.{
  ℕ, Bool, true, false, List, ◌++◌, Option, none, some, ltb, if◌then◌else◌, length, take, drop,
}
use asca_ci.Base.Bits.{u16}
use asca_ci.Network.Message.Buffer.{le_bytes, le_value}

-- `read<T>` of `n` bytes. A stream that is too short stays where it is.
unfoldable pub read : ℕ → List ℕ → Option ℕ × List ℕ
read n stream =
    if ltb (length stream) n
    then (none, stream)
    else (some (le_value (take n stream)), drop n stream)

unfoldable pub skip : ℕ → List ℕ → Bool × List ℕ
skip n stream = if ltb (length stream) n then (false, stream) else (true, drop n stream)

-- The characters behind their number. If they are missing, the number has been read.
unfoldable pub read_chars : Option ℕ × List ℕ → Option (List ℕ) × List ℕ
read_chars (none, stream) = (none, stream)
read_chars (some n, stream) =
    if ltb (length stream) n then (none, stream) else (some (take n stream), drop n stream)

unfoldable pub read_string : List ℕ → Option (List ℕ) × List ℕ
read_string stream = read_chars (read 2 stream)

-- `write<T>` of `n` bytes at the end of the buffer.
unfoldable pub write : ℕ → ℕ → List ℕ → List ℕ
write n value buffer = buffer ++ le_bytes n value

-- A text whose length does not fit two bytes is written as an empty one.
unfoldable pub write_string : List ℕ → List ℕ → List ℕ
unfolding write
write_string text buffer =
    if ltb 0xFFFF (length text)
    then write 2 0 buffer
    else write 2 (u16 (length text)) buffer ++ text
