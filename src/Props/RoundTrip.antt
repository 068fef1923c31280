-- ===== src/Props/RoundTrip.antt =====
-- What is written to a stream is read back from it.
use asca_ci.Base.{
  ℕ, ◌^◌, ◌<◌, ◌≡◌, refl, sym, ap, ◌∙◌, List, [], ◌∷◌, ◌++◌, map, append_assoc, append-nil, Option,
  none, some, ltb, false, if◌then◌else◌, length, length-append, take, drop, arith, All, Bool-cases,
  inl, inr,
}
use asca_ci.Base.Bits.{u16}
use asca_ci.Network.Message.Buffer.{le_bytes, length-le_bytes, le_value-le_bytes}
use asca_ci.Props.{read, read_chars, read_string, write, write_string}

-- A value of a stream.
pub data Entry : Type 0 where
  number : ℕ → ℕ → Entry
  text : List ℕ → Entry

-- What a reader has to know: the width of a number.
pub data Shape : Type 0 where
  a_number : ℕ → Shape
  a_text : Shape

abbrev pub shape : Entry → Shape
shape (number n v) = a_number n
shape (text s) = a_text

unfoldable pub write_entry : Entry → List ℕ → List ℕ
write_entry (number n v) buffer = write n v buffer
write_entry (text s) buffer = write_string s buffer

unfoldable pub write_entries : List Entry → List ℕ → List ℕ
write_entries [] buffer = buffer
write_entries (e ∷ es) buffer = write_entries es (write_entry e buffer)

abbrev retype {ℓ} : {A : Type ℓ} → (A → Entry) → Option A × List ℕ → Option Entry × List ℕ
retype f (none, stream) = (none, stream)
retype f (some a, stream) = (some (f a), stream)

unfoldable pub read_entry : Shape → List ℕ → Option Entry × List ℕ
read_entry (a_number n) stream = retype (number n) (read n stream)
read_entry a_text stream = retype text (read_string stream)

abbrev prepend : Entry → Option (List Entry) × List ℕ → Option (List Entry) × List ℕ
prepend e (none, stream) = (none, stream)
prepend e (some es, stream) = (some (e ∷ es), stream)

-- Reads in a row, up to the first that fails.
abbrev continue :
    (List ℕ → Option (List Entry) × List ℕ) → Option Entry × List ℕ → Option (List Entry) × List ℕ
continue go (none, stream) = (none, stream)
continue go (some e, stream) = prepend e (go stream)

unfoldable pub read_entries : List Shape → List ℕ → Option (List Entry) × List ℕ
read_entries [] stream = (some [], stream)
read_entries (s ∷ ss) stream = continue (read_entries ss) (read_entry s stream)

abbrev pub Fits : Entry → Type 0
Fits (number n v) = v < 0x100 ^ n
Fits (text s) = Unit

-- A text that is too long comes back empty.
abbrev pub kept : List ℕ → List ℕ
kept s = if ltb 0xFFFF (length s) then [] else s

abbrev pub as_read : Entry → Entry
as_read (number n v) = number n v
as_read (text s) = text (kept s)

abbrev encode : Entry → List ℕ
encode (number n v) = le_bytes n v
encode (text s) = le_bytes 2 (length (kept s)) ++ kept s

abbrev encode_all : List Entry → List ℕ
encode_all [] = []
encode_all (e ∷ es) = encode e ++ encode_all es

take-append : (xs ys : List ℕ) → take (length xs) (xs ++ ys) ≡ xs
take-append [] ys = refl
take-append (x ∷ xs) ys = ap (◌∷◌ x) (take-append xs ys)

drop-append : (xs ys : List ℕ) → drop (length xs) (xs ++ ys) ≡ ys
drop-append [] ys = refl
drop-append (x ∷ xs) ys = drop-append xs ys

read-le_bytes :
    (n v : ℕ) (rest : List ℕ) → v < 0x100 ^ n → read n (le_bytes n v ++ rest) ≡ (some v, rest)
unfolding read
read-le_bytes n v rest h =
    let long : ltb (length (le_bytes n v ++ rest)) n ≡ false =
      ground (arith, length-append (le_bytes n v) rest, length-le_bytes n v) in
    let front : take n (le_bytes n v ++ rest) ≡ le_bytes n v =
      ap (λ k. take k (le_bytes n v ++ rest)) (sym (length-le_bytes n v))
      ∙ take-append (le_bytes n v) rest in
    let back : drop n (le_bytes n v ++ rest) ≡ rest =
      ap (λ k. drop k (le_bytes n v ++ rest)) (sym (length-le_bytes n v))
      ∙ drop-append (le_bytes n v) rest in
    rw (long, front, back, le_value-le_bytes n v h) refl

read_chars-append : (s rest : List ℕ) → read_chars (some (length s), s ++ rest) ≡ (some s, rest)
unfolding read_chars
read_chars-append s rest =
    let long : ltb (length (s ++ rest)) (length s) ≡ false = ground (arith, length-append s rest) in
    rw (long, take-append s rest, drop-append s rest) refl

length-kept : (s : List ℕ) → length (kept s) < 0x100 ^ 2
length-kept s = ground arith

read_entry-encode :
    (e : Entry) (rest : List ℕ)
    → Fits e
    → read_entry (shape e) (encode e ++ rest) ≡ (some (as_read e), rest)
unfolding read_entry read_string
read_entry-encode (number n v) rest h = rw (read-le_bytes n v rest h) refl
read_entry-encode (text s) rest h =
    rw
      (
        append_assoc (le_bytes 2 (length (kept s))) (kept s) rest,
        read-le_bytes 2 (length (kept s)) (kept s ++ rest) (length-kept s),
        read_chars-append (kept s) rest,
      )
      refl

write_entry-encode : (e : Entry) (buffer : List ℕ) → write_entry e buffer ≡ buffer ++ encode e
unfolding write_entry write write_string
write_entry-encode (number n v) buffer = refl
write_entry-encode (text s) buffer = elim (Bool-cases (ltb 0xFFFF (length s))) [
  | inl long ↦ rw (long, append-nil) refl
  | inr short ↦
      let same : u16 (length s) ≡ length s = ground (arith, short) in
      rw (short, same) (append_assoc buffer (le_bytes 2 (length s)) s)
]

write_entries-encode :
    (es : List Entry) (buffer : List ℕ) → write_entries es buffer ≡ buffer ++ encode_all es
unfolding write_entries
write_entries-encode [] buffer = sym (append-nil _)
write_entries-encode (e ∷ es) buffer =
    write_entries-encode es (write_entry e buffer)
    ∙ ap (λ b. b ++ encode_all es) (write_entry-encode e buffer)
    ∙ append_assoc buffer (encode e) (encode_all es)

read_entries-encode :
    (es : List Entry) (rest : List ℕ)
    → All Fits es
    → read_entries (map shape es) (encode_all es ++ rest) ≡ (some (map as_read es), rest)
unfolding read_entries
read_entries-encode [] rest h = refl
read_entries-encode (e ∷ es) rest h =
    rw
      (
        append_assoc (encode e) (encode_all es) rest,
        read_entry-encode e (encode_all es ++ rest) h.0,
        read_entries-encode es rest h.1,
      )
      refl

-- Numbers that fit their width, and texts, written one after the other to an empty stream, are
-- read back in the same order, and nothing is left; of the texts, those of more than 65535
-- characters come back empty.
pub read_entries-write_entries :
    (es : List Entry)
    → All Fits es
    → read_entries (map shape es) (write_entries es []) ≡ (some (map as_read es), [])
read_entries-write_entries es h =
    rw (write_entries-encode es [])
      (ap (read_entries (map shape es)) (sym (append-nil _)) ∙ read_entries-encode es [] h)
