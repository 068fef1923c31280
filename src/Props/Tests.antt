-- ===== src/Props/Tests.antt =====
-- The attributes of an item.
use asca_ci.Base.{◌≡◌, List, [], ◌∷◌, some, arith, map}
use asca_ci.Props.RoundTrip.{
  Entry, number, text, shape, as_read, read_entries, write_entries, read_entries-write_entries,
}

abbrev entries : List Entry
entries = number 1 15 ∷ number 2 1000 ∷ text (72 ∷ 105 ∷ []) ∷ number 4 0xDEAD_BEEF ∷ []

read_entries-write_entries_example :
    read_entries (map shape entries) (write_entries entries []) ≡ (some (map as_read entries), [])
read_entries-write_entries_example =
    read_entries-write_entries entries (omega arith, (omega arith, (tt, (omega arith, tt))))
