-- ===== src/Network/Message/Reads.antt =====
-- Reading a message whose bytes somebody else chose.
use asca_ci.Base.{not, ◌||◌, ◌+◌, ◌≤◌, ◌<◌, ◌≡◌, true}
use asca_ci.Network.Message.{Message, networkmessage_maxsize}

-- The position lies inside the message and inside the array.
pub record IsInside (m : Message) : Type 0 where
  pub in_message : m.position ≤ m.length + 8
  pub in_array : m.position < networkmessage_maxsize

-- `m'` is `m` after reads: nothing is written, the position only grows, stays inside, and a
-- noted overrun is not forgotten.
pub record Reads (m m' : Message) : Type 0 where
  pub same_buffer : m'.buffer ≡ m.buffer
  pub same_length : m'.length ≡ m.length
  pub forward : m.position ≤ m'.position
  pub inside : IsInside m'
  pub sticky : (not m.overrun || m'.overrun) ≡ true
