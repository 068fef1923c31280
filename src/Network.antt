-- ===== src/Network.antt =====
-- The wire: the cipher, the checksum, the message buffers, the framing and the send queue.
pub mod Adler
pub mod Message
pub mod Output
pub mod Protocol
pub mod Connection
pub mod Xtea
pub mod Tests
