-- ===== src/Player.antt =====
-- src/player.cpp and src/player.h: levels, skills and magic levels.
pub mod Experience
pub mod Skills
pub mod Magic
pub mod Offline
pub mod Death
pub mod Vitals
pub mod Tests
