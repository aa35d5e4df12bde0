-- ===== src/Hiscores.antt =====
-- internal/hiscores: names of players, and the client of the official hiscores.
pub mod Rsn
pub mod Client
pub mod Tests
