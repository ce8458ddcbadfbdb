-- ===== src/Board.antt =====
-- The white board: rooms, the room manager and the players' sessions (game_base/account/source).
pub mod Message
pub mod World
pub mod Invariant
pub mod Room
pub mod Manager
pub mod Session
pub mod Account
pub mod Tests
