-- ===== src/Player.antt =====
-- The data of a player: game_base/account/player_def.h and source/player_def.cpp.
pub mod Trade
pub mod Json
pub mod Account
pub mod Options
pub mod Property
pub mod Props
pub mod Changes
pub mod Character
