-- ===== src/Poker.antt =====
-- The poker game "dou niu" of DN_application/DN_Account/dn_poker.h and dn_poker.cpp.
pub mod Card
pub mod Deck
pub mod Group
pub mod Cow
pub mod Check
pub mod Gen
pub mod Draw
pub mod Tests
