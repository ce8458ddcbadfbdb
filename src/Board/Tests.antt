-- ===== src/Board/Tests.antt =====
-- Concrete runs of the white board: a codec, a store of two rooms, and the theorems applied to it.
pub mod Wire
pub mod Runs
