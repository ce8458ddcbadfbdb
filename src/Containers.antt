-- ===== src/Containers.antt =====
-- The ordered containers of the C++ standard library, as far as the sources rely on them.
pub mod Ord
pub mod Map
pub mod Build
pub mod Set
