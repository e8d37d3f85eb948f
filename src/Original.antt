-- ===== src/Original.antt =====
-- The programs of so-src/original, which so-src/get_taskstats.c comes from.
pub mod Loops
pub mod Changes
pub mod Same
pub mod Delays
