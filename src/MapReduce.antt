-- ===== src/MapReduce.antt =====
-- The MapReduce library (src/mr).
pub mod Files
pub mod Coordinator
pub mod Worker
