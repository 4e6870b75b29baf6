-- ===== src/Compaction.antt =====
-- amethyst/internal/compaction: the choice of the segments to merge, and their merge.
pub mod Director
pub mod Executor
