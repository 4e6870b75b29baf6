-- ===== src/Sstable.antt =====
-- amethyst/internal/sstable: the segments on disk, their writer and reader.
pub mod Writer
pub mod Reader
pub mod RoundTrip
