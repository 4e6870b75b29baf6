-- ===== src/Engine/Failure.antt =====
-- The error paths of the write path.
use amethyst.Memtable.{Memtable}
use amethyst.Sstable.Writer.{WriteCounters}
use amethyst.SegmentFile.{SegmentFile}
use amethyst.Base.{◌⊎◌, Option, ◌≡◌, [], true, false}
use amethyst.File.{File, Result, ok, err}
use amethyst.Types.{SegmentMeta}
use amethyst.Memtable
use amethyst.Sstable.Writer.{Disk}
use amethyst.Engine.{
  Engine, Outcome, done, wal_log_failure, sstable_write_failure, wal_cleanup_failure,
}

-- A call that failed has counted nothing.
abbrev Uncounted : WriteCounters → Result (Option SegmentMeta) × Disk → Type 0
Uncounted c (ok _, d) = Unit
Uncounted c (err x, d) = d.counters ≡ c

-- What a flush of `e` leaves, by its outcome.
abbrev IsFlushed : Engine → Outcome → Engine → Type 0
IsFlushed e done u = u.mem.entries ≡ []
IsFlushed e (wal_log_failure x) u = ⊥
IsFlushed e (sstable_write_failure x) u =
    (u.mem.entries ≡ []) × (u.disk.counters ≡ e.disk.counters) × (u.wal ≡ e.wal)
IsFlushed e (wal_cleanup_failure x) u = u.mem.entries ≡ []

-- What a Put leaves, by its outcome; `m` is the memtable with the entry.
abbrev pub IsSettled : Engine → Memtable → Outcome → Engine → Type 0
IsSettled e m (wal_log_failure x) u = (u.mem ≡ e.mem) × (u.disk ≡ e.disk)
IsSettled e m (sstable_write_failure x) u =
    (Memtable.should_flush m ≡ true) × (u.mem.entries ≡ []) × (u.disk.counters ≡ e.disk.counters)
IsSettled e m (wal_cleanup_failure x) u = (Memtable.should_flush m ≡ true) × (u.mem.entries ≡ [])
IsSettled e m done u =
    ((Memtable.should_flush m ≡ false) × (u.mem ≡ m) × (u.disk ≡ e.disk))
    ⊎ ((Memtable.should_flush m ≡ true) × (u.mem.entries ≡ []))
