-- ===== src/Engine.antt =====
-- amethyst/internal/engine/engine.go: the write path. An error is reported by its stage.
pub mod Durable
pub mod Failure
pub mod Tests
use amethyst.Base.{ℕ, Bool, Option, none, some, List, [], Key, Slice, if◌then◌else◌}
use amethyst.File.{Error, File, Result, ok, err}
use amethyst.Types.{tiered, KvEntry, SegmentMeta}
use amethyst.SparseIndex.{Builder}
use amethyst.Memtable
use amethyst.Memtable.{Memtable}
use amethyst.Wal.{log_put, truncate_wal}
use amethyst.Sstable.Writer.{Disk, write_segment}

pub record Engine : Type 0 where
  pub wal : File
  pub mem : Memtable
  pub disk : Disk
  pub builder : Builder

-- The wrapped errors of the three stages.
pub data Outcome : Type 0 where
  done : Outcome
  wal_log_failure : Error → Outcome
  sstable_write_failure : Error → Outcome
  wal_cleanup_failure : Error → Outcome

unfoldable pub truncated : Engine → Result (Unit {0}) × File → Outcome × Engine
truncated e (ok _, f) = (done, record e { wal = f })
truncated e (err x, f) = (wal_cleanup_failure x, record e { wal = f })

-- Behind `WriteSegment`. The segment's metadata is dropped.
unfoldable pub written : Engine → Result (Option SegmentMeta) × Disk → Outcome × Engine
unfolding truncated
written e (err x, d) = (sstable_write_failure x, record e { disk = d })
written e (ok _, d) = truncated (record e { disk = d }) (truncate_wal e.wal)

-- The id and the time are those that WriteSegment takes.
unfoldable pub execute_flush : Key → ℕ → Engine → Outcome × Engine
unfolding written
execute_flush id now e =
    let (data', mem) = Memtable.flush e.mem in
    written (record e { mem = mem }) (write_segment e.builder id now data' tiered 0 e.disk)

unfoldable pub logged : Key → ℕ → Key → Slice → Engine → Result (Unit {0}) × File → Outcome × Engine
unfolding execute_flush
logged id now key value e (err x, f) = (wal_log_failure x, record e { wal = f })
logged id now key value e (ok _, f) =
    let e' = record e { wal = f; mem = Memtable.put key value e.mem } in
    if Memtable.should_flush e'.mem then execute_flush id now e' else (done, e')

unfoldable pub put : Key → ℕ → Key → Slice → Engine → Outcome × Engine
unfolding logged
put id now key value e = logged id now key value e (log_put key value e.wal)
