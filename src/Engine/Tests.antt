-- ===== src/Engine/Tests.antt =====
-- The write path's theorems at a concrete engine.
use amethyst.Base.{◌≡◌, refl, Bool, false, none, [], ◌∷◌, Key, Slice, arith}
use amethyst.File.{failure, healthy}
use amethyst.Types.{SegmentMeta}
use amethyst.Search.{search}
use amethyst.Memtable
use amethyst.Memtable.{Memtable, new_memtable}
use amethyst.Memtable.Lookup.{find}
use amethyst.Memtable.Refinement.{run}
use amethyst.SegmentFile.Window.{parts}
use amethyst.Wal.Codec.{encode_all}
use amethyst.Sstable.Reader.{look_up}
use amethyst.Sstable.Reader.Found.{seen}
use amethyst.Sstable.RoundTrip.Tests.{
  builder, value_entry, dead_entry, empty_disk, empty-IsHealthy, entries-IsSorted,
  entries-IsReadable,
}
use amethyst.Engine.{Engine, done, put, execute_flush}
use amethyst.Engine.Durable.{IsDurable, writes_of, put-IsDurable, execute_flush-kept}
use amethyst.Memtable

-- a new engine with room for five entries
abbrev fresh : Engine
fresh = record { wal = healthy []; mem = new_memtable 5; disk = empty_disk; builder = builder }

fresh-IsDurable : IsDurable fresh []
unfolding encode_all run writes_of
fresh-IsDurable = record { offset = 0; log = refl; limit = 5; table = refl }

fresh_room : Memtable.should_flush (Memtable.put (1 ∷ []) none fresh.mem) ≡ false
unfolding Memtable.should_flush Memtable.put Memtable.write_entry Memtable.holds Memtable.position
    new_memtable search
fresh_room = refl

put-IsDurable_example :
    ((put (9 ∷ []) 5 (1 ∷ []) none fresh).0 ≡ done)
    × IsDurable
        (put (9 ∷ []) 5 (1 ∷ []) none fresh).1
        (record { key = 1 ∷ []; value = none; tombstone = false } ∷ [])
    × ((put (9 ∷ []) 5 (1 ∷ []) none fresh).1.disk ≡ empty_disk)
put-IsDurable_example = put-IsDurable (9 ∷ []) 5 (1 ∷ []) none fresh [] fresh-IsDurable fresh_room

-- an engine with two entries to flush
abbrev full : Engine
full = record {
  wal = healthy (1 ∷ 2 ∷ []);
  mem = record { entries = value_entry ∷ dead_entry ∷ []; max_entries = 2 };
  disk = empty_disk;
  builder = builder;
}

execute_flush-kept_example :
    ((execute_flush (9 ∷ []) 5 full).0 ≡ done)
    × ((execute_flush (9 ∷ []) 5 full).1.wal ≡ healthy [])
    × ((execute_flush (9 ∷ []) 5 full).1.mem.entries ≡ [])
    × ((m : SegmentMeta) × ((key : Key)
          → ◌≡◌ {A = Slice × Bool}
              (
                (look_up m key (execute_flush (9 ∷ []) 5 full).1.disk.segment_file).0.value,
                (look_up m key (execute_flush (9 ∷ []) 5 full).1.disk.segment_file).0.ok,
              )
              (seen (find (value_entry ∷ dead_entry ∷ []) key))))
execute_flush-kept_example =
    execute_flush-kept (9 ∷ []) 5 full value_entry (dead_entry ∷ []) (1 ∷ 2 ∷ []) 0 refl refl
      (omega arith) entries-IsSorted entries-IsReadable empty-IsHealthy

-- a segment file whose `Stat` fails
abbrev broken : Engine
broken = record full {
  disk = record empty_disk {
    segment_file =
        parts (record { content = []; offset = 0; outcomes = failure 0 ∷ [] }) [] none 0 false 0;
  };
}
