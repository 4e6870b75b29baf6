-- ===== src/Sstable/RoundTrip/Tests.antt =====
-- The segment's theorems at a concrete segment.
use amethyst.Sstable.Reader.Fuel.{get_loop_enough, scan_loop_enough}
use amethyst.Sstable.Reader.{get_loop, scan_loop}
use amethyst.Base.{
  ◌≡◌, refl, ◌≤◌, Bool, true, false, some, none, [], ◌∷◌, Key, Slice, All, arith, length, key_ltb,
  key_eqb,
}
use amethyst.File.{ok, healthy}
use amethyst.Types.{KvEntry, SegmentMeta, tiered}
use amethyst.SparseIndex.{Builder}
use amethyst.SegmentFile.{SegmentFile, append}
use amethyst.SegmentFile.Window.{parts}
use amethyst.Memtable.Position.{IsSorted}
use amethyst.Memtable.Lookup.{find}
use amethyst.Sstable.Writer.{Disk, entry_header, write_segment}
use amethyst.Sstable.Reader.{ByteMap, map_get, look_up, scan, max_scan_len}
use amethyst.Sstable.Reader.Entry.{IsReadable, encode, reread}
use amethyst.Sstable.Reader.Found.{encode_all}
use amethyst.Sstable.Reader.Maps.{IsMap}
use amethyst.Sstable.Reader.Scanned.{over}
use amethyst.Sstable.RoundTrip.Written.{
  IsHealthy, IsWritten, write_segment-IsWritten, look_up-write_segment,
}
use amethyst.Sstable.RoundTrip.Rescanned.{scan-IsStored}

abbrev pub builder : Builder
builder = record { stride = 2 }

-- a value, and a tombstone
abbrev pub value_entry : KvEntry
value_entry = record { key = 1 ∷ []; value = some (7 ∷ []); tombstone = false }

abbrev pub dead_entry : KvEntry
dead_entry = record { key = 2 ∷ []; value = none; tombstone = true }

abbrev pub empty_disk : Disk
empty_disk = record {
  segment_file = parts (healthy []) [] none 0 false 0;
  counters = record { physical_write_bytes = 0; compaction_write_bytes = 0 };
}

pub empty-IsHealthy : IsHealthy empty_disk.segment_file
empty-IsHealthy = record {
  outcomes = refl;
  window = record { shown = λ d on same. ground (arith, on) };
}

pub entries-IsSorted : IsSorted (value_entry ∷ dead_entry ∷ [])
unfolding key_ltb
entries-IsSorted = ((refl, tt), (tt, tt))

pub entries-IsReadable : All IsReadable (value_entry ∷ dead_entry ∷ [])
entries-IsReadable = (
  record { some_key = omega arith; key_fits = omega arith; value_fits = omega arith },
  (record { some_key = omega arith; key_fits = omega arith; value_fits = omega arith }, tt),
)

look_up-write_segment_example :
    let out =
      write_segment builder (9 ∷ []) 5 (value_entry ∷ dead_entry ∷ []) tiered 0 empty_disk in
    (m : SegmentMeta) × (out.0 ≡ ok (some m))
    × (◌≡◌ {A = Slice × Bool}
        (
          (look_up m (1 ∷ []) (append (4 ∷ []) out.1.segment_file).1).0.value,
          (look_up m (1 ∷ []) (append (4 ∷ []) out.1.segment_file).1).0.ok,
        )
        (some (7 ∷ []), true))
unfolding find key_eqb reread
look_up-write_segment_example =
    look_up-write_segment builder (9 ∷ []) 5 0 tiered value_entry (dead_entry ∷ []) empty_disk
      (4 ∷ []) (1 ∷ []) (omega arith) entries-IsSorted entries-IsReadable empty-IsHealthy

pub written :
    (m : SegmentMeta) × ((write_segment builder
        (9 ∷ [])
        5
        (value_entry ∷ dead_entry ∷ [])
        tiered
        0
        empty_disk).0
      ≡ ok (some m))
    × IsWritten builder value_entry
        (dead_entry ∷ [])
        0
        tiered
        empty_disk
        m
        (write_segment builder (9 ∷ []) 5 (value_entry ∷ dead_entry ∷ []) tiered 0 empty_disk).1
written =
    write_segment-IsWritten builder (9 ∷ []) 5 0 tiered value_entry (dead_entry ∷ []) empty_disk
      (omega arith) entries-IsSorted entries-IsReadable empty-IsHealthy

abbrev pub segment : SegmentMeta
segment = written.0

abbrev pub file : SegmentFile
file =
    (write_segment builder (9 ∷ []) 5 (value_entry ∷ dead_entry ∷ []) tiered 0
      empty_disk).1.segment_file

pub entries_small : length (encode_all (value_entry ∷ dead_entry ∷ [])) ≤ max_scan_len
unfolding encode_all encode entry_header
entries_small = omega arith

scan-IsStored_example :
    (found : ByteMap) × (s' : SegmentFile) × (scan (some segment) file ≡ (ok found, s'))
    × ((j : Key) → map_get j found ≡ over (find (value_entry ∷ dead_entry ∷ []) j) none)
    × IsMap found
    × (s'.file ≡ file.file)
    × IsHealthy s'
scan-IsStored_example =
    scan-IsStored builder segment value_entry (dead_entry ∷ []) file written.2.stored written.2.live
      entries_small written.2.healthy

get_loop_enough_example :
    get_loop 3 (1 ∷ []) 0 (0 ∷ 0 ∷ 0 ∷ []) ≡ get_loop 8 (1 ∷ []) 0 (0 ∷ 0 ∷ 0 ∷ [])
get_loop_enough_example =
    get_loop_enough 3 8 (1 ∷ []) 0 (0 ∷ 0 ∷ 0 ∷ []) (omega arith) (omega arith)

scan_loop_enough_example : scan_loop 3 [] (0 ∷ 0 ∷ 0 ∷ []) ≡ scan_loop 8 [] (0 ∷ 0 ∷ 0 ∷ [])
scan_loop_enough_example = scan_loop_enough 3 8 [] (0 ∷ 0 ∷ 0 ∷ []) (omega arith) (omega arith)
