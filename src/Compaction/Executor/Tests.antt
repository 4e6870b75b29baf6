-- ===== src/Compaction/Executor/Tests.antt =====
-- The merge at a concrete plan.
use amethyst.Compaction.Executor.Whole.{execute-merged_input}
use amethyst.Sstable.Reader.Entry.{reread}
use amethyst.Sstable.Reader.Found.{seen}
use amethyst.Sstable.Reader.Scanned.{kept}
use amethyst.Memtable.Lookup.{find}
use amethyst.Compaction.Executor.Flags.{IsInput, merged_input}
use amethyst.Base.{arith, none, ◌≡◌, refl, true, some, [], ◌∷◌, Key, key_eqb}
use amethyst.Types.{SegmentMeta}
use amethyst.Metadata.{Tracker}
use amethyst.Memtable.Position.{IsSorted}
use amethyst.Sstable.Reader.{look_up, ByteMap, map_get}
use amethyst.Sstable.RoundTrip.Tests.{
  builder, value_entry, dead_entry, segment, file, written, entries_small,
}
use amethyst.Types.{leveled}
use amethyst.Sstable.RoundTrip.Tests.{empty_disk}
use amethyst.Compaction.Director.{Plan, overlapping_ranges}
use amethyst.Compaction.Executor.Outcomes.{Settled, execute-Settled}
use amethyst.Sstable.RoundTrip.Written.{IsStored-counters}
use amethyst.Compaction.Executor.{
  compacted, Executor, execute, Scanning, scan_inputs, sort_keys, final_entries,
}
use amethyst.Compaction.Executor.Merge.{entry_written, sort_keys-IsSorted}
use amethyst.Compaction.Executor.Effects.{IsFit, IsScanning, merged_value, scan_inputs-merged_value}
use amethyst.Metadata.Heap.{CountsOnly-refl}

-- the segment, flagged, as the only input
abbrev flagged : SegmentMeta
flagged = record segment { in_compaction = true }

abbrev tracker : Tracker
tracker = record { heap = flagged ∷ []; segments = (9 ∷ [], 0) ∷ []; ordered = 0 ∷ [] }

segment-IsFit : IsFit builder file.file.content flagged
segment-IsFit =
    let h = written.2.stored in
    record {
      first = value_entry;
      others = dead_entry ∷ [];
      stored =
          IsStored-counters builder segment value_entry (dead_entry ∷ []) file.file.content
            segment.read_count segment.write_count segment.overlap_count segment.total_comparisons
            true h;
      live = written.2.live;
      flagged = refl;
      small = entries_small;
    }

abbrev start : Scanning
start = record { tracker = tracker; segment_file = file; merged = (2 ∷ [], some (3 ∷ [])) ∷ [] }

start-IsScanning : IsScanning file.file.content tracker start
start-IsScanning = record {
  content_kept = refl;
  healthy = written.2.healthy;
  is_map = (tt, tt);
  counts = λ q. CountsOnly-refl _;
}

scan_inputs-merged_value_example :
    IsScanning file.file.content tracker (scan_inputs (0 ∷ []) start)
    × ((j : Key)
        → map_get j (scan_inputs (0 ∷ []) start).merged
          ≡ merged_value builder file.file.content tracker
              (0 ∷ [])
              (segment-IsFit, tt)
              j
              (map_get j start.merged))
scan_inputs-merged_value_example =
    scan_inputs-merged_value builder file.file.content tracker (0 ∷ []) start (segment-IsFit, tt)
      start-IsScanning

abbrev merged : ByteMap
merged = (5 ∷ [], some (1 ∷ [])) ∷ (2 ∷ [], some (3 ∷ [])) ∷ []

sort_keys-IsSorted_example : IsSorted (final_entries (sort_keys merged))
unfolding key_eqb
sort_keys-IsSorted_example = sort_keys-IsSorted merged ((refl, tt), (tt, tt))

abbrev executor : Executor
executor = record { tracker = tracker; disk = record empty_disk { segment_file = file } }

abbrev plan : Plan
plan = record {
  inputs = 0 ∷ [];
  output_strategy = leveled;
  reason = overlapping_ranges;
  target_level = 1;
}

execute-Settled_example :
    Settled
      (0 ∷ [])
      tracker
      (execute builder (6 ∷ []) 5 plan executor).0
      (execute builder (6 ∷ []) 5 plan executor).1.tracker
execute-Settled_example = execute-Settled builder (6 ∷ []) 5 plan executor

-- The segment has a value for the first key.
input :
    (i : IsInput builder file.file.content flagged) × (merged_input builder file.file.content
        tracker
        (0 ∷ [])
        (i, tt)
        (1 ∷ [])
        none
      ≡ some (some (7 ∷ [])))
unfolding merged_input find key_eqb kept reread
input = (
  record {
    first = value_entry;
    others = dead_entry ∷ [];
    stored =
        IsStored-counters builder segment value_entry (dead_entry ∷ []) file.file.content
          segment.read_count segment.write_count segment.overlap_count segment.total_comparisons
          true written.2.stored;
    live = written.2.live;
    small = entries_small;
  },
  refl,
)

execute-merged_input_example :
    (m : SegmentMeta) × (x' : Executor) × (execute builder (6 ∷ []) 5 plan executor
      ≡ (compacted m, x'))
    × (m.level ≡ 1)
    × (m.strategy ≡ leveled)
    × ((j : Key)
        → ((look_up m j x'.disk.segment_file).0.value, (look_up m j x'.disk.segment_file).0.ok)
          ≡ seen (
              entry_written j
                (merged_input builder file.file.content tracker (0 ∷ []) (input.0, tt) j none)))
execute-merged_input_example =
    execute-merged_input builder (6 ∷ []) 5 plan executor (1 ∷ []) (some (7 ∷ [])) (omega arith)
      written.2.healthy (input.0, tt) input.1
