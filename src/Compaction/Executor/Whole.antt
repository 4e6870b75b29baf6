-- ===== src/Compaction/Executor/Whole.antt =====
-- A whole compaction: the segment that Execute returns.
use amethyst.SegmentFile.{SegmentFile}
use mathlib.Core.Path.{subst}
use amethyst.Compaction.Executor.Effects.{IsScanning, merged_value, scan_inputs-merged_value}
use amethyst.Metadata.Heap.{CountsOnly-refl}
use amethyst.Compaction.Executor.Flags.{validate_inputs, flag_fit}
use amethyst.Sstable.Reader.Found.{seen}
use amethyst.Compaction.Executor.Readable.{merged_input-IsFine, sort_keys-IsReadable}
use amethyst.Sstable.Reader.Entry.{IsReadable}
use amethyst.Sstable.Writer.{write_segment, Disk}
use amethyst.Compaction.Executor.Flags.{flag_merged, merged_input, AllInput}
use amethyst.Metadata.Query.{get_or-append}
use amethyst.Sstable.RoundTrip.Stored.{IsStored, look_up-IsStored}
use amethyst.Sstable.RoundTrip.Written.{IsStored-counters, write_segment-IsWritten, IsHealthy}
use amethyst.Compaction.Director.{Plan}
use amethyst.Types.{KvEntry, SegmentMeta}
use amethyst.Memtable.Lookup.{find}
use amethyst.Metadata.{no_segment, count_overlaps, at, Tracker, register_segment}
use amethyst.SparseIndex.{Builder}
use amethyst.Base.{
  sym, ap, ◌∙◌, Option, Bytes, All, ◌<◌, length, ◌≡◌, Slice, List, Key, ℕ, [], ◌∷◌, refl, none,
  some, true, false,
}
use amethyst.Sstable.Reader.{look_up, map_get}
use amethyst.Compaction.Executor.Merge.{
  sort_keys-IsSorted, entry_for, find-sort_keys, entry_written,
}
use amethyst.Compaction.Executor.{
  sort_keys, scan_inputs, compacted, set_in_compaction, final_entries, execute, Scanning, Executor,
  finish, run,
}
use amethyst.File.{healthy, Result, ok}

registered_at :
    (m : SegmentMeta) (t : Tracker)
    → at (register_segment m t) (length t.heap)
      ≡ record m { overlap_count = count_overlaps m t t.segments }
unfolding register_segment
registered_at m t =
    get_or-append t.heap (record m { overlap_count = count_overlaps m t t.segments }) no_segment

abbrev IsNone : Option KvEntry → Type 0
IsNone none = Unit
IsNone (some e) = ⊥

some_entries :
    (es : List KvEntry) (j : Key) (e : KvEntry)
    → find es j ≡ some e
    → (x : KvEntry) × (xs : List KvEntry) × (es ≡ x ∷ xs)
unfolding find
some_entries [] j e h = absurd (subst IsNone h tt)
some_entries (x ∷ xs) j e h = (x, xs, refl)

-- A lookup in a segment that has been registered.
look_up-registered :
    (b : Builder) (m : SegmentMeta) (e : KvEntry) (es : List KvEntry) (f : SegmentFile)
    (t : Tracker) (j : Key)
    → IsStored b m e es f.file.content
    → m.obsolete ≡ false
    → IsHealthy f
    → let m' = at (register_segment m t) (length t.heap) in
      ((look_up m' j f).0.value, (look_up m' j f).0.ok) ≡ seen (find (e ∷ es) j)
look_up-registered b m e es f t j stored live healthy =
    let counters =
      IsStored-counters b m e es f.file.content m.read_count m.write_count
        (count_overlaps m t t.segments) m.total_comparisons m.in_compaction stored in
    rw (registered_at m t) (
      look_up-IsStored b (record m { overlap_count = count_overlaps m t t.segments }) e es f j
        counters live healthy.outcomes healthy.window)

module _ (b : Builder) (id : Key) (now : ℕ) (plan : Plan) (x : Executor) (j0 : Key) (val : Slice)
    (stride : 0 < b.stride) (healthy : IsHealthy x.disk.segment_file)
    (inputs : AllInput b x.disk.segment_file.file.content x.tracker plan.inputs)
    (some_value : merged_input b x.disk.segment_file.file.content x.tracker plan.inputs inputs j0
        none
      ≡ some val) where
  abbrev content : Bytes
  content = x.disk.segment_file.file.content

  abbrev flagged : Tracker
  flagged = set_in_compaction true plan.inputs x.tracker

  abbrev begin : Scanning
  begin = record { tracker = flagged; segment_file = x.disk.segment_file; merged = [] }

  abbrev after : Scanning
  after = scan_inputs plan.inputs begin

  abbrev wanted : Key → Option Slice
  wanted j = merged_input b content x.tracker plan.inputs inputs j none

  begin-IsScanning : IsScanning content flagged begin
  begin-IsScanning = record {
    content_kept = refl;
    healthy = healthy;
    is_map = tt;
    counts = λ q. CountsOnly-refl _;
  }

  scan_result :
      IsScanning content flagged after
      × ((j : Key)
          → map_get j after.merged
            ≡ merged_value b content flagged plan.inputs
                (flag_fit b content plan.inputs x.tracker inputs)
                j
                none)
  unfolding map_get
  scan_result =
      scan_inputs-merged_value b content flagged plan.inputs begin
        (flag_fit b content plan.inputs x.tracker inputs) begin-IsScanning

  merged_wanted : (j : Key) → map_get j after.merged ≡ wanted j
  merged_wanted j = scan_result.1 j ∙ flag_merged b content plan.inputs x.tracker inputs j none

  abbrev entries : List KvEntry
  entries = final_entries (sort_keys after.merged)

  found : (j : Key) → find entries j ≡ entry_written j (wanted j)
  found j =
      find-sort_keys after.merged j scan_result.0.is_map ∙ ap (entry_written j) (merged_wanted j)

  entries-IsReadable : All IsReadable entries
  entries-IsReadable = sort_keys-IsReadable after.merged scan_result.0.is_map (λ j.
      rw (merged_wanted j) (merged_input-IsFine b content x.tracker plan.inputs inputs j none tt))

  -- The disk that WriteSegment starts from.
  abbrev scanned_disk : Disk
  scanned_disk = record x.disk { segment_file = after.segment_file }

  finish_ok :
      (m : SegmentMeta) (r : Result (Option SegmentMeta) × Disk)
      → r.0 ≡ ok (some m)
      → (x' : Executor) × (finish plan.inputs after.tracker r
          ≡ (compacted (at (register_segment m after.tracker) (length after.tracker.heap)), x'))
        × (x'.disk ≡ r.1)
  unfolding finish
  finish_ok m (r, d) wrote = rw wrote (_, refl, refl)

  execute-finish :
      execute b id now plan x
      ≡ finish plan.inputs after.tracker
          (write_segment b id now entries plan.output_strategy plan.target_level scanned_disk)
  unfolding execute run
  execute-finish = rw (execute, validate_inputs b content plan.inputs x.tracker inputs) refl

  -- On a healthy file, with a positive stride and inputs that stand in the file, are not obsolete and
  -- are small enough to be scanned, where at least one key has a value in them: Execute succeeds with a
  -- segment at the plan's level and with its strategy, and a lookup in it answers for each key what the
  -- last of the inputs that has a value for the key has, and nil and false where none has.
  pub execute-merged_input :
      (m : SegmentMeta) × (x' : Executor) × (execute b id now plan x ≡ (compacted m, x'))
      × (m.level ≡ plan.target_level)
      × (m.strategy ≡ plan.output_strategy)
      × ((j : Key)
          → ((look_up m j x'.disk.segment_file).0.value, (look_up m j x'.disk.segment_file).0.ok)
            ≡ seen (entry_written j (merged_input b content x.tracker plan.inputs inputs j none)))
  execute-merged_input =
      let (e, es, same) =
        some_entries entries j0 (entry_for j0 val) (found j0 ∙ ap (entry_written j0) some_value) in
      let (m, wrote, w) =
        write_segment-IsWritten b id now plan.target_level plan.output_strategy e es scanned_disk
          stride (rw same at (sort_keys-IsSorted after.merged scan_result.0.is_map))
          (rw same at entries-IsReadable) scan_result.0.healthy in
      let (x', ends, disk) =
        finish_ok m
          (write_segment b id now entries plan.output_strategy plan.target_level scanned_disk)
          (rw same wrote) in
      let registered = registered_at m after.tracker in
      let stored : IsStored b m e es x'.disk.segment_file.file.content
          × IsHealthy x'.disk.segment_file =
        rw (disk, same) (w.stored, w.healthy) in
      (
        at (register_segment m after.tracker) (length after.tracker.heap),
        x',
        execute-finish ∙ ends,
        ap (λ y. y.level) registered ∙ w.level_kept,
        ap (λ y. y.strategy) registered ∙ w.strategy_kept,
        λ j.
            look_up-registered b m e es x'.disk.segment_file after.tracker j stored.0 w.live
              stored.1
            ∙ ap seen (ap (λ ys. find ys j) (sym same) ∙ found j),
      )
