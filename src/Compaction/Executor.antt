-- ===== src/Compaction/Executor.antt =====
-- amethyst/internal/compaction/executor.go: the merge of the input segments into one. Log lines are
-- left out, but for the last one, which reads the new segment's level and so panics where there is
-- no new segment.
pub mod Merge
pub mod Effects
pub mod Outcomes
pub mod Flags
pub mod Readable
pub mod Whole
pub mod Tests
use amethyst.Base.{
  ℕ, ◌+◌, Bool, true, false, ◌||◌, not, Option, none, some, List, [], ◌∷◌, ◌++◌, Key, Slice, ◌==◌,
  if◌then◌else◌, length, key_ltb,
}
use amethyst.File.{Error, obsolete_segment, invalid_segment, nil_segment, Result, ok, err}
use amethyst.Types.{SegmentMeta, KvEntry, mark_obsolete}
use amethyst.SparseIndex.{Builder}
use amethyst.SegmentFile.{SegmentFile}
use amethyst.Metadata.{
  Tracker, Pointer, at, modify, register_segment, mark_obsolete_id, update_stats,
}
use amethyst.Sstable.Writer.{Disk, write_segment}
use amethyst.Sstable.Reader.{ByteMap, map_set, map_get, scan}
use amethyst.Compaction.Director.{Plan}

pub record Executor : Type 0 where
  pub tracker : Tracker
  pub disk : Disk

pub data Executed : Type 0 where
  compacted : SegmentMeta → Executed
  failed : Error → Executed
  panicked : Executed

-- The test of the inputs at the start; the first that fails ends the call.
unfoldable pub validate : Tracker → List Pointer → Result (Unit {0})
validate t [] = ok tt
validate t (p ∷ ps) =
    let rest = validate t ps in
    if (at t p).obsolete
    then err obsolete_segment
    else if (at t p).length == 0
    then err invalid_segment
    else rest

abbrev flag : Bool → SegmentMeta → SegmentMeta
flag b m = record m { in_compaction = b }

unfoldable pub set_in_compaction : Bool → List Pointer → Tracker → Tracker
set_in_compaction b [] t = t
set_in_compaction b (p ∷ ps) t = set_in_compaction b ps (modify p (flag b) t)

-- `for k, v := range data { if v != nil { merged[k] = v } }`
unfoldable pub merge_into : ByteMap → ByteMap → ByteMap
merge_into [] merged = merged
merge_into ((k, none) ∷ rest) merged = merge_into rest merged
merge_into ((k, some v) ∷ rest) merged = merge_into rest (map_set k (some v) merged)

-- The state of the loop over the inputs.
pub record Scanning : Type 0 where
  pub tracker : Tracker
  pub segment_file : SegmentFile
  pub merged : ByteMap

-- Behind the scan of an input; an error skips it.
unfoldable pub scanned : Pointer → Scanning → Result ByteMap × SegmentFile → Scanning
unfolding merge_into
scanned p s (err e, f) = record s { segment_file = f }
scanned p s (ok found, f) = record {
  tracker = update_stats (at s.tracker p).id 0 1 s.tracker;
  segment_file = f;
  merged = merge_into found s.merged;
}

unfoldable pub scan_inputs : List Pointer → Scanning → Scanning
unfolding scanned
scan_inputs [] s = s
scan_inputs (p ∷ ps) s =
    let m = at s.tracker p in
    scan_inputs ps
      (if m.obsolete || not m.in_compaction then s else scanned p s (scan (some m) s.segment_file))

-- `sort.Strings` on the keys of a map, with their values.
unfoldable pub insert_key : Key → Slice → ByteMap → ByteMap
insert_key key v [] = (key, v) ∷ []
insert_key key v ((k, w) ∷ m) =
    let rest = insert_key key v m in if key_ltb k key then (k, w) ∷ rest else (key, v) ∷ (k, w) ∷ m

unfoldable pub sort_keys : ByteMap → ByteMap
unfolding insert_key
sort_keys [] = []
sort_keys ((k, v) ∷ m) = insert_key k v (sort_keys m)

abbrev pub is_nil : Slice → Bool
is_nil none = true
is_nil (some v) = false

unfoldable pub final_entries : ByteMap → List KvEntry
final_entries [] = []
final_entries ((k, v) ∷ m) = record { key = k; value = v; tombstone = is_nil v } ∷ final_entries m

unfoldable pub retire : List Pointer → Tracker → Tracker
retire [] t = t
retire (p ∷ ps) t = retire ps (mark_obsolete_id (at t p).id (modify p mark_obsolete t))

-- Behind `WriteSegment`, with the deferred reset of the flags.
unfoldable pub finish :
    List Pointer → Tracker → Result (Option SegmentMeta) × Disk → Executed × Executor
unfolding set_in_compaction retire
finish inputs t (err e, d) =
    (failed e, record { tracker = set_in_compaction false inputs t; disk = d })
finish inputs t (ok none, d) =
    (panicked, record { tracker = set_in_compaction false inputs (retire inputs t); disk = d })
finish inputs t (ok (some m), d) =
    let t' = register_segment m t in
    (
      compacted (at t' (length t.heap)),
      record { tracker = set_in_compaction false inputs (retire inputs t'); disk = d },
    )

unfoldable pub run : Builder → Key → ℕ → Plan → Executor → Executed × Executor
unfolding finish scan_inputs sort_keys final_entries
run b id now plan x =
    let flagged = set_in_compaction true plan.inputs x.tracker in
    let s =
      scan_inputs plan.inputs
        (record { tracker = flagged; segment_file = x.disk.segment_file; merged = [] }) in
    finish plan.inputs s.tracker (
      write_segment b id now (final_entries (sort_keys s.merged)) plan.output_strategy
        plan.target_level (record x.disk { segment_file = s.segment_file }))

unfoldable pub execute : Builder → Key → ℕ → Plan → Executor → Executed × Executor
unfolding validate run
execute b id now plan x = elim (validate x.tracker plan.inputs) [
  | ok _ ↦ run b id now plan x
  | err e ↦ (failed e, x)
]
