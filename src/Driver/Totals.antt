-- ===== src/Driver/Totals.antt =====
-- The bytes that the segment writer has counted, flushes and compactions together.
use amethyst.File.{err, ok, Result}
use amethyst.SegmentFile.{SegmentFile, append}
use amethyst.Metadata.Query.{get_or-append}
use amethyst.Compaction.Director.{Plan}
use amethyst.SparseIndex.{Builder}
use amethyst.Types.{KvEntry, CompactionType, SegmentMeta}
use amethyst.Compaction.Executor.{
  scan_inputs, retire, Scanning, set_in_compaction, validate, panicked, failed, compacted, Executor,
  Executed,
}
use amethyst.Compaction.Executor.{execute}
use amethyst.Compaction.Executor.{finish}
use amethyst.Compaction.Executor.{run}
use amethyst.Driver.Sizes.{
  upper_bytes-append, scan_inputs-SameSizes, sizes-register_segment, retire-SameSizes,
  base_bytes-append, set_in_compaction-SameSizes, sizes, base_bytes, upper_bytes, SameSizes,
}
use amethyst.Metadata.{no_segment, count_overlaps, at, Tracker, Pointer, register_segment}
use amethyst.Base.{
  ◌==◌, true, false, if◌then◌else◌, refl, [], sym, ◌∙◌, none, some, Option, ◌∷◌, ap, length, arith,
  Key, ◌≡◌, List, ◌+◌, ℕ,
}
use amethyst.Sstable.Writer.{
  lay_out, Layout, Disk, new_meta, write_segment, count_bytes, appended, WriteCounters,
}

abbrev pub total : WriteCounters → ℕ
total c = c.physical_write_bytes + c.compaction_write_bytes

-- The writer has counted the bytes of all segments that were registered: those on level 0 as physical
-- bytes, the others as bytes of compactions.
pub record IsBalanced (c : WriteCounters) (t : Tracker) : Type 0 where
  pub base : c.physical_write_bytes ≡ base_bytes (sizes t.heap)
  pub upper : c.compaction_write_bytes ≡ upper_bytes (sizes t.heap)

pub IsBalanced-SameSizes :
    (c : WriteCounters) (t t' : Tracker) → SameSizes t t' → IsBalanced c t → IsBalanced c t'
IsBalanced-SameSizes c t t' same h = record {
  base = h.base ∙ ap base_bytes (sym same);
  upper = h.upper ∙ ap upper_bytes (sym same);
}

-- What a call on the disk has counted: with the segment that it gives the counters stay balanced, and
-- they grow by its length; without one nothing is counted.
abbrev pub Grown : WriteCounters → Result (Option SegmentMeta) × Disk → Type 0
Grown c (ok (some m), d) =
    (total d.counters ≡ total c + m.length)
    × ((t : Tracker) → IsBalanced c t → IsBalanced d.counters (register_segment m t))
Grown c (ok none, d) = d.counters ≡ c
Grown c (err e, d) = d.counters ≡ c

total-count_bytes : (level n : ℕ) (c : WriteCounters) → total (count_bytes level n c) ≡ total c + n
unfolding count_bytes
total-count_bytes level n c = grind arith

count_bytes-base :
    (level n : ℕ) (c : WriteCounters)
    → (count_bytes level n c).physical_write_bytes
      ≡ c.physical_write_bytes + (if level == 0 then n else 0)
unfolding count_bytes
count_bytes-base level n c = grind arith

count_bytes-upper :
    (level n : ℕ) (c : WriteCounters)
    → (count_bytes level n c).compaction_write_bytes
      ≡ c.compaction_write_bytes + (if level == 0 then 0 else n)
unfolding count_bytes
count_bytes-upper level n c = grind arith

count_bytes-IsBalanced :
    (m : SegmentMeta) (c : WriteCounters) (t : Tracker)
    → IsBalanced c t
    → IsBalanced (count_bytes m.level m.length c) (register_segment m t)
count_bytes-IsBalanced m c t h = record {
  base =
      count_bytes-base m.level m.length c
      ∙ ap (λ n. n + (if m.level == 0 then m.length else 0)) h.base
      ∙ sym (base_bytes-append (sizes t.heap) m.level m.length)
      ∙ ap base_bytes (sym (sizes-register_segment m t));
  upper =
      count_bytes-upper m.level m.length c
      ∙ ap (λ n. n + (if m.level == 0 then 0 else m.length)) h.upper
      ∙ sym (upper_bytes-append (sizes t.heap) m.level m.length)
      ∙ ap upper_bytes (sym (sizes-register_segment m t));
}

appended-Grown :
    (id : Key) (now : ℕ) (strategy : CompactionType) (level : ℕ) (e : KvEntry) (es : List KvEntry)
    (l : Layout) (c : WriteCounters) (r : Result (ℕ × ℕ) × SegmentFile)
    → Grown c (appended id now strategy level e es l c r)
unfolding appended new_meta
appended-Grown id now strategy level e es l c (ok (o, n), f) = (
  total-count_bytes level n c,
  λ t h. count_bytes-IsBalanced (new_meta id now strategy level e es l o n) c t h,
)
appended-Grown id now strategy level e es l c (err x, f) = refl

pub write_segment-Grown :
    (b : Builder) (id : Key) (now : ℕ) (es : List KvEntry) (strategy : CompactionType) (level : ℕ)
    (d : Disk)
    → Grown d.counters (write_segment b id now es strategy level d)
unfolding write_segment
write_segment-Grown b id now [] strategy level d = refl
write_segment-Grown b id now (e ∷ es) strategy level d =
    appended-Grown id now strategy level e es (lay_out b id strategy e es) d.counters
      (append (lay_out b id strategy e es).buf d.segment_file)

-- The same for a compaction that started from a balanced state.
abbrev pub Compacted : WriteCounters → Executed × Executor → Type 0
Compacted c (compacted m, x) =
    (total x.disk.counters ≡ total c + m.length) × IsBalanced x.disk.counters x.tracker
Compacted c (failed e, x) = (x.disk.counters ≡ c) × IsBalanced x.disk.counters x.tracker
Compacted c (panicked, x) = Unit

length-registered :
    (m : SegmentMeta) (t : Tracker) → (at (register_segment m t) (length t.heap)).length ≡ m.length
unfolding register_segment
length-registered m t =
    ap (λ x. x.length)
      (get_or-append t.heap (record m { overlap_count = count_overlaps m t t.segments }) no_segment)

finish-Compacted :
    (inputs : List Pointer) (t : Tracker) (c : WriteCounters)
    (r : Result (Option SegmentMeta) × Disk)
    → IsBalanced c t
    → Grown c r
    → Compacted c (finish inputs t r)
unfolding finish
finish-Compacted inputs t c (err e, d) b h =
    (h, rw h (IsBalanced-SameSizes c t _ (set_in_compaction-SameSizes false inputs t) b))
finish-Compacted inputs t c (ok none, d) b h = tt
finish-Compacted inputs t c (ok (some m), d) b h = (
  h.0 ∙ ap (λ n. total c + n) (sym (length-registered m t)),
  IsBalanced-SameSizes d.counters (register_segment m t) _
      (set_in_compaction-SameSizes false inputs (retire inputs (register_segment m t))
        ∙ retire-SameSizes inputs (register_segment m t))
      (h.1 t b),
)

run-Compacted :
    (b : Builder) (id : Key) (now : ℕ) (plan : Plan) (x : Executor)
    → IsBalanced x.disk.counters x.tracker
    → Compacted x.disk.counters (run b id now plan x)
unfolding run
run-Compacted b id now plan x h =
    let flagged = set_in_compaction true plan.inputs x.tracker in
    let begin : Scanning = record {
      tracker = flagged;
      segment_file = x.disk.segment_file;
      merged = [];
    } in
    finish-Compacted plan.inputs _ x.disk.counters _
      (IsBalanced-SameSizes x.disk.counters x.tracker (scan_inputs plan.inputs begin).tracker
        (scan_inputs-SameSizes plan.inputs begin
          ∙ set_in_compaction-SameSizes true plan.inputs x.tracker)
        h)
      (write_segment-Grown b id now _ _ _ _)

pub execute-Compacted :
    (b : Builder) (id : Key) (now : ℕ) (plan : Plan) (x : Executor)
    → IsBalanced x.disk.counters x.tracker
    → Compacted x.disk.counters (execute b id now plan x)
unfolding execute
execute-Compacted b id now plan x h = go (validate x.tracker plan.inputs)
  where
    go :
        (r : Result (Unit {0}))
        → let out : Executed × Executor = elim r [
          | ok _ ↦ run b id now plan x
          | err e ↦ (failed e, x)
        ] in
          Compacted x.disk.counters out
    go (ok _) = run-Compacted b id now plan x h
    go (err _) = (refl, h)
