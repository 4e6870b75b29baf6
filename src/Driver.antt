-- ===== src/Driver.antt =====
-- amethyst/cmd/amethystd/main.go: the state that the driver's workloads share, and one write, one
-- read and one round of compaction. A nil segment that is dereferenced ends the program.
pub mod Format
pub mod Workloads
pub mod Metrics
pub mod Store
pub mod Flush
pub mod Apart
pub mod Reads
pub mod Refinement
pub mod Reach
pub mod Order
pub mod Populate
pub mod PureRead
pub mod Sizes
pub mod Totals
pub mod Accounts
pub mod Loops
pub mod Reported
pub mod Steps
pub mod Main
pub mod Panics
pub mod Zipf
pub mod Live
pub mod Tests
use amethyst.Base.{
  ℕ, ◌+◌, Bool, true, false, Option, none, some, List, [], ◌∷◌, Key, Bytes, if◌then◌else◌, length,
  key_eqb,
}
use amethyst.File.{Error, File, Result, ok, err}
use amethyst.Types.{tiered, SegmentMeta}
use amethyst.SparseIndex.{Builder}
use amethyst.Memtable
use amethyst.Memtable.{Memtable}
use amethyst.Wal.{log_put, truncate_wal}
use amethyst.Metadata.{Tracker, Pointer, Range, Sort, at, register_segment, get_segments_for_key}
use amethyst.Sstable.Writer.{Disk, write_segment}
use amethyst.Read.{Handler, read_segments}
use amethyst.Adaptive.{Float64, Times}
use amethyst.Compaction.Director.{Director, Plan, maybe_plan}
use amethyst.Compaction.Executor.{Executor, Executed, compacted, failed, panicked, execute}

-- The counters that `main` hands to a workload.
pub record Counters : Type 0 where
  pub logical_bytes : ℕ
  pub physical_bytes : ℕ
  pub user_bytes : ℕ
  pub total_reads : ℕ
  pub total_segment_scans : ℕ
  pub compaction_count : ℕ
  pub logical_write_bytes : ℕ

-- `map[string]int`, from a key to the length of its value
abbrev pub LiveKeys : Type 0
LiveKeys = List (Key × ℕ)

unfoldable pub set_live : Key → ℕ → LiveKeys → LiveKeys
set_live key n [] = (key, n) ∷ []
set_live key n ((k, m) ∷ rest) =
    if key_eqb k key then (key, n) ∷ rest else (k, m) ∷ set_live key n rest

pub record Driver : Type 0 where
  pub wal : File
  pub mem : Memtable
  pub tracker : Tracker
  pub disk : Disk
  pub builder : Builder
  pub read_comparisons : ℕ
  pub director : Director
  pub counters : Counters
  pub live_keys : LiveKeys

-- The program goes on with a value, or ends in a panic.
pub data Run (A : Type 0) : Type 0 where
  running : A → Run A
  crashed : Run A

infixl 5 ◌>>=◌
abbrev pub ◌>>=◌ : {A B : Type 0} → Run A → (A → Run B) → Run B
◌>>=◌ (running a) k = k a
◌>>=◌ crashed k = crashed

-- What a loop of writes counts: everything, all but the logical write bytes (the loops that fill the
-- store before mixed operations), or nothing (before pure reads).
pub data Accounting : Type 0 where
  counted without_writes uncounted : Accounting

unfoldable pub count_entry : Accounting → Key → Bytes → ℕ → Counters → Counters
count_entry counted key val value_size c = record c {
  logical_write_bytes = c.logical_write_bytes + (length key + length val);
  logical_bytes = c.logical_bytes + (length key + value_size);
  user_bytes = c.user_bytes + (length key + length val);
}
count_entry without_writes key val value_size c = record c {
  logical_bytes = c.logical_bytes + (length key + value_size);
  user_bytes = c.user_bytes + (length key + length val);
}
count_entry uncounted key val value_size c = c

-- `atomic.AddInt64(physicalBytes, n)`
unfoldable pub add_physical : ℕ → Counters → Counters
add_physical n c = record c { physical_bytes = c.physical_bytes + n }

unfoldable pub count_flush : Accounting → ℕ → Counters → Counters
unfolding add_physical
count_flush uncounted n c = c
count_flush how n c = add_physical n c

-- What follows WriteSegment, whose error is dropped. A workload's loop truncates the log, and drops
-- that error too; its final flush does not truncate.
unfoldable pub registered :
    Accounting → Bool → Driver → Result (Option SegmentMeta) × Disk → Run Driver
unfolding count_flush
registered how cut s (ok (some m), d) = running (record s {
  disk = d;
  counters = count_flush how m.length s.counters;
  tracker = register_segment m s.tracker;
  wal = if cut then (truncate_wal s.wal).1 else s.wal;
})
registered how cut s (ok none, d) = crashed
registered how cut s (err e, d) = crashed

-- `if mem.ShouldFlush() { … }`
unfoldable pub flush_full : Accounting → Bool → Key → ℕ → Driver → Run Driver
unfolding registered
flush_full how cut id now s =
    if Memtable.should_flush s.mem
    then (let (data', mem) = Memtable.flush s.mem in
        registered how cut (record s { mem = mem })
          (write_segment s.builder id now data' tiered 0 s.disk))
    else running s

-- The body of a loop of writes. The error of LogPut is dropped.
unfoldable pub write_one : Accounting → ℕ → Key → Bytes → Key → ℕ → Driver → Run Driver
unfolding flush_full count_entry set_live
write_one how value_size key val id now s = flush_full how true id now (record s {
  wal = (log_put key (some val) s.wal).1;
  mem = Memtable.put key (some val) s.mem;
  counters = count_entry how key val value_size s.counters;
  live_keys = set_live key (length val) s.live_keys;
})

-- A read handler over the driver's tracker, reader and memtable, which the driver itself does not make.
abbrev pub handler : Driver → Handler
handler s = record {
  memtable = s.mem;
  tracker = s.tracker;
  reads = record {
    segment_file = s.disk.segment_file;
    global_read_comparisons = s.read_comparisons;
  };
}

abbrev after_read : Driver → Handler → Driver
after_read s h = record s {
  tracker = h.tracker;
  disk = record s.disk { segment_file = h.reads.segment_file };
  read_comparisons = h.reads.global_read_comparisons;
  counters = record s.counters { total_reads = s.counters.total_reads + 1 };
}

-- The body of a loop of reads, with the number of segments that may have the key. It does not look in
-- the memtable, and drops what it finds.
unfoldable pub read_one : Sort → Key → Driver → ℕ × Driver
read_one sort key s =
    let segs = get_segments_for_key sort key s.tracker in
    (length segs, after_read s (read_segments key segs (handler s)).1)

-- The test of the inputs before the plan is carried out.
unfoldable pub valid_inputs : Tracker → List Pointer → Bool
valid_inputs t [] = true
valid_inputs t (p ∷ ps) = let rest = valid_inputs t ps in if (at t p).obsolete then false else rest

unfoldable pub count_compaction : ℕ → Counters → Counters
unfolding add_physical
count_compaction n c =
    let c' = add_physical n c in record c' { compaction_count = c'.compaction_count + 1 }

-- The background round's look at the outcome: an error is only printed.
unfoldable pub compacted_round : Driver → Executed × Executor → Run Driver
unfolding count_compaction
compacted_round s (compacted m, x) = running (record s {
  tracker = x.tracker;
  disk = x.disk;
  counters = count_compaction m.length s.counters;
})
compacted_round s (failed e, x) = running (record s { tracker = x.tracker; disk = x.disk })
compacted_round s (panicked, x) = crashed

-- A workload's own look: a nil segment is dereferenced after an error.
unfoldable pub compacted_once : Driver → Executed × Executor → Run Driver
unfolding count_compaction
compacted_once s (compacted m, x) = running (record s {
  tracker = x.tracker;
  disk = x.disk;
  counters = count_compaction m.length s.counters;
})
compacted_once s (failed e, x) = crashed
compacted_once s (panicked, x) = crashed

abbrev executor_of : Driver → Executor
executor_of s = record { tracker = s.tracker; disk = s.disk }

unfoldable pub carry_out : Key → ℕ → Driver → Option Plan → Run Driver
unfolding valid_inputs compacted_round
carry_out id now s none = running s
carry_out id now s (some plan) =
    if valid_inputs s.tracker plan.inputs
    then compacted_round s (execute s.builder id now plan (executor_of s))
    else running s

unfoldable pub carry_out_once : Key → ℕ → Driver → Option Plan → Run Driver
unfolding compacted_once
carry_out_once id now s none = running s
carry_out_once id now s (some plan) =
    compacted_once s (execute s.builder id now plan (executor_of s))

module _ (f : Float64) (range : Range) (times : Pointer → Times) (sort : Sort) where
  -- A round of the background goroutine.
  unfoldable pub background_round : Key → ℕ → Driver → Run Driver
  unfolding carry_out
  background_round id now s =
      let (plan, director) = maybe_plan f range times sort s.tracker s.director in
      carry_out id now (record s { director = director }) plan

  -- The compaction at the end of the mixed workloads.
  unfoldable pub compact_once : Key → ℕ → Driver → Run Driver
  unfolding carry_out_once
  compact_once id now s =
      let (plan, director) = maybe_plan f range times sort s.tracker s.director in
      carry_out_once id now (record s { director = director }) plan
