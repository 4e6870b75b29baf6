-- ===== src/Driver/Metrics.antt =====
-- The metrics of amethyst/cmd/amethystd/main.go, the Zipfian draw, and `main` up to the printing of
-- the results. What floating-point numbers can do beyond the controller's use of them is an argument.
use amethyst.Base.{
  ℕ, zero, suc, ◌+◌, ◌-◌, Bool, true, false, ◌&&◌, Option, none, some, List, [], ◌∷◌, Key, ltb,
  if◌then◌else◌, length,
}
use amethyst.File.{File, Result, ok, err}
use amethyst.Memtable.{new_memtable}
use amethyst.Wal.{DiskWal, new_disk_wal}
use amethyst.SparseIndex.{new_builder}
use amethyst.SegmentFile.{SegmentFile, new_segment_file}
use amethyst.Metadata.{Tracker, Pointer, Range, Sort, at, new_tracker, get_all_segments}
use amethyst.Adaptive.{Float64, Times, new_fsm_controller}
use amethyst.Compaction.Director.{new_director}
use amethyst.Driver.{Driver, Run, running, crashed, Counters, LiveKeys}
use amethyst.Driver.Workloads.{
  Choices, Phase, PhaseResult, ratio, run_shift, run_pure_write, run_pure_read, run_mixed,
  run_read_heavy, run_write_heavy, run_zipfian,
}

-- What `math` adds to the arithmetic: Pow, the test `>=`, and the test of NaN and the infinities.
pub record Math (f : Float64) : Type 0 where
  pub pow : f.Num → f.Num → f.Num
  pub ge : f.Num → f.Num → Bool
  pub not_finite : f.Num → Bool

module _ (f : Float64) (math : Math f) where
  abbrev pub weight : ℕ → f.Num → f.Num
  weight i s = f.div (f.from_int 1) (math.pow (f.from_int i) s)

  -- the loop `for i := 1; i <= n; i++` that sums the weights
  unfoldable pub total_weight : ℕ → ℕ → f.Num → f.Num → f.Num
  total_weight zero i s sum = sum
  total_weight (suc left) i s sum = total_weight left (suc i) s (f.add sum (weight i s))

  -- The second loop: the first index whose partial sum reaches the draw.
  unfoldable pub zipfian_index : ℕ → ℕ → f.Num → f.Num → f.Num → Option ℕ
  zipfian_index zero i s r partial = none
  zipfian_index (suc left) i s r partial =
      let partial' = f.add partial (weight i s) in
      elim (math.ge partial' r) [
        | true ↦ some (i - 1)
        | false ↦ zipfian_index left (suc i) s r partial'
      ]

  abbrev pub index_or : ℕ → Option ℕ → ℕ
  index_or n none = n - 1
  index_or n (some i) = i

  -- `u` is rand.Float64(). For `n == 0` the code returns -1, which no caller asks for.
  unfoldable pub zipfian : f.Num → ℕ → f.Num → ℕ
  unfolding total_weight zipfian_index
  zipfian u n s =
      let r = f.mul u (total_weight n 1 s (f.from_int 0)) in
      index_or n (zipfian_index n 1 s r (f.from_int 0))

-- the keys and values that are live, in bytes
unfoldable pub live_size : LiveKeys → ℕ
live_size [] = 0
live_size ((key, n) ∷ rest) = length key + n + live_size rest

unfoldable pub segment_bytes : Tracker → List Pointer → ℕ
segment_bytes t [] = 0
segment_bytes t (p ∷ ps) = (if (at t p).obsolete then 0 else (at t p).length) + segment_bytes t ps

-- The size that os.Stat gives, or else the lengths of the segments.
unfoldable pub disk_size : Sort → Result ℕ → Tracker → ℕ
unfolding segment_bytes
disk_size sort (ok size) t = size
disk_size sort (err e) t = segment_bytes t (get_all_segments sort t)

module _ (f : Float64) (math : Math f) where
  abbrev sane : f.Num → f.Num
  sane x = if math.not_finite x then f.from_int 0 else x

  -- a ratio of counters, zero for an empty denominator
  unfoldable pub amplification : ℕ → ℕ → f.Num
  amplification a b = if ltb 0 b then ratio f a b else f.from_int 0

  pub record Results : Type 0 where
    pub write_amplification : f.Num
    pub read_amplification : f.Num
    pub space_amplification : f.Num
    pub compaction_count : ℕ
    pub logical_bytes : ℕ
    pub physical_bytes : ℕ
    pub total_reads : ℕ
    pub segment_scans : ℕ
    pub live_data_bytes : ℕ
    pub total_disk_bytes : ℕ
    pub phases : List (PhaseResult f)
    pub total_comparisons : ℕ
    pub avg_comparisons_per_read : f.Num
    pub logical_write_bytes : ℕ
    pub physical_write_bytes : ℕ
    pub compaction_write_bytes : ℕ

  -- From the end of the workload to the results; `size` is what os.Stat gives.
  unfoldable pub summarize : Sort → Result ℕ → List (PhaseResult f) → Driver → Results
  unfolding amplification live_size disk_size
  summarize sort size phases s =
      let c = s.counters in
      let live = live_size s.live_keys in
      let disk = disk_size sort size s.tracker in
      record {
        write_amplification = sane (amplification c.physical_bytes c.user_bytes);
        read_amplification = sane (amplification c.total_segment_scans c.total_reads);
        space_amplification = sane (amplification disk live);
        compaction_count = c.compaction_count;
        logical_bytes = c.logical_bytes;
        physical_bytes = c.physical_bytes;
        total_reads = c.total_reads;
        segment_scans = c.total_segment_scans;
        live_data_bytes = live;
        total_disk_bytes = disk;
        phases = phases;
        total_comparisons = s.read_comparisons;
        avg_comparisons_per_read = amplification s.read_comparisons c.total_reads;
        logical_write_bytes = c.logical_write_bytes;
        physical_write_bytes = s.disk.counters.physical_write_bytes;
        compaction_write_bytes = s.disk.counters.compaction_write_bytes;
      }

pub data Workload : Type 0 where
  shift pure_write pure_read mixed read_heavy write_heavy zipfian_reading : Workload

-- The flags, with the text of `--workload` read as one of the names; a number below zero is zero.
pub record Flags : Type 0 where
  pub workload : Option Workload
  pub num_keys : ℕ
  pub value_size : ℕ
  pub memtable_entries : ℕ

unfoldable pub valid_flags : Flags → Bool
valid_flags flags = ltb 0 flags.num_keys && (ltb 0 flags.value_size && ltb 0 flags.memtable_entries)

abbrev pub no_counters : Counters
no_counters = record {
  logical_bytes = 0;
  physical_bytes = 0;
  user_bytes = 0;
  total_reads = 0;
  total_segment_scans = 0;
  compaction_count = 0;
  logical_write_bytes = 0;
}

-- The components, put together over the two files.
unfoldable pub new_driver : Flags → ℕ → DiskWal → SegmentFile → Driver
new_driver flags now w file_mgr = record {
  wal = w.file;
  mem = new_memtable flags.memtable_entries;
  tracker = new_tracker;
  disk = record {
    segment_file = file_mgr;
    counters = record { physical_write_bytes = 0; compaction_write_bytes = 0 };
  };
  builder = new_builder 16;
  read_comparisons = 0;
  director = new_director (some (new_fsm_controller now));
  counters = no_counters;
  live_keys = [];
}

-- A file that cannot be opened ends the program in a panic.
unfoldable pub initialize : Flags → ℕ → Key → Key → Result File → Result File → Run Driver
unfolding new_driver
initialize flags now wal_path data_path wal_file data_file = elim (new_disk_wal wal_path wal_file) [
  | err e ↦ crashed
  | ok w ↦ elim (new_segment_file data_path data_file) [
    | err e ↦ crashed
    | ok file_mgr ↦ running (new_driver flags now w file_mgr)
  ]
]

pub data Exit (A : Type 0) : Type 0 where
  bad_flag unknown_workload panic : Exit A
  finished : A → Exit A

module _ (f : Float64) (range : Range) (times : Pointer → Times) (sort : Sort)
    (took : Phase → f.Num) (hot : ℕ → ℕ) (c : ℕ → Choices) where
  abbrev pub without_phases : Run Driver → Run (List (PhaseResult f) × Driver)
  without_phases (running s) = running ([], s)
  without_phases crashed = crashed

  -- `switch *workloadFlag`
  unfoldable pub run_workload : Workload → ℕ → ℕ → Driver → Run (List (PhaseResult f) × Driver)
  unfolding run_shift run_pure_write run_pure_read run_mixed run_read_heavy run_write_heavy
      run_zipfian
  run_workload shift n v s = run_shift f sort took n v c s
  run_workload pure_write n v s = without_phases (run_pure_write n v (c 0) s)
  run_workload pure_read n v s = without_phases (run_pure_read sort n v c s)
  run_workload mixed n v s = without_phases (run_mixed f range times sort n v c s)
  run_workload read_heavy n v s = without_phases (run_read_heavy f range times sort n v c s)
  run_workload write_heavy n v s = without_phases (run_write_heavy f range times sort n v c s)
  run_workload zipfian_reading n v s = without_phases (run_zipfian sort n v hot (c 0) s)

  abbrev pub exit_of : Run (List (PhaseResult f) × Driver) → Exit (List (PhaseResult f) × Driver)
  exit_of (running r) = finished r
  exit_of crashed = panic

  -- `main` up to the end of the workload, without the goroutine, whose rounds are `background_round`. An
  -- unknown workload is found only after the files are open.
  unfoldable pub run_main :
      Flags → ℕ → Key → Key → Result File → Result File → Exit (List (PhaseResult f) × Driver)
  unfolding valid_flags initialize run_workload
  run_main flags now wal_path data_path wal_file data_file =
      if valid_flags flags
      then elim (initialize flags now wal_path data_path wal_file data_file) [
        | crashed ↦ panic
        | running s ↦ elim flags.workload [
          | none ↦ unknown_workload
          | some w ↦ exit_of (run_workload w flags.num_keys flags.value_size s)
        ]
      ]
      else bad_flag
