-- ===== src/Driver/Main.antt =====
-- The program from its flags to the end of the pure-read workload.
use amethyst.Driver.Populate.{value_of, sequential, IsAscending}
use amethyst.Driver.PureRead.{get-run_pure_read}
use amethyst.Driver.Workloads.{PhaseResult, Choices}
use amethyst.Driver.Format.{format_key}
use amethyst.Read.Ordered.{IsSorting}
use amethyst.Sstable.Reader.{max_value_len}
use amethyst.Driver.Workloads.{run_pure_read, Choices, Phase}
use amethyst.Driver.Store.{IsStore, ClockMoved}
use amethyst.Driver.Store.{last_value}
use amethyst.Memtable.Lookup.{find}
use amethyst.SegmentFile.Window.{parts}
use amethyst.Memtable.{new_memtable}
use amethyst.SegmentFile.{SegmentFile}
use amethyst.SegmentFile.{new_segment_file}
use amethyst.Metadata.{Sort, Pointer, Range}
use amethyst.SparseIndex.{new_builder}
use amethyst.Wal.{DiskWal, new_disk_wal}
use amethyst.Adaptive.{Times, Float64}
use amethyst.Driver.Metrics.{
  Workload, finished, run_workload, pure_read, run_main, Flags, initialize,
}
use amethyst.Driver.Metrics.{new_driver}
use amethyst.Driver.Metrics.{valid_flags}
use amethyst.Base.{
  List, ◌^◌, ◌≤◌, some, false, ◌<◌, none, true, ◌≡◌, arith, Bytes, Key, ℕ, [], refl,
}
use amethyst.File.{File, ok, healthy}
use amethyst.Driver.{handler, Driver, running}
use amethyst.Read
use amethyst.Read.Held.{first_seen}
use amethyst.Sstable.RoundTrip.Written.{IsHealthy}

-- The segment file over an open file with no failing call.
abbrev pub opened_file : Key → Bytes → SegmentFile
opened_file path content = parts (healthy content) path none 0 false 0

pub opened_file-IsHealthy : (path : Key) (content : Bytes) → IsHealthy (opened_file path content)
opened_file-IsHealthy path content = record {
  outcomes = refl;
  window = record { shown = λ d on same. ground (arith, on) };
}

pub new_driver-IsStore :
    (flags : Flags) (now : ℕ) (w : DiskWal) (file_mgr : SegmentFile)
    → IsHealthy file_mgr
    → IsStore (new_builder 16) [] (new_driver flags now w file_mgr)
unfolding new_driver new_builder new_memtable find last_value first_seen
new_driver-IsStore flags now w file_mgr h = record {
  kept = record {
    builder = refl;
    stride = omega arith;
    healthy = h;
    sorted = tt;
    plain = tt;
    held = tt;
    answers = λ key. refl;
  };
  descending = tt;
}

pub new_driver-IsAscending :
    (flags : Flags) (now : ℕ) (w : DiskWal) (file_mgr : SegmentFile) (value_size : ℕ) (c : Choices)
    → IsHealthy file_mgr
    → IsAscending (new_builder 16) value_size c 0 (new_driver flags now w file_mgr)
unfolding new_driver new_memtable sequential
new_driver-IsAscending flags now w file_mgr value_size c h = record {
  kept = (new_driver-IsStore flags now w file_mgr h).kept;
  apart = record { apart = tt; above = tt };
  bounded = λ _. record { segments = tt; entries = tt };
}

pub new_driver_start :
    (flags : Flags) (now : ℕ) (w : DiskWal) (file_mgr : SegmentFile) (later : ℕ)
    → ClockMoved later (new_driver flags now w file_mgr)
      × ((new_driver flags now w file_mgr).mem.max_entries ≡ flags.memtable_entries)
unfolding new_driver new_memtable
new_driver_start flags now w file_mgr later = (tt, refl)

initialize-opened :
    (flags : Flags) (now : ℕ) (wal_path data_path : Key) (wal_file : File) (content : Bytes)
    → initialize flags now wal_path data_path (ok wal_file) (ok (healthy content))
      ≡ running (
          new_driver flags now
            (record { file = wal_file; path = wal_path })
            (opened_file data_path content))
unfolding initialize new_disk_wal new_segment_file
initialize-opened flags now wal_path data_path wal_file content = refl

some_limit :
    (flags : Flags)
    → valid_flags flags ≡ true
    → (0 < flags.num_keys) × (0 < flags.value_size) × (0 < flags.memtable_entries)
unfolding valid_flags
some_limit flags valid = (ground (arith, valid), ground (arith, valid), ground (arith, valid))

module _ (f : Float64) (range : Range) (times : Pointer → Times) (sort : Sort)
    (took : Phase → f.Num) (hot : ℕ → ℕ) (c : ℕ → Choices) where
  pub main_finished :
      (flags : Flags) (w : Workload) (now : ℕ) (wal_path data_path : Key) (wal_file : File)
      (content : Bytes) (r : List (PhaseResult f) × Driver)
      → valid_flags flags ≡ true
      → flags.workload ≡ some w
      → run_workload f range times sort took hot c w flags.num_keys flags.value_size (
          new_driver flags now
            (record { file = wal_file; path = wal_path })
            (opened_file data_path content))
        ≡ running r
      → run_main f range times sort took hot c flags now wal_path data_path
          (ok wal_file)
          (ok (healthy content))
        ≡ finished r
  unfolding run_main
  main_finished flags w now wal_path data_path wal_file content r valid named ends =
      rw (valid, initialize-opened flags now wal_path data_path wal_file content, named, ends) refl

  pure_read_finished :
      (n value_size : ℕ) (s u : Driver)
      → run_pure_read sort n value_size c s ≡ running u
      → run_workload f range times sort took hot c pure_read n value_size s ≡ running ([], u)
  unfolding run_workload
  pure_read_finished n value_size s u ends = rw ends refl

  -- With flags that main accepts, the pure-read workload, at most 10 ^ 10 keys and values of at most
  -- 10 MB, both files open with no failing call on the segment file, a sort that leaves what is in order
  -- and no background round before the end of the workload: main comes to that end without a panic,
  -- whatever keys are drawn, whatever the clock says and whatever calls on the log fail, and the read
  -- handler then returns for each of the keys the value that was written to it.
  pub get-run_main :
      (flags : Flags) (now : ℕ) (wal_path data_path : Key) (wal_file : File) (content : Bytes)
      → valid_flags flags ≡ true
      → flags.workload ≡ some pure_read
      → flags.num_keys ≤ 10 ^ 10
      → flags.value_size ≤ max_value_len
      → IsSorting sort
      → (u : Driver) × (run_main f range times sort took hot c flags now wal_path data_path
            (ok wal_file)
            (ok (healthy content))
          ≡ finished ([], u))
        × ((i : ℕ)
            → i < flags.num_keys
            → (Read.get sort (format_key i) (handler u)).0
              ≡ (some (value_of flags.value_size (c 0) i), true))
  get-run_main flags now wal_path data_path wal_file content valid named keys fits sorting =
      let w : DiskWal = record { file = wal_file; path = wal_path } in
      let file_mgr = opened_file data_path content in
      let start_facts = new_driver_start flags now w file_mgr 0 in
      let (some_keys, some_value, limit) = some_limit flags valid in
      let (u, ends, answers) =
        get-run_pure_read (new_builder 16) sort flags.value_size c flags.num_keys
          (new_driver flags now w file_mgr) some_value fits some_keys keys
          (new_driver-IsAscending flags now w file_mgr flags.value_size (c 0)
            (opened_file-IsHealthy data_path content))
          (omega (arith, limit, start_facts.1)) sorting in
      (
        u,
        main_finished flags pure_read now wal_path data_path wal_file content ([], u) valid named
            (pure_read_finished flags.num_keys flags.value_size (new_driver flags now w file_mgr) u
              ends),
        answers,
      )
