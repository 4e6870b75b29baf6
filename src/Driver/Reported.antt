-- ===== src/Driver/Reported.antt =====
-- What the results say at the end of main.
use amethyst.Driver.Sizes.{upper_bytes, base_bytes, sizes}
use mathlib.Core.Path.{subst}
use amethyst.SegmentFile.{new_segment_file, SegmentFile}
use amethyst.Wal.{new_disk_wal, DiskWal}
use amethyst.Metadata.{Pointer, Range}
use amethyst.Metadata.{Sort}
use amethyst.Adaptive.{Times, Float64}
use amethyst.Driver.Metrics.{
  Math, summarize, valid_flags, panic, unknown_workload, exit_of, bad_flag, finished, Flags,
  run_main, new_driver, initialize, Exit, zipfian_reading, write_heavy, read_heavy, mixed,
  pure_write, shift, without_phases, run_workload, pure_read, Workload,
}
use amethyst.Driver.Workloads.{
  PhaseResult, run_write_heavy, run_read_heavy, run_mixed, run_pure_write, Phase, Choices,
}
use amethyst.Driver.Workloads.{run_zipfian}
use amethyst.Base.{
  ◌≤◌, none, inl, inr, Bool-cases, some, ◌≡◌, arith, Key, List, if◌then◌else◌, true, ◌+◌, false, ℕ,
  refl,
}
use amethyst.File.{File, Result, ok, err}
use amethyst.Driver.Accounts.{IsAccounted, Ends}
use amethyst.Driver.{Run, counted, Driver, running, crashed}
use amethyst.Driver.Loops.{
  run_zipfian-IsAccounted, run_operations-IsAccounted, populate-IsAccounted, run_shift-IsAccounted,
  Beside,
}

-- All workloads but the one of pure reads, which starts two of the counters again.
abbrev pub KeepsCounters : Workload → Type 0
KeepsCounters pure_read = ⊥
KeepsCounters w = Unit

module _ (f : Float64) (range : Range) (times : Pointer → Times) (sort : Sort)
    (took : Phase → f.Num) (hot : ℕ → ℕ) (c : ℕ → Choices) where
  no_phases :
      (r : Run Driver)
      → Ends IsAccounted r
      → Ends Beside (without_phases f range times sort took hot c r)
  no_phases (running s) h = h
  no_phases crashed h = tt

  run_workload-IsAccounted :
      (w : Workload) (n value_size : ℕ) (s : Driver)
      → KeepsCounters w
      → IsAccounted s
      → Ends Beside (run_workload f range times sort took hot c w n value_size s)
  unfolding run_workload run_pure_write run_mixed run_read_heavy run_write_heavy
  run_workload-IsAccounted shift n v s kept h = run_shift-IsAccounted f sort took n v c s h
  run_workload-IsAccounted pure_write n v s kept h =
      no_phases (run_pure_write n v (c 0) s) (populate-IsAccounted counted n v (c 0) s tt h)
  run_workload-IsAccounted pure_read n v s kept h = absurd kept
  run_workload-IsAccounted mixed n v s kept h =
      no_phases (run_mixed f range times sort n v c s)
        (run_operations-IsAccounted f range times sort (λ b. b) n v c s h)
  run_workload-IsAccounted read_heavy n v s kept h =
      no_phases (run_read_heavy f range times sort n v c s)
        (run_operations-IsAccounted f range times sort (λ b. if b then false else true) n v c s h)
  run_workload-IsAccounted write_heavy n v s kept h =
      no_phases (run_write_heavy f range times sort n v c s)
        (run_operations-IsAccounted f range times sort (λ b. b) n v c s h)
  run_workload-IsAccounted zipfian_reading n v s kept h =
      no_phases (run_zipfian sort n v hot (c 0) s) (run_zipfian-IsAccounted sort n v hot (c 0) s h)

pub new_driver-IsAccounted :
    (flags : Flags) (now : ℕ) (w : DiskWal) (file_mgr : SegmentFile)
    → IsAccounted (new_driver flags now w file_mgr)
unfolding new_driver sizes base_bytes upper_bytes
new_driver-IsAccounted flags now w file_mgr = record {
  physical = refl;
  logical = refl;
  writes = omega arith;
  balanced = record { base = refl; upper = refl };
}

initialize-IsAccounted :
    (flags : Flags) (now : ℕ) (wal_path data_path : Key) (wal_file data_file : Result File)
    → Ends IsAccounted (initialize flags now wal_path data_path wal_file data_file)
unfolding initialize
initialize-IsAccounted flags now wal_path data_path wal_file data_file =
    go (new_disk_wal wal_path wal_file) (new_segment_file data_path data_file)
  where
    go :
        (w : Result DiskWal) (d : Result SegmentFile)
        → let out : Run Driver = elim w [
          | err e ↦ crashed
          | ok w' ↦ elim d [
            | err e ↦ crashed
            | ok file_mgr ↦ running (new_driver flags now w' file_mgr)
          ]
        ] in
          Ends IsAccounted out
    go (err e) d = tt
    go (ok w) (err e) = tt
    go (ok w) (ok file_mgr) = new_driver-IsAccounted flags now w file_mgr

abbrev Finishes : {A : Type 0} → (A → Type 0) → Exit A → Type 0
Finishes P (finished a) = P a
Finishes P bad_flag = Unit
Finishes P unknown_workload = Unit
Finishes P panic = Unit

module _ (f : Float64) (range : Range) (times : Pointer → Times) (sort : Sort)
    (took : Phase → f.Num) (hot : ℕ → ℕ) (c : ℕ → Choices) where
  exit_of-IsAccounted :
      (r : Run (List (PhaseResult f) × Driver))
      → Ends Beside r
      → Finishes Beside (exit_of f range times sort took hot c r)
  exit_of-IsAccounted (running r) h = h
  exit_of-IsAccounted crashed h = tt

  run_main-Finishes :
      (flags : Flags) (w : Workload) (now : ℕ) (wal_path data_path : Key)
      (wal_file data_file : Result File)
      → flags.workload ≡ some w
      → KeepsCounters w
      → Finishes Beside
          (run_main f range times sort took hot c flags now wal_path data_path wal_file data_file)
  unfolding run_main
  run_main-Finishes flags w now wal_path data_path wal_file data_file named kept =
      elim (Bool-cases (valid_flags flags)) [
        | inr invalid ↦ rw invalid tt
        | inl valid ↦ rw valid (
            go (initialize flags now wal_path data_path wal_file data_file)
              (initialize-IsAccounted flags now wal_path data_path wal_file data_file))
      ]
    where
      go :
          (r : Run Driver)
          → Ends IsAccounted r
          → let out : Exit (List (PhaseResult f) × Driver) = elim r [
            | crashed ↦ panic
            | running s ↦ elim flags.workload [
              | none ↦ unknown_workload
              | some w' ↦
                  exit_of f range times sort took hot c (
                    run_workload f range times sort took hot c w' flags.num_keys flags.value_size s)
            ]
          ] in
            Finishes Beside out
      go crashed h = tt
      go (running s) h = rw named (
          exit_of-IsAccounted _ (
            run_workload-IsAccounted f range times sort took hot c w flags.num_keys flags.value_size
              s kept h))

  -- Whatever the calls on the files do and whatever is drawn, with no background round in between:
  -- where main ends a workload other than the pure reads without a panic, the physical bytes of its
  -- results are the sum of the bytes flushed and the bytes written by compactions, and the logical
  -- write bytes are at most the logical bytes.
  pub run_main-reported :
      (math : Math f) (size : Result ℕ) (flags : Flags) (w : Workload) (now : ℕ)
      (wal_path data_path : Key) (wal_file data_file : Result File)
      (r : List (PhaseResult f) × Driver)
      → flags.workload ≡ some w
      → KeepsCounters w
      → run_main f range times sort took hot c flags now wal_path data_path wal_file data_file
        ≡ finished r
      → let out = summarize f math sort size r.0 r.1 in
        (out.physical_bytes ≡ out.physical_write_bytes + out.compaction_write_bytes)
        × (out.logical_write_bytes ≤ out.logical_bytes)
  unfolding summarize
  run_main-reported math size flags w now wal_path data_path wal_file data_file r named kept ends =
      let h : IsAccounted r.1 =
        subst (Finishes Beside) ends
          (run_main-Finishes flags w now wal_path data_path wal_file data_file named kept) in
      (h.physical, omega (arith, h.logical, h.writes))
