-- ===== src/Driver/Panics.antt =====
-- The shift workload with one key.
use amethyst.Driver.Metrics.{
  initialize, unknown_workload, Exit, valid_flags, panic, shift, exit_of, Flags, run_main,
}
use amethyst.Driver.Metrics.{run_workload}
use amethyst.Metadata.{Pointer, Range, Sort}
use amethyst.Adaptive.{Times, Float64}
use amethyst.Driver.Workloads.{
  PhaseResult, overwrite, in_order, write_each, run_shift, Phase, Choices, drawn, read_each,
}
use amethyst.Base.{none, some, List, some, true, Key, ◌≡◌, ℕ, refl}
use amethyst.File.{File, Result}
use amethyst.Driver.{counted, Driver, Run, ◌>>=◌, running, crashed}

-- What comes before a panic does not matter.
crashed->>= :
    {A B : Type 0} (r : Run A) (k : A → Run B) → ((a : A) → k a ≡ crashed) → (r >>= k) ≡ crashed
crashed->>= (running a) k h = h a
crashed->>= crashed k h = refl

read_each-none :
    (sort : Sort) (c : Choices) (r : ℕ × Driver) → read_each sort (drawn 0 c) 1 0 r ≡ crashed
unfolding read_each drawn
read_each-none sort c r = refl

module _ (f : Float64) (sort : Sort) (took : Phase → f.Num) (value_size : ℕ) (c : ℕ → Choices) where
  run_shift-one : (s : Driver) → run_shift f sort took 1 value_size c s ≡ crashed
  unfolding run_shift
  run_shift-one s = crashed->>= (write_each counted value_size in_order (c 0) 1 0 s) _ (λ s1.
      crashed->>= (overwrite 1 value_size (c 1) s1) _
        (λ s2. rw (read_each-none sort (c 2) (0, s2)) refl))

module _ (f : Float64) (range : Range) (times : Pointer → Times) (sort : Sort)
    (took : Phase → f.Num) (hot : ℕ → ℕ) (c : ℕ → Choices) where
  exit_of-one :
      (value_size : ℕ) (s : Driver)
      → exit_of f range times sort took hot c
          (run_workload f range times sort took hot c shift 1 value_size s)
        ≡ panic
  unfolding run_workload
  exit_of-one value_size s = rw (run_shift-one f sort took value_size c s) refl

  -- With flags that main accepts, the shift workload, one key and no background round in between:
  -- main ends in a panic, whether the files can be opened or not and whatever is drawn, because the
  -- read phase draws from nine tenths of one key, that is from none.
  pub run_main-one_key :
      (flags : Flags) (now : ℕ) (wal_path data_path : Key) (wal_file data_file : Result File)
      → valid_flags flags ≡ true
      → flags.workload ≡ some shift
      → flags.num_keys ≡ 1
      → run_main f range times sort took hot c flags now wal_path data_path wal_file data_file
        ≡ panic
  unfolding run_main
  run_main-one_key flags now wal_path data_path wal_file data_file valid named one =
      rw valid (go (initialize flags now wal_path data_path wal_file data_file))
    where
      go :
          (r : Run Driver)
          → let out : Exit (List (PhaseResult f) × Driver) = elim r [
            | crashed ↦ panic
            | running s ↦ elim flags.workload [
              | none ↦ unknown_workload
              | some w ↦
                  exit_of f range times sort took hot c
                    (run_workload f range times sort took hot c w flags.num_keys flags.value_size s)
            ]
          ] in
            out ≡ panic
      go crashed = refl
      go (running s) = rw (named, one) (exit_of-one flags.value_size s)
