-- ===== src/Driver/Tests.antt =====
-- The driver's theorems at concrete runs.
use amethyst.Wal.{DiskWal}
use amethyst.Compaction.Director.{maybe_plan_in, maybe_plan}
use amethyst.Adaptive.{Times}
use amethyst.Driver.Panics.{run_main-one_key}
use amethyst.Driver.Live.{HasLengths, live_keys-Reach}
use amethyst.Driver.Order.{format_key_order}
use amethyst.Driver.Reach.{wrote, looked, get-Reach}
use amethyst.Driver.Populate.{populate-IsKept, value_of}
use amethyst.Driver.Reported.{new_driver-IsAccounted}
use amethyst.Driver.Reported.{run_main-reported}
use amethyst.SparseIndex.{new_builder}
use amethyst.Driver.Format.{format_key}
use amethyst.Driver.Steps.{background_step, initial, write_step, read_step, Steps-IsAccounted}
use amethyst.Driver.Zipf.{zipfian-bounded}
use amethyst.Driver.Accounts.{IsAccounted}
use amethyst.Driver.Metrics.{
  run_workload, pure_read, shift, panic, valid_flags, finished, run_main, pure_write, new_driver,
  Flags,
}
use amethyst.Driver.Metrics.{Math}
use amethyst.Driver.Metrics.{summarize}
use amethyst.Driver.Metrics.{zipfian}
use amethyst.Driver.Store.{last_value, answer, IsWritable, IsStore, ClockMoved}
use amethyst.Driver.Workloads.{run_pure_write, Choices}
use amethyst.Base.{
  ◌==◌, key_eqb, ltb, ◌≤◌, false, key_ltb, ℕ, [], ◌∷◌, refl, arith, some, true, ◌+◌, ◌≡◌, ◌<◌,
}
use amethyst.File.{ok, healthy, File}
use amethyst.Driver.{
  carry_out, background_round, write_one, read_one, handler, Driver, running, counted,
}
use amethyst.Adaptive.Tests.{fractions, times}
use amethyst.Metadata.{live, get_all_segments, Sort, Range}
use amethyst.Driver.Main.{
  main_finished, new_driver-IsAscending, opened_file, opened_file-IsHealthy, new_driver-IsStore,
  new_driver_start, get-run_main,
}
use amethyst.Read
use amethyst.Driver.Refinement.{write_one-IsKept}
use amethyst.Driver.Store.{IsKept, before_flush}
use amethyst.Driver.Reach.{start}
use amethyst.Driver.Refinement.{Next}

abbrev sort : Sort
sort less ps = ps

abbrev range : Range
range m = m

abbrev flags : Flags
flags = record { workload = some pure_read; num_keys = 2; value_size = 1; memtable_entries = 1 }

abbrev wal_file : File
wal_file = healthy []

abbrev choices : Choices
choices = record {
  index = λ i. i;
  bytes = λ i. i ∷ [];
  id = λ i. i ∷ [];
  now = λ i. i + 1;
  coin = λ i. true;
}

abbrev fresh : Driver
fresh = new_driver flags 0 (record { file = wal_file; path = [] }) (opened_file [] [])

fresh-IsStore : IsStore (new_builder 16) [] fresh
fresh-IsStore = new_driver-IsStore flags 0 _ (opened_file [] []) (opened_file-IsHealthy [] [])

abbrev fresh_start : ClockMoved 5 fresh × (fresh.mem.max_entries ≡ 1)
fresh_start = new_driver_start flags 0 (record { file = wal_file; path = [] }) (opened_file [] []) 5

key-IsWritable : IsWritable (1 ∷ []) (7 ∷ [])
key-IsWritable = record {
  some_key = omega arith;
  key_fits = omega arith;
  some_value = omega arith;
  value_fits = omega arith;
}

abbrev one_write :
    (u : Driver) × (write_one counted 1 (1 ∷ []) (7 ∷ []) (9 ∷ []) 5 fresh ≡ running u)
    × IsKept (new_builder 16) ((1 ∷ [], 7 ∷ []) ∷ []) u
    × Next 5 (before_flush counted 1 (1 ∷ []) (7 ∷ []) fresh) u
one_write =
    write_one-IsKept (new_builder 16) [] counted 1 (1 ∷ []) (7 ∷ []) (9 ∷ []) 5 fresh
      fresh-IsStore.kept key-IsWritable

abbrev after_read : Driver
after_read = (read_one sort (1 ∷ []) one_write.0).1

get-Reach_example :
    (Read.get sort (1 ∷ []) (handler after_read)).0
    ≡ answer (last_value ((1 ∷ [], 7 ∷ []) ∷ []) (1 ∷ []))
get-Reach_example =
    get-Reach (new_builder 16) sort fresh after_read ((1 ∷ [], 7 ∷ []) ∷ []) (1 ∷ [])
      (λ less ps h. refl) fresh-IsStore
      (looked
        (wrote start counted 1 (1 ∷ []) (7 ∷ []) (9 ∷ []) 5 key-IsWritable (λ _. fresh_start.0)
          one_write.1)
        (1 ∷ []) refl)

flags-valid : valid_flags flags ≡ true
unfolding valid_flags
flags-valid = refl

get-run_main_example :
    (u : Driver) × (run_main fractions range
        (λ p. times)
        sort
        (λ p. (0, 1))
        (λ i. 0)
        (λ i. choices)
        flags
        0
        []
        []
        (ok wal_file)
        (ok (healthy []))
      ≡ finished ([], u))
    × ((i : ℕ)
        → i < 2
        → (Read.get sort (format_key i) (handler u)).0 ≡ (some (value_of 1 choices i), true))
get-run_main_example =
    get-run_main fractions range (λ p. times) sort (λ p. (0, 1)) (λ i. 0) (λ i. choices) flags 0 []
      [] wal_file [] flags-valid refl (omega arith) (omega arith) (λ less ps h. refl)

-- A run of the pure-write workload.
abbrev write_flags : Flags
write_flags = record {
  workload = some pure_write;
  num_keys = 2;
  value_size = 1;
  memtable_entries = 1;
}

write_flags-valid : valid_flags write_flags ≡ true
unfolding valid_flags
write_flags-valid = refl

abbrev write_start : Driver
write_start = new_driver write_flags 0 (record { file = wal_file; path = [] }) (opened_file [] [])

written :
    (u : Driver) × (run_workload fractions range
        (λ p. times)
        sort
        (λ p. (0, 1))
        (λ i. 0)
        (λ i. choices)
        pure_write
        2
        1
        write_start
      ≡ running ([], u))
unfolding run_workload run_pure_write
written =
    let w : DiskWal = record { file = wal_file; path = [] } in
    let (u, ends, _, _) =
      populate-IsKept counted (new_builder 16) 1 choices (omega arith) (omega arith) 2 write_start
        (omega arith)
        (new_driver-IsAscending write_flags 0 w (opened_file [] []) 1 choices
          (opened_file-IsHealthy [] []))
        (omega (arith, (new_driver_start write_flags 0 w (opened_file [] []) 5).1)) in
    (u, rw ends refl)

abbrev math : Math fractions
math = record { pow = λ x y. x; ge = λ x y. true; not_finite = λ x. false }

run_main-reported_example :
    let out = summarize fractions math sort (ok 0) [] written.0 in
    (out.physical_bytes ≡ out.physical_write_bytes + out.compaction_write_bytes)
    × (out.logical_write_bytes ≤ out.logical_bytes)
run_main-reported_example =
    run_main-reported fractions range (λ p. times) sort (λ p. (0, 1)) (λ i. 0) (λ i. choices) math
      (ok 0) write_flags pure_write 0 [] [] (ok wal_file) (ok (healthy [])) ([], written.0) refl tt
      (main_finished fractions range (λ p. times) sort (λ p. (0, 1)) (λ i. 0) (λ i. choices)
        write_flags pure_write 0 [] [] wal_file [] ([], written.0) write_flags-valid refl written.1)

-- A later reading of the clock.
abbrev later : Times
later = record times { start = 9; check = 9_000_000_000 }

idle_round :
    (ts : Times) → background_round fractions range (λ p. ts) sort (9 ∷ []) 3 fresh ≡ running fresh
unfolding background_round carry_out maybe_plan maybe_plan_in get_all_segments live new_driver
idle_round ts = refl

Steps-IsAccounted_example : IsAccounted after_read
Steps-IsAccounted_example =
    Steps-IsAccounted fractions
      (new_driver-IsAccounted flags 0 (record { file = wal_file; path = [] }) (opened_file [] []))
      (read_step
        (write_step
          (background_step
            (background_step initial range (λ p. times) sort (9 ∷ []) 3 (idle_round times)) range
            (λ p. later) sort (9 ∷ []) 3 (idle_round later))
          counted 1 (1 ∷ []) (7 ∷ []) (9 ∷ []) 5 tt refl one_write.1)
        sort (1 ∷ []) refl)

format_key_order_example :
    (key_ltb (format_key 3) (format_key 12) ≡ ltb 3 12)
    × (key_eqb (format_key 3) (format_key 12) ≡ (3 == 12))
format_key_order_example = format_key_order 3 12 (omega arith) (omega arith)

zipfian-bounded_example : zipfian fractions math (1, 2) 3 (3, 2) < 3
zipfian-bounded_example = zipfian-bounded fractions math (1, 2) 3 (3, 2) (omega arith)

fresh-live_keys : fresh.live_keys ≡ []
unfolding new_driver
fresh-live_keys = refl

live_keys-Reach_example : HasLengths ((1 ∷ [], 7 ∷ []) ∷ []) after_read.live_keys
live_keys-Reach_example = live_keys-Reach fresh-live_keys (
    looked
      (wrote start counted 1 (1 ∷ []) (7 ∷ []) (9 ∷ []) 5 key-IsWritable (λ _. fresh_start.0)
        one_write.1)
      (1 ∷ []) refl)

abbrev one_key : Flags
one_key = record { workload = some shift; num_keys = 1; value_size = 1; memtable_entries = 1 }

one_key-valid : valid_flags one_key ≡ true
unfolding valid_flags
one_key-valid = refl

run_main-one_key_example :
    run_main fractions range
      (λ p. times)
      sort
      (λ p. (0, 1))
      (λ i. 0)
      (λ i. choices)
      one_key
      0
      []
      []
      (ok wal_file)
      (ok (healthy []))
    ≡ panic
run_main-one_key_example =
    run_main-one_key fractions range (λ p. times) sort (λ p. (0, 1)) (λ i. 0) (λ i. choices) one_key
      0 [] [] (ok wal_file) (ok (healthy [])) one_key-valid refl refl
