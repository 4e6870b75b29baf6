-- ===== src/Driver/Workloads.antt =====
-- The workloads of amethyst/cmd/amethystd/main.go, each as the sequence of its loops. What `rand`, the
-- uuids and the clock give in a loop are arguments, `Choices`, by the number of the round. Pauses and
-- progress lines are left out; a background round runs between two steps of a workload.
use amethyst.Base.{
  ℕ, zero, suc, ◌+◌, ◌*◌, ◌/◌, ◌%◌, Bool, true, false, List, [], ◌∷◌, Key, Bytes, ◌==◌,
  if◌then◌else◌,
}
use amethyst.Metadata.{Pointer, Range, Sort}
use amethyst.Sstable.Reader.{fill}
use amethyst.Adaptive.{Float64, Times}
use amethyst.Driver.{
  Driver, Run, running, crashed, ◌>>=◌, Accounting, counted, without_writes, uncounted, flush_full,
  write_one, read_one, compact_once,
}
use amethyst.Driver.Format.{format_key}

pub record Choices : Type 0 where
  pub index : ℕ → ℕ
  -- what rand.Read puts into a value
  pub bytes : ℕ → Bytes
  pub id : ℕ → Key
  pub now : ℕ → ℕ
  -- the test `rand.Float32() < 0.95`
  pub coin : ℕ → Bool

-- The numbers of the keys of a loop.
abbrev pub Picks : Type 0
Picks = ℕ → Run ℕ

abbrev pub in_order : Picks
in_order i = running i

-- `rand.Intn(n)`, which panics where `n` is zero.
unfoldable pub drawn : ℕ → Choices → Picks
drawn n c i = if n == 0 then crashed else running (c.index i % n)

-- One round of a loop of writes.
unfoldable pub write_round : Accounting → ℕ → Choices → ℕ → ℕ → Driver → Run Driver
write_round how value_size c i k s =
    write_one how value_size (format_key k) (fill value_size (c.bytes i)) (c.id i) (c.now i) s

-- A loop of writes: the rounds left, and the number of the round.
unfoldable pub write_each : Accounting → ℕ → Picks → Choices → ℕ → ℕ → Driver → Run Driver
write_each how value_size picks c zero i s = running s
write_each how value_size picks c (suc left) i s = do
  k ← picks i
  s' ← write_round how value_size c i k s
  write_each how value_size picks c left (suc i) s'

-- A loop of reads, with the segments that may have a key summed up.
unfoldable pub read_each : Sort → Picks → ℕ → ℕ → ℕ × Driver → Run (ℕ × Driver)
read_each sort picks zero i (scans, s) = running (scans, s)
read_each sort picks (suc left) i (scans, s) = do
  k ← picks i
  read_each sort picks left (suc i)
      (scans + (read_one sort (format_key k) s).0, (read_one sort (format_key k) s).1)

unfoldable pub add_scans : ℕ × Driver → Driver
add_scans (scans, s) = record s {
  counters = record s.counters { total_segment_scans = s.counters.total_segment_scans + scans };
}

-- All keys in order, and the final flush.
unfoldable pub populate : Accounting → ℕ → ℕ → Choices → Driver → Run Driver
populate how num_keys value_size c s = do
  s' ← write_each how value_size in_order c num_keys 0 s
  flush_full how false (c.id num_keys) (c.now num_keys) s'

-- `num_keys / 2` random overwrites, and the final flush.
unfoldable pub overwrite : ℕ → ℕ → Choices → Driver → Run Driver
overwrite num_keys value_size c s = do
  s' ← write_each counted value_size (drawn num_keys c) c (num_keys / 2) 0 s
  flush_full counted false (c.id num_keys) (c.now num_keys) s'

unfoldable pub run_pure_write : ℕ → ℕ → Choices → Driver → Run Driver
unfolding populate
run_pure_write num_keys value_size c s = populate counted num_keys value_size c s

-- The two counters that the read phase starts with at zero.
unfoldable pub reset_bytes : Driver → Driver
reset_bytes s = record s { counters = record s.counters { logical_bytes = 0; physical_bytes = 0 } }

unfoldable pub run_pure_read : Sort → ℕ → ℕ → (ℕ → Choices) → Driver → Run Driver
unfolding populate read_each reset_bytes add_scans
run_pure_read sort num_keys value_size c s = do
  s' ← populate uncounted num_keys value_size (c 0) s
  r ← read_each sort (drawn num_keys (c 1)) (num_keys * 3) 0 (0, reset_bytes s')
  running (add_scans r)

-- One of the mixed operations.
unfoldable pub operate : Sort → Bool → ℕ → Choices → ℕ → ℕ → Driver → Run Driver
unfolding write_round read_one add_scans
operate sort true value_size c i k s = write_round counted value_size c i k s
operate sort false value_size c i k s = running (add_scans (read_one sort (format_key k) s))

-- The loop of the mixed operations; `writes` says which outcome of the coin is a write.
unfoldable pub operate_each : Sort → (Bool → Bool) → ℕ → ℕ → Choices → ℕ → ℕ → Driver → Run Driver
operate_each sort writes num_keys value_size c zero i s = running s
operate_each sort writes num_keys value_size c (suc left) i s = do
  k ← drawn num_keys c i
  s' ← operate sort (writes (c.coin i)) value_size c i k s
  operate_each sort writes num_keys value_size c left (suc i) s'

-- What follows `numReads := numKeys * 3` in the Zipfian workload: the reads, by the indices that
-- `zipfian` gives. The count of the reads of the first tenth of the keys is only printed, and left out.
unfoldable pub zipfian_reads : Sort → ℕ → (ℕ → ℕ) → Driver → Run Driver
unfolding add_scans
zipfian_reads sort num_keys hot s = do
  r ← read_each sort (λ i. running (hot i)) (num_keys * 3) 0 (0, s)
  running (add_scans r)

unfoldable pub run_zipfian : Sort → ℕ → ℕ → (ℕ → ℕ) → Choices → Driver → Run Driver
unfolding populate zipfian_reads
run_zipfian sort num_keys value_size hot c s = do
  s' ← populate counted num_keys value_size c s
  zipfian_reads sort num_keys hot s'

module _ (f : Float64) (range : Range) (times : Pointer → Times) (sort : Sort) where
  -- What the three mixed workloads share: the keys in order, the operations, one compaction.
  unfoldable pub run_operations : (Bool → Bool) → ℕ → ℕ → (ℕ → Choices) → Driver → Run Driver
  run_operations writes num_keys value_size c s = do
    s1 ← populate without_writes num_keys value_size (c 0) s
    s2 ← operate_each sort writes num_keys value_size (c 1) (num_keys * 2) 0 s1
    compact_once f range times sort ((c 2).id 0) ((c 2).now 0) s2

  unfoldable pub run_mixed : ℕ → ℕ → (ℕ → Choices) → Driver → Run Driver
  unfolding run_operations
  run_mixed = run_operations (λ b. b)

  unfoldable pub run_read_heavy : ℕ → ℕ → (ℕ → Choices) → Driver → Run Driver
  unfolding run_operations
  run_read_heavy = run_operations (λ b. if b then false else true)

  unfoldable pub run_write_heavy : ℕ → ℕ → (ℕ → Choices) → Driver → Run Driver
  unfolding run_operations
  run_write_heavy = run_operations (λ b. b)

-- The phases of `runShift` in their order in the results.
pub data Phase : Type 0 where
  write_phase read_phase write2_phase read_after_overwrites : Phase

module _ (f : Float64) where
  pub record PhaseResult : Type 0 where
    pub name : Phase
    pub duration : f.Num
    pub wa : f.Num
    pub ra : f.Num

  -- a quotient of counters
  abbrev pub ratio : ℕ → ℕ → f.Num
  ratio a b = f.div (f.from_int a) (f.from_int b)

  abbrev pub write_amplification : Driver → f.Num
  write_amplification s = ratio s.counters.physical_bytes s.counters.logical_bytes

  -- The two reads have `num_keys` and `num_keys * 3` rounds; the first draws from nine tenths of the
  -- keys.
  unfoldable pub run_shift :
      Sort → (Phase → f.Num) → ℕ → ℕ → (ℕ → Choices) → Driver → Run (List PhaseResult × Driver)
  unfolding add_scans
  run_shift sort took num_keys value_size c s = do
    s1 ← write_each counted value_size in_order (c 0) num_keys 0 s
    s2 ← overwrite num_keys value_size (c 1) s1
    r2 ← read_each sort (drawn (num_keys * 9 / 10) (c 2)) num_keys 0 (0, s2)
    s4 ← overwrite num_keys value_size (c 3) (add_scans r2)
    r4 ← read_each sort (drawn num_keys (c 4)) (num_keys * 3) 0 (0, s4)
    running (
      record {
        name = write_phase;
        duration = took write_phase;
        wa = write_amplification s2;
        ra = f.from_int 0;
      }
          ∷ record {
            name = read_phase;
            duration = took read_phase;
            wa = write_amplification (add_scans r2);
            ra = ratio r2.0 num_keys;
          }
          ∷ record {
            name = write2_phase;
            duration = took write2_phase;
            wa = write_amplification s4;
            ra = ratio r2.0 num_keys;
          }
          ∷ record {
            name = read_after_overwrites;
            duration = took read_after_overwrites;
            wa = write_amplification (add_scans r4);
            ra = ratio r4.0 (num_keys * 3);
          }
          ∷ [],
      add_scans r4,
    )
