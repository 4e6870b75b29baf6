-- ===== src/Driver/Loops.antt =====
-- What the driver's counters say after a loop and after a workload's parts.

use amethyst.Driver.Format.{format_key}
use amethyst.Metadata.{Pointer, Range}
use amethyst.Metadata.{Sort}
use amethyst.Adaptive.{Times, Float64}
use amethyst.Driver.Workloads.{
  write_round, run_operations, drawn, in_order, Picks, Phase, zipfian_reads, Choices, add_scans,
}
use amethyst.Driver.Workloads.{operate}
use amethyst.Driver.Workloads.{operate_each}
use amethyst.Driver.Workloads.{overwrite}
use amethyst.Driver.Workloads.{populate}
use amethyst.Driver.Workloads.{read_each}
use amethyst.Driver.Workloads.{run_shift}
use amethyst.Driver.Workloads.{run_zipfian}
use amethyst.Driver.Workloads.{write_each}
use amethyst.Base.{true, ◌/◌, ◌+◌, ◌*◌, false, Bool, ℕ, suc, zero}
use amethyst.Driver.Accounts.{
  any, IsAccounted, Ends, Ends->>=, Counts, write_round-IsAccounted, flush_full-IsAccounted,
  read_one-IsAccounted, compact_once-IsAccounted,
}
use amethyst.Driver.{without_writes, read_one, counted, Accounting, Driver, running}

-- The predicate on the state beside a value.
abbrev pub Beside : {A : Type 0} → (A × Driver) → Type 0
Beside r = IsAccounted r.1

-- In each of the following the value of rand.Intn is anything, or there is none.
write_each-IsAccounted :
    (how : Accounting) (value_size : ℕ) (picks : Picks) (c : Choices) (left i : ℕ) (s : Driver)
    → Counts how
    → IsAccounted s
    → Ends IsAccounted (write_each how value_size picks c left i s)
unfolding write_each
write_each-IsAccounted how value_size picks c zero i s counts h = h
write_each-IsAccounted how value_size picks c (suc left) i s counts h =
    Ends->>= (λ k. Unit) IsAccounted (picks i) _ (any (picks i))
      (λ k _.
        Ends->>= IsAccounted IsAccounted (write_round how value_size c i k s) _
          (write_round-IsAccounted how value_size c i k s counts h)
          (λ s' h'. write_each-IsAccounted how value_size picks c left (suc i) s' counts h'))

read_each-IsAccounted :
    (sort : Sort) (picks : Picks) (left i : ℕ) (r : ℕ × Driver)
    → Beside r
    → Ends Beside (read_each sort picks left i r)
unfolding read_each
read_each-IsAccounted sort picks zero i (scans, s) h = h
read_each-IsAccounted sort picks (suc left) i (scans, s) h =
    Ends->>= (λ k. Unit) Beside (picks i) _ (any (picks i))
      (λ k _.
        read_each-IsAccounted sort picks left (suc i)
          (scans + (read_one sort (format_key k) s).0, (read_one sort (format_key k) s).1)
          (read_one-IsAccounted sort (format_key k) s h))

add_scans-IsAccounted : (r : ℕ × Driver) → Beside r → IsAccounted (add_scans r)
unfolding add_scans
add_scans-IsAccounted (scans, s) h = record {
  physical = h.physical;
  logical = h.logical;
  writes = h.writes;
  balanced = h.balanced;
}

pub populate-IsAccounted :
    (how : Accounting) (n value_size : ℕ) (c : Choices) (s : Driver)
    → Counts how
    → IsAccounted s
    → Ends IsAccounted (populate how n value_size c s)
unfolding populate
populate-IsAccounted how n value_size c s counts h =
    Ends->>= IsAccounted IsAccounted (write_each how value_size in_order c n 0 s) _
      (write_each-IsAccounted how value_size in_order c n 0 s counts h)
      (λ s' h'. flush_full-IsAccounted how false (c.id n) (c.now n) s' counts h')

overwrite-IsAccounted :
    (n value_size : ℕ) (c : Choices) (s : Driver)
    → IsAccounted s
    → Ends IsAccounted (overwrite n value_size c s)
unfolding overwrite
overwrite-IsAccounted n value_size c s h =
    Ends->>= IsAccounted IsAccounted (write_each counted value_size (drawn n c) c (n / 2) 0 s) _
      (write_each-IsAccounted counted value_size (drawn n c) c (n / 2) 0 s tt h)
      (λ s' h'. flush_full-IsAccounted counted false (c.id n) (c.now n) s' tt h')

operate-IsAccounted :
    (sort : Sort) (write : Bool) (value_size : ℕ) (c : Choices) (i k : ℕ) (s : Driver)
    → IsAccounted s
    → Ends IsAccounted (operate sort write value_size c i k s)
unfolding operate
operate-IsAccounted sort true value_size c i k s h =
    write_round-IsAccounted counted value_size c i k s tt h
operate-IsAccounted sort false value_size c i k s h =
    add_scans-IsAccounted (read_one sort (format_key k) s)
      (read_one-IsAccounted sort (format_key k) s h)

operate_each-IsAccounted :
    (sort : Sort) (writes : Bool → Bool) (n value_size : ℕ) (c : Choices) (left i : ℕ) (s : Driver)
    → IsAccounted s
    → Ends IsAccounted (operate_each sort writes n value_size c left i s)
unfolding operate_each
operate_each-IsAccounted sort writes n value_size c zero i s h = h
operate_each-IsAccounted sort writes n value_size c (suc left) i s h =
    Ends->>= (λ k. Unit) IsAccounted (drawn n c i) _ (any (drawn n c i))
      (λ k _.
        Ends->>= IsAccounted IsAccounted (operate sort (writes (c.coin i)) value_size c i k s) _
          (operate-IsAccounted sort (writes (c.coin i)) value_size c i k s h)
          (λ s' h'. operate_each-IsAccounted sort writes n value_size c left (suc i) s' h'))

pub run_zipfian-IsAccounted :
    (sort : Sort) (n value_size : ℕ) (hot : ℕ → ℕ) (c : Choices) (s : Driver)
    → IsAccounted s
    → Ends IsAccounted (run_zipfian sort n value_size hot c s)
unfolding run_zipfian zipfian_reads
run_zipfian-IsAccounted sort n value_size hot c s h =
    Ends->>= IsAccounted IsAccounted (populate counted n value_size c s) _
      (populate-IsAccounted counted n value_size c s tt h)
      (λ s' h'.
        Ends->>= Beside IsAccounted (read_each sort (λ i. running (hot i)) (n * 3) 0 (0, s')) _
          (read_each-IsAccounted sort (λ i. running (hot i)) (n * 3) 0 (0, s') h')
          (λ r hr. add_scans-IsAccounted r hr))

pub run_shift-IsAccounted :
    (f : Float64) (sort : Sort) (took : Phase → f.Num) (n value_size : ℕ) (c : ℕ → Choices)
    (s : Driver)
    → IsAccounted s
    → Ends Beside (run_shift f sort took n value_size c s)
unfolding run_shift
run_shift-IsAccounted f sort took n value_size c s h =
    Ends->>= IsAccounted Beside _ _
      (write_each-IsAccounted counted value_size in_order (c 0) n 0 s tt h)
      (λ s1 h1.
        Ends->>= IsAccounted Beside _ _ (overwrite-IsAccounted n value_size (c 1) s1 h1) (λ s2 h2.
          Ends->>= Beside Beside _ _
            (read_each-IsAccounted sort (drawn (n * 9 / 10) (c 2)) n 0 (0, s2) h2)
            (λ r2 hr2.
              Ends->>= IsAccounted Beside _ _
                (overwrite-IsAccounted n value_size (c 3) (add_scans r2)
                  (add_scans-IsAccounted r2 hr2))
                (λ s4 h4.
                  Ends->>= Beside Beside _ _
                    (read_each-IsAccounted sort (drawn n (c 4)) (n * 3) 0 (0, s4) h4)
                    (λ r4 hr4. add_scans-IsAccounted r4 hr4)))))

module _ (f : Float64) (range : Range) (times : Pointer → Times) (sort : Sort) where
  pub run_operations-IsAccounted :
      (writes : Bool → Bool) (n value_size : ℕ) (c : ℕ → Choices) (s : Driver)
      → IsAccounted s
      → Ends IsAccounted (run_operations f range times sort writes n value_size c s)
  unfolding run_operations
  run_operations-IsAccounted writes n value_size c s h =
      Ends->>= IsAccounted IsAccounted _ _
        (populate-IsAccounted without_writes n value_size (c 0) s tt h)
        (λ s1 h1.
          Ends->>= IsAccounted IsAccounted _ _
            (operate_each-IsAccounted sort writes n value_size (c 1) (n * 2) 0 s1 h1)
            (λ s2 h2. compact_once-IsAccounted f range times sort ((c 2).id 0) ((c 2).now 0) s2 h2))
