-- ===== src/Driver/Steps.antt =====
-- The program's steps in any order: the workload's and the background goroutine's rounds between them.
use mathlib.Core.Path.{subst}
use amethyst.Metadata.{Sort, Pointer, Range}
use amethyst.Adaptive.{Times, Float64}
use amethyst.Base.{Bool, length, Bytes, Key, sym, ◌≡◌, ℕ}
use amethyst.Driver.Accounts.{
  IsAccounted, Ends, Counts, write_one-IsAccounted, flush_full-IsAccounted, read_one-IsAccounted,
  background_round-IsAccounted, compact_once-IsAccounted,
}
use amethyst.Driver.{
  compact_once, background_round, read_one, flush_full, write_one, Accounting, Driver, Run, running,
}

-- The states that the steps lead to. The writes are counted, of values of the size that is asked for;
-- a compaction, in the background or at the end of a workload, is given by its outcome.
pub data Steps (f : Float64) (s0 : Driver) : Driver → Type 0 where
  initial : Steps f s0 s0
  write_step :
      {s u : Driver}
      → Steps f s0 s
      → (how : Accounting) (value_size : ℕ) (key : Key) (val : Bytes) (id : Key) (now : ℕ)
      → Counts how
      → length val ≡ value_size
      → write_one how value_size key val id now s ≡ running u
      → Steps f s0 u
  flush_step :
      {s u : Driver}
      → Steps f s0 s
      → (how : Accounting) (cut : Bool) (id : Key) (now : ℕ) → Counts how
      → flush_full how cut id now s ≡ running u
      → Steps f s0 u
  read_step :
      {s u : Driver}
      → Steps f s0 s
      → (sort : Sort) (key : Key) → u ≡ (read_one sort key s).1
      → Steps f s0 u
  background_step :
      {s u : Driver}
      → Steps f s0 s
      → (range : Range) (times : Pointer → Times) (sort : Sort) (id : Key) (now : ℕ)
      → background_round f range times sort id now s ≡ running u
      → Steps f s0 u
  final_step :
      {s u : Driver}
      → Steps f s0 s
      → (range : Range) (times : Pointer → Times) (sort : Sort) (id : Key) (now : ℕ)
      → compact_once f range times sort id now s ≡ running u
      → Steps f s0 u

ended : {r : Run Driver} {u : Driver} → Ends IsAccounted r → r ≡ running u → IsAccounted u
ended h e = subst (Ends IsAccounted) e h

-- Whatever the calls on the files do, and in whatever order counted writes of values of the asked
-- size, counted flushes, reads, background rounds and final compactions come without a panic: the
-- driver's physical bytes stay the sum of the writer's two counters, of which the one of the flushes
-- stays the length of all segments ever registered on level 0 and the one of the compactions that of
-- all others; the logical bytes stay the user bytes, and the logical write bytes at most these.
pub Steps-IsAccounted :
    (f : Float64) {s0 s : Driver} → IsAccounted s0 → Steps f s0 s → IsAccounted s
Steps-IsAccounted f h initial = h
Steps-IsAccounted f h (write_step {s} r how n key val id now c size e) =
    ended (write_one-IsAccounted how n key val id now s c size (Steps-IsAccounted f h r)) e
Steps-IsAccounted f h (flush_step {s} r how cut id now c e) =
    ended (flush_full-IsAccounted how cut id now s c (Steps-IsAccounted f h r)) e
Steps-IsAccounted f h (read_step {s} r sort key e) =
    subst IsAccounted (sym e) (read_one-IsAccounted sort key s (Steps-IsAccounted f h r))
Steps-IsAccounted f h (background_step {s} r range times sort id now e) =
    ended (background_round-IsAccounted f range times sort id now s (Steps-IsAccounted f h r)) e
Steps-IsAccounted f h (final_step {s} r range times sort id now e) =
    ended (compact_once-IsAccounted f range times sort id now s (Steps-IsAccounted f h r)) e
