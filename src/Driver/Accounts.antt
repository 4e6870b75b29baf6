-- ===== src/Driver/Accounts.antt =====
-- What the driver's counters say after a step.
use amethyst.Driver.Sizes.{read_segments-SameSizes}
use amethyst.Driver.Populate.{length-fill}
use amethyst.Driver.Store.{before_flush}
use amethyst.Sstable.Writer.{write_segment, Disk}
use amethyst.Compaction.Director.{maybe_plan, Plan}
use amethyst.Compaction.Executor.{panicked, failed, compacted, execute, Executor, Executed}
use amethyst.Sstable.Reader.{fill}
use amethyst.Types.{SegmentMeta}
use amethyst.Driver.Format.{format_key}
use amethyst.Driver.Totals.{
  IsBalanced-SameSizes, IsBalanced, write_segment-Grown, execute-Compacted, Grown, Compacted, total,
}
use amethyst.Metadata.{get_segments_for_key, Pointer, Range}
use amethyst.Metadata.{Sort}
use amethyst.Adaptive.{Times, Float64}
use amethyst.Memtable
use amethyst.Base.{
  ap, sym, ◌∙◌, inr, none, inl, arith, true, some, ◌≤◌, length, Option, Bytes, Bool-cases, ◌≡◌, Key,
  Bool, ℕ,
}
use amethyst.File.{Result, ok, err}
use amethyst.Driver.Workloads.{Choices, write_round}
use amethyst.Driver.{
  handler, tiered, uncounted, without_writes, executor_of, counted, valid_inputs, compact_once,
  background_round, add_physical, count_flush, count_compaction, write_one, registered, read_one,
  flush_full, count_entry, compacted_round, compacted_once, carry_out_once, carry_out, Run, Driver,
  Accounting, ◌>>=◌, running, crashed,
}

-- The bytes that the driver adds up are those that the writer counts; the logical bytes and the user
-- bytes are the same, and the logical writes are at most these. The writer's physical bytes are those of
-- the registered segments on level 0, its compaction bytes those of the others.
pub record IsAccounted (s : Driver) : Type 0 where
  pub physical : s.counters.physical_bytes ≡ total s.disk.counters
  pub logical : s.counters.logical_bytes ≡ s.counters.user_bytes
  pub writes : s.counters.logical_write_bytes ≤ s.counters.user_bytes
  pub balanced : IsBalanced s.disk.counters s.tracker

-- What holds of the value wherever the program has not ended in a panic.
abbrev pub Ends : {A : Type 0} → (A → Type 0) → Run A → Type 0
Ends P (running a) = P a
Ends P crashed = Unit

pub Ends->>= :
    {A B : Type 0} (P : A → Type 0) (Q : B → Type 0) (r : Run A) (k : A → Run B)
    → Ends P r
    → ((a : A) → P a → Ends Q (k a))
    → Ends Q (r >>= k)
Ends->>= P Q (running a) k h next = next a h
Ends->>= P Q crashed k h next = tt

pub any : {A : Type 0} (r : Run A) → Ends (λ a. Unit) r
any (running a) = tt
any crashed = tt

-- The loops whose writes are counted.
abbrev pub Counts : Accounting → Type 0
Counts counted = Unit
Counts without_writes = Unit
Counts uncounted = ⊥

registered-IsAccounted :
    (how : Accounting) (cut : Bool) (s : Driver) (r : Result (Option SegmentMeta) × Disk)
    → Counts how
    → IsAccounted s
    → Grown s.disk.counters r
    → Ends IsAccounted (registered how cut s r)
unfolding registered count_flush add_physical
registered-IsAccounted counted cut s (ok (some m), d) c h g = record {
  physical = omega (arith, h.physical, g.0);
  logical = h.logical;
  writes = h.writes;
  balanced = g.1 s.tracker h.balanced;
}
registered-IsAccounted without_writes cut s (ok (some m), d) c h g = record {
  physical = omega (arith, h.physical, g.0);
  logical = h.logical;
  writes = h.writes;
  balanced = g.1 s.tracker h.balanced;
}
registered-IsAccounted uncounted cut s (ok (some m), d) c h g = absurd c
registered-IsAccounted how cut s (ok none, d) c h g = tt
registered-IsAccounted how cut s (err e, d) c h g = tt

pub flush_full-IsAccounted :
    (how : Accounting) (cut : Bool) (id : Key) (now : ℕ) (s : Driver)
    → Counts how
    → IsAccounted s
    → Ends IsAccounted (flush_full how cut id now s)
unfolding flush_full
flush_full-IsAccounted how cut id now s c h = elim (Bool-cases (Memtable.should_flush s.mem)) [
  | inl full ↦ rw full (
      registered-IsAccounted how cut (record s { mem = (Memtable.flush s.mem).1 })
        (write_segment s.builder id now (Memtable.flush s.mem).0 tiered 0 s.disk) c
        (record {
          physical = h.physical;
          logical = h.logical;
          writes = h.writes;
          balanced = h.balanced;
        })
        (write_segment-Grown s.builder id now (Memtable.flush s.mem).0 tiered 0 s.disk))
  | inr room ↦ rw room h
]

-- A write of a value of the asked size, up to its flush.
before_flush-IsAccounted :
    (how : Accounting) (value_size : ℕ) (key : Key) (val : Bytes) (s : Driver)
    → length val ≡ value_size
    → IsAccounted s
    → IsAccounted (before_flush how value_size key val s)
unfolding count_entry
before_flush-IsAccounted counted value_size key val s size h = record {
  physical = h.physical;
  logical = omega (arith, h.logical, size);
  writes = omega (arith, h.writes, size);
  balanced = h.balanced;
}
before_flush-IsAccounted without_writes value_size key val s size h = record {
  physical = h.physical;
  logical = omega (arith, h.logical, size);
  writes = omega (arith, h.writes, size);
  balanced = h.balanced;
}
before_flush-IsAccounted uncounted value_size key val s size h = record {
  physical = h.physical;
  logical = h.logical;
  writes = h.writes;
  balanced = h.balanced;
}

pub write_one-IsAccounted :
    (how : Accounting) (value_size : ℕ) (key : Key) (val : Bytes) (id : Key) (now : ℕ) (s : Driver)
    → Counts how
    → length val ≡ value_size
    → IsAccounted s
    → Ends IsAccounted (write_one how value_size key val id now s)
unfolding write_one
write_one-IsAccounted how value_size key val id now s c size h =
    flush_full-IsAccounted how true id now (before_flush how value_size key val s) c
      (before_flush-IsAccounted how value_size key val s size h)

pub write_round-IsAccounted :
    (how : Accounting) (value_size : ℕ) (c : Choices) (i k : ℕ) (s : Driver)
    → Counts how
    → IsAccounted s
    → Ends IsAccounted (write_round how value_size c i k s)
unfolding write_round
write_round-IsAccounted how value_size c i k s counts h =
    write_one-IsAccounted how value_size (format_key k) (fill value_size (c.bytes i)) (c.id i)
      (c.now i) s counts (length-fill value_size (c.bytes i)) h

pub read_one-IsAccounted :
    (sort : Sort) (key : Key) (s : Driver) → IsAccounted s → IsAccounted (read_one sort key s).1
unfolding read_one
read_one-IsAccounted sort key s h = record {
  physical = h.physical;
  logical = h.logical;
  writes = h.writes;
  balanced =
      IsBalanced-SameSizes s.disk.counters s.tracker _
        (read_segments-SameSizes key (get_segments_for_key sort key s.tracker) (handler s))
        h.balanced;
}

compacted_round-IsAccounted :
    (s : Driver) (r : Executed × Executor)
    → IsAccounted s
    → Compacted s.disk.counters r
    → Ends IsAccounted (compacted_round s r)
unfolding compacted_round count_compaction add_physical
compacted_round-IsAccounted s (compacted m, x) h g = record {
  physical = omega (arith, h.physical, g.0);
  logical = h.logical;
  writes = h.writes;
  balanced = g.1;
}
compacted_round-IsAccounted s (failed e, x) h g = record {
  physical = h.physical ∙ ap total (sym g.0);
  logical = h.logical;
  writes = h.writes;
  balanced = g.1;
}
compacted_round-IsAccounted s (panicked, x) h g = tt

compacted_once-IsAccounted :
    (s : Driver) (r : Executed × Executor)
    → IsAccounted s
    → Compacted s.disk.counters r
    → Ends IsAccounted (compacted_once s r)
unfolding compacted_once count_compaction add_physical
compacted_once-IsAccounted s (compacted m, x) h g = record {
  physical = omega (arith, h.physical, g.0);
  logical = h.logical;
  writes = h.writes;
  balanced = g.1;
}
compacted_once-IsAccounted s (failed e, x) h g = tt
compacted_once-IsAccounted s (panicked, x) h g = tt

carry_out-IsAccounted :
    (id : Key) (now : ℕ) (s : Driver) (plan : Option Plan)
    → IsAccounted s
    → Ends IsAccounted (carry_out id now s plan)
unfolding carry_out
carry_out-IsAccounted id now s none h = h
carry_out-IsAccounted id now s (some plan) h =
    elim (Bool-cases (valid_inputs s.tracker plan.inputs)) [
      | inl valid ↦ rw valid (
          compacted_round-IsAccounted s (execute s.builder id now plan (executor_of s)) h
            (execute-Compacted s.builder id now plan (executor_of s) h.balanced))
      | inr invalid ↦ rw invalid h
    ]

carry_out_once-IsAccounted :
    (id : Key) (now : ℕ) (s : Driver) (plan : Option Plan)
    → IsAccounted s
    → Ends IsAccounted (carry_out_once id now s plan)
unfolding carry_out_once
carry_out_once-IsAccounted id now s none h = h
carry_out_once-IsAccounted id now s (some plan) h =
    compacted_once-IsAccounted s (execute s.builder id now plan (executor_of s)) h
      (execute-Compacted s.builder id now plan (executor_of s) h.balanced)

module _ (f : Float64) (range : Range) (times : Pointer → Times) (sort : Sort) where
  pub background_round-IsAccounted :
      (id : Key) (now : ℕ) (s : Driver)
      → IsAccounted s
      → Ends IsAccounted (background_round f range times sort id now s)
  unfolding background_round
  background_round-IsAccounted id now s h =
      carry_out-IsAccounted id now
        (record s { director = (maybe_plan f range times sort s.tracker s.director).1 })
        (maybe_plan f range times sort s.tracker s.director).0
        (record {
          physical = h.physical;
          logical = h.logical;
          writes = h.writes;
          balanced = h.balanced;
        })

  pub compact_once-IsAccounted :
      (id : Key) (now : ℕ) (s : Driver)
      → IsAccounted s
      → Ends IsAccounted (compact_once f range times sort id now s)
  unfolding compact_once
  compact_once-IsAccounted id now s h =
      carry_out_once-IsAccounted id now
        (record s { director = (maybe_plan f range times sort s.tracker s.director).1 })
        (maybe_plan f range times sort s.tracker s.director).0
        (record {
          physical = h.physical;
          logical = h.logical;
          writes = h.writes;
          balanced = h.balanced;
        })
