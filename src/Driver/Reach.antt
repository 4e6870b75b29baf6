-- ===== src/Driver/Reach.antt =====
-- The states that writes, final flushes and reads reach, and what the read handler answers in them.
use amethyst.Sstable.Writer.{write_segment}
use amethyst.Types.{KvEntry}
use amethyst.Memtable.Lookup.{get-find}
use amethyst.Driver.Reads.{read_one-IsStore}
use amethyst.Read.Ordered.{IsServing, Descending-IsServing}
use amethyst.Driver.Store.{IsKept, before_flush, before_flush-IsKept, answer}
use mathlib.Core.Path.{subst}
use amethyst.Memtable.Refinement.{flush-eq}
use amethyst.Base.{refl, Bool-cases, List, Bool, inl, inr}
use amethyst.Driver.Refinement.{flushed-IsKept, flush_none}
use amethyst.Read.Ordered.{get_segments_for_key_seen, IsSorting}
use amethyst.Driver.{
  registered, flush_full, read_one, write_one, handler, crashed, Accounting, running, Run, Driver,
}
use amethyst.Metadata.{Sort}
use amethyst.SparseIndex.{Builder}
use amethyst.Memtable
use amethyst.Read
use amethyst.Read.Newest.{get-newest}
use amethyst.Base.{refl, ◌∙◌, true, sym, some, Bytes, ap, Key, ℕ, ◌≡◌, [], ◌∷◌}
use amethyst.Driver.Store.{ClockMoved, last_value, IsWritable, Writes, IsStore}

-- The writes, the latest first, and the state that they and any final flushes and reads lead to. A write
-- is within the reader's limits, and at a flush the clock has moved on since the last one.
pub data Reach (sort : Sort) (s0 : Driver) : Writes → Driver → Type 0 where
  start : Reach sort s0 [] s0
  wrote :
      {ws : Writes} {s u : Driver}
      → Reach sort s0 ws s
      → (how : Accounting) (value_size : ℕ) (key : Key) (val : Bytes) (id : Key) (now : ℕ)
      → IsWritable key val
      → (Memtable.should_flush (Memtable.put key (some val) s.mem) ≡ true → ClockMoved now s)
      → write_one how value_size key val id now s ≡ running u
      → Reach sort s0 ((key, val) ∷ ws) u
  final_flush :
      {ws : Writes} {s u : Driver}
      → Reach sort s0 ws s
      → (how : Accounting) (cut : Bool) (id : Key) (now : ℕ)
      → (Memtable.should_flush s.mem ≡ true → ClockMoved now s)
      → flush_full how cut id now s ≡ running u
      → Reach sort s0 ws u
  looked :
      {ws : Writes} {s u : Driver}
      → Reach sort s0 ws s
      → (key : Key) → u ≡ (read_one sort key s).1
      → Reach sort s0 ws u

abbrev HasEnded : Run Driver → Type 0
HasEnded (running u) = ⊥
HasEnded crashed = Unit

-- A flush of nothing gives no segment, and the nil segment is dereferenced.
flush_empty :
    (how : Accounting) (cut : Bool) (id : Key) (now : ℕ) (s : Driver)
    → s.mem.entries ≡ []
    → Memtable.should_flush s.mem ≡ true
    → flush_full how cut id now s ≡ crashed
unfolding flush_full registered write_segment
flush_empty how cut id now s none_there full = rw (full, flush-eq s.mem, none_there) refl

abbrev state_or : Driver → Run Driver → Driver
state_or s (running u) = u
state_or s crashed = s

pub running_inj : (s u : Driver) → running s ≡ running u → s ≡ u
running_inj s u e = ap (state_or s) e

-- A flush that comes to an end; one of an empty memtable does not.
flush_full-IsStore :
    (b : Builder) (ws : Writes) (how : Accounting) (cut : Bool) (id : Key) (now : ℕ) (s u : Driver)
    → IsStore b ws s
    → (Memtable.should_flush s.mem ≡ true → ClockMoved now s)
    → flush_full how cut id now s ≡ running u
    → IsStore b ws u
flush_full-IsStore b ws how cut id now s u h clock e =
    elim (Bool-cases (Memtable.should_flush s.mem)) [
      | inr room ↦
          subst (IsStore b ws) (running_inj s u (sym (flush_none how cut id now s room) ∙ e)) h
      | inl full ↦ go s.mem.entries refl full
    ]
  where
    go :
        (es : List KvEntry)
        → s.mem.entries ≡ es
        → Memtable.should_flush s.mem ≡ true
        → IsStore b ws u
    go [] none_there full =
        absurd (subst HasEnded (sym (flush_empty how cut id now s none_there full) ∙ e) tt)
    go (x ∷ xs) some_there full =
        let (u', e', h', next') =
          flushed-IsKept b ws how cut id now s x xs h.kept some_there full in
        subst (IsStore b ws) (running_inj u' u (sym e' ∙ e))
          (record { kept = h'; descending = next'.descending h.descending (clock full) })

-- A write that comes to an end.
write_one-IsStore :
    (b : Builder) (ws : Writes) (how : Accounting) (value_size : ℕ) (key : Key) (val : Bytes)
    (id : Key) (now : ℕ) (s u : Driver)
    → IsStore b ws s
    → IsWritable key val
    → (Memtable.should_flush (Memtable.put key (some val) s.mem) ≡ true → ClockMoved now s)
    → write_one how value_size key val id now s ≡ running u
    → IsStore b ((key, val) ∷ ws) u
unfolding write_one
write_one-IsStore b ws how n key val id now s u h w clock e =
    flush_full-IsStore b ((key, val) ∷ ws) how true id now (before_flush how n key val s) u
      (record {
        kept = before_flush-IsKept b ws how n key val s h.kept w;
        descending = h.descending;
      })
      clock e

pub Reach-IsStore :
    {b : Builder} {sort : Sort} {s0 : Driver} {ws : Writes} {s : Driver}
    → IsSorting sort
    → IsStore b [] s0
    → Reach sort s0 ws s
    → IsStore b ws s
Reach-IsStore sorting h0 start = h0
Reach-IsStore {b} sorting h0 (wrote {ws} {s} {u} r how n key val id now w clock e) =
    write_one-IsStore b ws how n key val id now s u (Reach-IsStore sorting h0 r) w clock e
Reach-IsStore {b} sorting h0 (final_flush {ws} r how cut id now clock e) =
    flush_full-IsStore b ws how cut id now _ _ (Reach-IsStore sorting h0 r) clock e
Reach-IsStore {b} {sort} sorting h0 (looked {ws} {s} r key e) =
    subst (IsStore b ws) (sym e)
      (read_one-IsStore b ws sort key s sorting (Reach-IsStore sorting h0 r))

-- What the read handler answers in a store, where the segments for the key are in order.
pub get-IsKept :
    (b : Builder) (ws : Writes) (sort : Sort) (key : Key) (s : Driver)
    → IsSorting sort
    → IsServing s.tracker key
    → IsKept b ws s
    → (Read.get sort key (handler s)).0 ≡ answer (last_value ws key)
get-IsKept b ws sort key s sorting orderly h =
    let content = s.disk.segment_file.file.content in
    let (serving, same) =
      get_segments_for_key_seen b content sort key s.tracker sorting orderly h.held in
    (get-newest b sort key (handler s) serving h.healthy).0
    ∙ rw (get-find s.mem key h.sorted, same) (h.answers key)

-- From a store without writes, with a sort that leaves what is in order, and after any writes,
-- final flushes and reads of the workloads, where each write is within the reader's limits and a
-- flush comes at a later time than the flushes before it: the read handler answers, for any key,
-- the last value written to it and true, or nil and false where it was never written.
pub get-Reach :
    (b : Builder) (sort : Sort) (s0 s : Driver) (ws : Writes) (key : Key)
    → IsSorting sort
    → IsStore b [] s0
    → Reach sort s0 ws s
    → (Read.get sort key (handler s)).0 ≡ answer (last_value ws key)
get-Reach b sort s0 s ws key sorting h0 r =
    let h = Reach-IsStore sorting h0 r in
    get-IsKept b ws sort key s sorting (Descending-IsServing s.tracker key h.descending) h.kept
