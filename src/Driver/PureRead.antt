-- ===== src/Driver/PureRead.antt =====
-- The pure-read workload.
use amethyst.Driver.Reach.{get-IsKept}
use amethyst.Driver.Apart.{Apart, Apart-IsServing}
use amethyst.Driver.Reads.{read_one-IsKept, counted_Apart}
use amethyst.Driver.Format.{format_key}
use amethyst.Sstable.Reader.{max_value_len}
use amethyst.Read.Ordered.{IsSorting}
use amethyst.Metadata.{Sort}
use amethyst.Driver.Workloads.{add_scans, reset_bytes, Choices, drawn}
use amethyst.Driver.Workloads.{read_each}
use amethyst.Driver.Workloads.{run_pure_read}
use amethyst.SparseIndex.{Builder}
use amethyst.Base.{
  ap, ◌*◌, true, some, false, ◌^◌, ◌==◌, arith, ◌+◌, ◌%◌, ◌≤◌, ◌≡◌, ◌<◌, ℕ, refl, zero, suc, ◌∙◌,
}
use amethyst.Driver.{handler, Counters, Driver, read_one, running, uncounted}
use amethyst.Driver.Store.{Writes, answer, IsKept}
use amethyst.Driver.Populate.{
  sequential, value_of, IsAscending, populate-IsKept, last_value-sequential,
}
use amethyst.Read

drawn_lem : (n : ℕ) (c : Choices) (i : ℕ) → 0 < n → drawn n c i ≡ running (c.index i % n)
unfolding drawn
drawn_lem n c i keys = let some_keys : (n == 0) ≡ false = ground (arith, keys) in rw some_keys refl

-- A loop of reads of a store whose segments are apart.
read_each-IsKept :
    (b : Builder) (ws : Writes) (sort : Sort) (n : ℕ) (c : Choices) (left i : ℕ) (r : ℕ × Driver)
    → IsSorting sort
    → 0 < n
    → IsKept b ws r.1
    → Apart r.1.tracker r.1.tracker.ordered
    → (r' : ℕ × Driver) × (read_each sort (drawn n c) left i r ≡ running r')
      × IsKept b ws r'.1
      × Apart r'.1.tracker r'.1.tracker.ordered
unfolding read_each
read_each-IsKept b ws sort n c zero i (scans, s) sorting keys h apart = ((scans, s), refl, h, apart)
read_each-IsKept b ws sort n c (suc left) i (scans, s) sorting keys h apart =
    let key = format_key (c.index i % n) in
    let (h', counters, listed) =
      read_one-IsKept b ws sort key s sorting (Apart-IsServing s.tracker key apart) h in
    let apart' : Apart (read_one sort key s).1.tracker (read_one sort key s).1.tracker.ordered =
      rw listed (
        counted_Apart s.tracker (read_one sort key s).1.tracker s.tracker.ordered counters apart) in
    let (r', ends, h'', apart'') =
      read_each-IsKept b ws sort n c left (suc i)
        (scans + (read_one sort key s).0, (read_one sort key s).1) sorting keys h' apart' in
    (r', rw (drawn_lem n c i keys) ends, h'', apart'')

-- The counters do not matter to a store.
recounted-IsKept :
    (b : Builder) (ws : Writes) (s : Driver) (c : Counters)
    → IsKept b ws s
    → IsKept b ws (record s { counters = c })
recounted-IsKept b ws s c h = record {
  builder = h.builder;
  stride = h.stride;
  healthy = h.healthy;
  sorted = h.sorted;
  plain = h.plain;
  held = h.held;
  answers = h.answers;
}

-- From an empty store: runPureRead ends without a panic, whatever keys are drawn, and then the read
-- handler returns for each of its keys the value that was written to it.
pub get-run_pure_read :
    (b : Builder) (sort : Sort) (value_size : ℕ) (c : ℕ → Choices) (n : ℕ) (s : Driver)
    → 0 < value_size
    → value_size ≤ max_value_len
    → 0 < n
    → n ≤ 10 ^ 10
    → IsAscending b value_size (c 0) 0 s
    → 0 < s.mem.max_entries
    → IsSorting sort
    → (u : Driver) × (run_pure_read sort n value_size c s ≡ running u)
      × ((i : ℕ)
          → i < n
          → (Read.get sort (format_key i) (handler u)).0
            ≡ (some (value_of value_size (c 0) i), true))
unfolding run_pure_read reset_bytes add_scans
get-run_pure_read b sort value_size c n s some_value fits keys small h limit sorting =
    let (s', ends, h', apart) =
      populate-IsKept uncounted b value_size (c 0) some_value fits n s small h limit in
    let ws = sequential value_size (c 0) n in
    let (r, reads, h'', apart') =
      read_each-IsKept b ws sort n (c 1) (n * 3) 0 (0, reset_bytes s') sorting keys
        (recounted-IsKept b ws s' _ h') apart.apart in
    (
      add_scans r,
      rw (ends, reads) refl,
      λ i lt.
          get-IsKept b ws sort (format_key i) (add_scans r) sorting
            (Apart-IsServing r.1.tracker (format_key i) apart') (recounted-IsKept b ws r.1 _ h'')
          ∙ ap answer (last_value-sequential value_size (c 0) n i lt small),
    )
