-- ===== src/Driver/Populate.antt =====
-- The loop over the keys in order, from an empty store.
use amethyst.Driver.Refinement.{flushed-IsKept, flush_none, write_one-IsKept}
use amethyst.Driver.Order.{format_key_order}
use amethyst.Driver.Order.{length-format_key}
use Prim.Native.Nat.{zero}
use amethyst.Driver.Format.{format_key}
use amethyst.Driver.{Accounting, running, flush_full, Driver}
use amethyst.Types.{KvEntry}
use amethyst.Driver.Workloads.{in_order, write_round, populate, write_each, Choices}
use amethyst.Memtable.{Memtable}
use amethyst.SparseIndex.{Builder}
use amethyst.Sstable.Reader.{max_value_len, fill}
use amethyst.Memtable
use amethyst.Base.{
  ◌∙◌, ==_iff, inr, inl, ◌==◌, false, ◌+◌, Bool-cases, some, Key, ◌^◌, arith, ap, ◌≤◌, suc, length,
  ◌<◌, true, Bytes, ℕ, ◌≡◌, refl, List, [], ◌∷◌,
}
use amethyst.Driver.Store.{
  IsWritable, Writes, last_value, IsKept, before_flush, All-upsert, put_entries, put_entry,
}
use amethyst.Driver.Apart.{IsApart, IsBounded}
use amethyst.Metadata.{Tracker, Pointer, at}
use amethyst.Base.{All, key_ltb, key_ltb_trans}
use amethyst.Memtable.Position.{IsSorted}

-- The value of a round.
abbrev pub value_of : ℕ → Choices → ℕ → Bytes
value_of value_size c i = fill value_size (c.bytes i)

-- The first `n` writes in the order of the keys, the latest first.
unfoldable pub sequential : ℕ → Choices → ℕ → Writes
sequential value_size c zero = []
sequential value_size c (suc n) =
    (format_key n, value_of value_size c n) ∷ sequential value_size c n

pub length-fill : (n : ℕ) (xs : Bytes) → length (fill n xs) ≡ n
unfolding fill
length-fill zero xs = refl
length-fill (suc n) [] = omega (arith, length-fill n [])
length-fill (suc n) (x ∷ xs) = omega (arith, length-fill n xs)

some_of :
    (m : Memtable)
    → Memtable.should_flush m ≡ true
    → 0 < m.max_entries
    → (e : KvEntry) × (es : List KvEntry) × (m.entries ≡ e ∷ es)
unfolding Memtable.should_flush
some_of m full limit = go m.entries refl
  where
    go :
        (es : List KvEntry)
        → m.entries ≡ es
        → (x : KvEntry) × (xs : List KvEntry) × (m.entries ≡ x ∷ xs)
    go [] e =
        let none_there : length m.entries ≡ 0 = ap length e in
        absurd (ground (arith, full, limit, none_there))
    go (x ∷ xs) e = (x, xs, e)

-- Between two rounds of the loop: the store of the writes before, with ranges that are apart and below
-- the key of the round.
pub record IsAscending (b : Builder) (value_size : ℕ) (c : Choices) (i : ℕ) (s : Driver)
    : Type 0 where
  pub kept : IsKept b (sequential value_size c i) s
  pub apart : IsApart s
  pub bounded : i < 10 ^ 10 → IsBounded (format_key i) s

Below-trans :
    (t : Tracker) (k k' : Key) (ps : List Pointer)
    → key_ltb k k' ≡ true
    → All (λ q. key_ltb (at t q).max_key k ≡ true) ps
    → All (λ q. key_ltb (at t q).max_key k' ≡ true) ps
Below-trans t k k' [] lt h = tt
Below-trans t k k' (p ∷ ps) lt h =
    (key_ltb_trans (at t p).max_key k k' h.0 lt, Below-trans t k k' ps lt h.1)

entries_trans :
    (k k' : Key) (es : List KvEntry)
    → key_ltb k k' ≡ true
    → All (λ e. key_ltb e.key k ≡ true) es
    → All (λ e. key_ltb e.key k' ≡ true) es
entries_trans k k' [] lt h = tt
entries_trans k k' (e ∷ es) lt h = (key_ltb_trans e.key k k' h.0 lt, entries_trans k k' es lt h.1)

module _ (how : Accounting) (b : Builder) (value_size : ℕ) (c : Choices)
    (some_value : 0 < value_size) (fits : value_size ≤ max_value_len) where
  round-IsWritable : (i : ℕ) → i < 10 ^ 10 → IsWritable (format_key i) (value_of value_size c i)
  round-IsWritable i small =
      let width = length-format_key i small in
      let size = length-fill value_size (c.bytes i) in
      record {
        some_key = omega (arith, width);
        key_fits = omega (arith, width);
        some_value = omega (arith, size, some_value);
        value_fits = omega (arith, size, fits);
      }

  abbrev put_round : ℕ → Driver → Driver
  put_round i s = before_flush how value_size (format_key i) (value_of value_size c i) s

  put_round-IsApart :
      (i : ℕ) (s : Driver)
      → IsSorted s.mem.entries
      → IsApart s
      → IsBounded (format_key i) s
      → IsApart (put_round i s)
  put_round-IsApart i s sorted a bounded =
      let put_here = put_entries (format_key i) (value_of value_size c i) s.mem sorted in
      record {
        apart = a.apart;
        above = rw put_here (
            All-upsert
              (λ e. All (λ q. key_ltb (at s.tracker q).max_key e.key ≡ true) s.tracker.ordered)
              (put_entry (format_key i) (value_of value_size c i)) s.mem.entries bounded.segments
              a.above);
      }

  put_round-IsBounded :
      (i : ℕ) (s : Driver)
      → suc i < 10 ^ 10
      → IsSorted s.mem.entries
      → IsBounded (format_key i) s
      → IsBounded (format_key (suc i)) (put_round i s)
  put_round-IsBounded i s small sorted bounded =
      let put_here = put_entries (format_key i) (value_of value_size c i) s.mem sorted in
      let before : key_ltb (format_key i) (format_key (suc i)) ≡ true =
        (format_key_order i (suc i) (omega (arith, small)) small).0 ∙ ground arith in
      record {
        segments =
            Below-trans s.tracker (format_key i) (format_key (suc i)) s.tracker.ordered before
              bounded.segments;
        entries = rw put_here (
            All-upsert (λ e. key_ltb e.key (format_key (suc i)) ≡ true)
              (put_entry (format_key i) (value_of value_size c i)) s.mem.entries before
              (entries_trans (format_key i) (format_key (suc i)) s.mem.entries before
                bounded.entries));
      }

  put_round-limit : (i : ℕ) (s : Driver) → (put_round i s).mem.max_entries ≡ s.mem.max_entries
  unfolding Memtable.put Memtable.write_entry
  put_round-limit i s = refl

  round-IsAscending :
      (i : ℕ) (s : Driver)
      → i < 10 ^ 10
      → IsAscending b value_size c i s
      → (u : Driver) × (write_round how value_size c i i s ≡ running u)
        × IsAscending b value_size c (suc i) u
        × (u.mem.max_entries ≡ s.mem.max_entries)
  unfolding write_round sequential
  round-IsAscending i s small h =
      let (u, ends, kept, next) =
        write_one-IsKept b (sequential value_size c i) how value_size (format_key i)
          (value_of value_size c i) (c.id i) (c.now i) s h.kept (round-IsWritable i small) in
      (
        u,
        ends,
        record {
          kept = kept;
          apart = next.apart (put_round-IsApart i s h.kept.sorted h.apart (h.bounded small));
          bounded = λ more.
              next.bounded (format_key (suc i))
                (put_round-IsBounded i s more h.kept.sorted (h.bounded small));
        },
        next.limit ∙ put_round-limit i s,
      )

  -- The loop from round `i` on.
  write_each-IsAscending :
      (left i n : ℕ) (s : Driver)
      → i + left ≡ n
      → n ≤ 10 ^ 10
      → IsAscending b value_size c i s
      → (u : Driver) × (write_each how value_size in_order c left i s ≡ running u)
        × IsAscending b value_size c n u
        × (u.mem.max_entries ≡ s.mem.max_entries)
  unfolding write_each
  write_each-IsAscending zero i n s sum small h =
      let same : n ≡ i = omega (arith, sum) in rw same (s, refl, h, refl)
  write_each-IsAscending (suc left) i n s sum small h =
      let (s', ends, h', kept) = round-IsAscending i s (omega (arith, sum, small)) h in
      let (u, rest, h'', limit) =
        write_each-IsAscending left (suc i) n s' (omega (arith, sum)) small h' in
      rw ends (u, rest, h'', limit ∙ kept)

  -- The final flush: a memtable at its limit is not empty where the limit is not zero.
  final_flush-IsKept :
      (ws : Writes) (id : Key) (now : ℕ) (s : Driver)
      → IsKept b ws s
      → IsApart s
      → 0 < s.mem.max_entries
      → (u : Driver) × (flush_full how false id now s ≡ running u) × IsKept b ws u × IsApart u
  final_flush-IsKept ws id now s h apart limit = elim (Bool-cases (Memtable.should_flush s.mem)) [
    | inr room ↦ (s, flush_none how false id now s room, h, apart)
    | inl full ↦
        let (e, es, some_entries) = some_of s.mem full limit in
        let (u, ends, store, next) =
          flushed-IsKept b ws how false id now s e es h some_entries full in
        (u, ends, store, next.apart apart)
  ]

  -- The keys in order end without a panic in a store of their writes.
  pub populate-IsKept :
      (n : ℕ) (s : Driver)
      → n ≤ 10 ^ 10
      → IsAscending b value_size c 0 s
      → 0 < s.mem.max_entries
      → (u : Driver) × (populate how n value_size c s ≡ running u)
        × IsKept b (sequential value_size c n) u
        × IsApart u
  unfolding populate
  populate-IsKept n s small h limit =
      let (s', ends, h', kept) = write_each-IsAscending n 0 n s (omega arith) small h in
      let (u, flushes, h'', apart) =
        final_flush-IsKept (sequential value_size c n) (c.id n) (c.now n) s' h'.kept h'.apart
          (omega (arith, limit, kept)) in
      (u, rw ends flushes, h'', apart)

pub last_value-sequential :
    (value_size : ℕ) (c : Choices) (n i : ℕ)
    → i < n
    → n ≤ 10 ^ 10
    → last_value (sequential value_size c n) (format_key i) ≡ some (value_of value_size c i)
unfolding last_value sequential
last_value-sequential value_size c zero i lt small = absurd (omega (arith, lt))
last_value-sequential value_size c (suc n) i lt small =
    let same_key = (format_key_order n i (omega (arith, small)) (omega (arith, lt, small))).1 in
    elim (Bool-cases (n == i)) [
      | inl same ↦
          rw (same_key, same) (ap (λ j. some (value_of value_size c j)) ((==_iff n i).0 same))
      | inr other ↦
          rw (same_key, other)
            (last_value-sequential value_size c n i (ground (arith, lt, other))
              (omega (arith, small)))
    ]
