-- ===== src/Driver/Refinement.antt =====
-- The driver's store under writes and reads, in any order.
use amethyst.Memtable.Upsert.{upsert}
use amethyst.Memtable.Lookup.{visible, find}
use amethyst.Driver.Flush.{
  clock_after, All-later, segment, disk', wrote, new-IsHeld, old_held, new-Descending, flushed_seen,
  seen-visible, IsReadable-All,
}
use amethyst.Memtable.Position.{IsSorted}
use amethyst.Memtable.Refinement.{flush-eq}
use amethyst.File.{ok}
use amethyst.Wal.{truncate_wal}
use amethyst.Metadata.{register_segment}
use amethyst.Sstable.Writer.{write_segment, Disk}
use amethyst.Types.{KvEntry, SegmentMeta}
use amethyst.Driver.{write_one, tiered, running, count_flush, Driver, Accounting}
use amethyst.Driver.{flush_full}
use amethyst.SparseIndex.{Builder}
use amethyst.Memtable
use amethyst.Read.Newest.{newest}
use amethyst.Metadata.{register_segment}
use amethyst.Base.{
  ◌<◌, key_eqb, inr, inl, key_ltb, Bytes, Bool-cases, false, sym, ap, ◌∙◌, some, All, true, Key,
  Bool, ℕ, ◌≡◌, refl, List, [], ◌∷◌, if◌then◌else◌,
}
use amethyst.Driver.Apart.{IsApart, IsBounded}
use amethyst.Driver.Flush.{new-Apart, new-IsAbove}
use amethyst.Read.Ordered.{Descending}
use amethyst.Sstable.Writer.{last_key}
use amethyst.Metadata.{at, Tracker}
use amethyst.Driver.Store.{
  put_entries, put_entry, before_flush-IsKept, before_flush, IsWritable, IsPlain, ClockMoved,
  Writes, IsKept,
}

-- The state after a flush that wrote the segment `m`.
abbrev flushed : Accounting → Bool → SegmentMeta → Disk → Driver → Driver
flushed how cut m d s = record s {
  mem = record s.mem { entries = [] };
  disk = d;
  counters = count_flush how m.length s.counters;
  tracker = register_segment m s.tracker;
  wal = if cut then (truncate_wal s.wal).1 else s.wal;
}

flush_some :
    (how : Accounting) (cut : Bool) (id : Key) (now : ℕ) (s : Driver) (m : SegmentMeta) (d : Disk)
    → Memtable.should_flush s.mem ≡ true
    → write_segment s.builder id now s.mem.entries tiered 0 s.disk ≡ (ok (some m), d)
    → flush_full how cut id now s ≡ running (flushed how cut m d s)
unfolding flush_full
flush_some how cut id now s m d full wrote = rw (full, flush-eq s.mem, wrote) refl

-- What a flush at `now`, where there is one, makes of the order of the segments, of their ranges, of
-- the clock's bound and of the memtable's limit.
pub record Next (now : ℕ) (s u : Driver) : Type 0 where
  pub clock : (n : ℕ) → now < n → ClockMoved now s → ClockMoved n u
  pub limit : u.mem.max_entries ≡ s.mem.max_entries
  pub descending :
      Descending s.tracker s.tracker.ordered
      → ClockMoved now s
      → Descending u.tracker u.tracker.ordered
  pub apart : IsApart s → IsApart u
  pub bounded : (k : Key) → IsBounded k s → IsBounded k u

last_key-All :
    (P : Key → Type 0) (e : KvEntry) (es : List KvEntry)
    → All (λ x. P x.key) (e ∷ es)
    → P (last_key e es)
unfolding last_key
last_key-All P e [] h = h.0
last_key-All P e (x ∷ xs) h = last_key-All P x xs h.1

first_above :
    (t : Tracker) (e : KvEntry) (es : List KvEntry)
    → All (λ x. All (λ q. key_ltb (at t q).max_key x.key ≡ true) t.ordered) (e ∷ es)
    → All (λ q. key_ltb (at t q).max_key e.key ≡ true) t.ordered
first_above t e es h = h.0

-- A flush of a memtable that is not empty.
pub flushed-IsKept :
    (b : Builder) (ws : Writes) (how : Accounting) (cut : Bool) (id : Key) (now : ℕ) (s : Driver)
    (e : KvEntry) (es : List KvEntry)
    → IsKept b ws s
    → s.mem.entries ≡ e ∷ es
    → Memtable.should_flush s.mem ≡ true
    → (u : Driver) × (flush_full how cut id now s ≡ running u) × IsKept b ws u × Next now s u
unfolding find register_segment
flushed-IsKept b ws how cut id now s e es h held_entries full =
    let content = s.disk.segment_file.file.content in
    let plain : All IsPlain (e ∷ es) = rw held_entries at h.plain in
    let sorted : IsSorted (e ∷ es) = rw held_entries at h.sorted in
    let readable = IsReadable-All (e ∷ es) plain in
    let m = segment b id now e es s h.stride sorted readable h.healthy h.held in
    let d = disk' b id now e es s h.stride sorted readable h.healthy h.held in
    let w = wrote b id now e es s h.stride sorted readable h.healthy h.held in
    let whole : write_segment b id now (e ∷ es) tiered 0 s.disk ≡ (ok (some m), d) =
      λ i. (w.1 i, d) in
    let here = new-IsHeld b id now e es s h.stride sorted readable h.healthy h.held in
    let old = old_held b id now e es s h.stride sorted readable h.healthy h.held in
    (
      flushed how cut m d s,
      flush_some how cut id now s m d full (rw (h.builder, held_entries) whole),
      record {
        builder = h.builder;
        stride = h.stride;
        healthy = w.2.healthy;
        sorted = tt;
        plain = tt;
        held = (here.0, old.0);
        answers = λ key.
            flushed_seen b id now e es s h.stride sorted readable h.healthy h.held key
            ∙ rw (seen-visible (e ∷ es) key plain) (
                ap
                  (λ entries.
                    newest b content s.tracker s.tracker.ordered h.held key
                      (visible (find entries key)))
                  (sym held_entries)
                ∙ h.answers key);
      },
      record {
        clock = clock_after b id now e es s h.stride sorted readable h.healthy h.held;
        limit = refl;
        descending = new-Descending b id now e es s h.stride sorted readable h.healthy h.held;
        apart = λ a. record {
          apart =
              new-Apart b id now e es s h.stride sorted readable h.healthy h.held a.apart
                (first_above s.tracker e es (rw held_entries at a.above));
          above = tt;
        };
        bounded = λ k a. record {
          segments =
              new-IsAbove b id now e es s h.stride sorted readable h.healthy h.held k
                (last_key-All (λ x. key_ltb x k ≡ true) e es (rw held_entries at a.entries))
                a.segments;
          entries = tt;
        };
      },
    )

upsert_some :
    (e : KvEntry) (es : List KvEntry) → (x : KvEntry) × (xs : List KvEntry) × (upsert e es ≡ x ∷ xs)
unfolding upsert
upsert_some e [] = (e, [], refl)
upsert_some e (x ∷ xs) = elim (Bool-cases (key_ltb x.key e.key)) [
  | inl below ↦ (x, upsert e xs, rw below refl)
  | inr above ↦ elim (Bool-cases (key_eqb x.key e.key)) [
    | inl same ↦ (e, xs, rw (above, same) refl)
    | inr other ↦ (e, x ∷ xs, rw (above, other) refl)
  ]
]

pub flush_none :
    (how : Accounting) (cut : Bool) (id : Key) (now : ℕ) (s : Driver)
    → Memtable.should_flush s.mem ≡ false
    → flush_full how cut id now s ≡ running s
unfolding flush_full
flush_none how cut id now s room = rw room refl

-- A write to a store does not crash, and makes a store whose latest write it is.
pub write_one-IsKept :
    (b : Builder) (ws : Writes) (how : Accounting) (value_size : ℕ) (key : Key) (val : Bytes)
    (id : Key) (now : ℕ) (s : Driver)
    → IsKept b ws s
    → IsWritable key val
    → (u : Driver) × (write_one how value_size key val id now s ≡ running u)
      × IsKept b ((key, val) ∷ ws) u
      × Next now (before_flush how value_size key val s) u
unfolding write_one Memtable.put Memtable.write_entry
write_one-IsKept b ws how value_size key val id now s h w =
    let s1 = before_flush how value_size key val s in
    let h1 = before_flush-IsKept b ws how value_size key val s h w in
    elim (Bool-cases (Memtable.should_flush s1.mem)) [
      | inr room ↦ (
        s1,
        flush_none how true id now s1 room,
        h1,
        record {
          clock = λ n later moved. All-later s.tracker now n s.tracker.ordered later moved;
          limit = refl;
          descending = λ d _. d;
          apart = λ a. a;
          bounded = λ k a. a;
        },
      )
      | inl full ↦
          let (x, xs, some_entry) = upsert_some (put_entry key val) s.mem.entries in
          let (u, ends, store, next') =
            flushed-IsKept b ((key, val) ∷ ws) how true id now s1 x xs h1
              (put_entries key val s.mem h.sorted ∙ some_entry) full in
          (u, ends, store, next')
    ]
