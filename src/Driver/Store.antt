-- ===== src/Driver/Store.antt =====
-- The driver's store and the writes made to it: the specification is the last value of a key.
use amethyst.Memtable.Refinement.{write_put, step-upsert}
use amethyst.Read.Held.{AllHeld}
use amethyst.Read.Ordered.{Descending}
use amethyst.Sstable.Reader.{max_value_len, max_key_len}
use amethyst.Memtable.Lookup.{visible, find, find-upsert}
use amethyst.Memtable.Position.{IsSorted}
use amethyst.Sstable.RoundTrip.Written.{IsHealthy}
use amethyst.Driver.{set_live, count_entry, Pointer, log_put, at, Tracker, Memtable, Accounting}
use amethyst.Driver.{Driver}
use amethyst.Memtable.Upsert.{upsert-IsSorted, upsert}
use amethyst.SparseIndex.{Builder}
use amethyst.Sstable.Reader.Entry.{IsReadable, reread}
use amethyst.Types.{KvEntry}
use amethyst.Memtable
use amethyst.Read.Newest.{newest}
use amethyst.Base.{
  inr, inl, Bool-cases, key_eqb, if◌then◌else◌, true, ◌≤◌, false, Bool, some, none, length, arith,
  Slice, ◌<◌, Bytes, All, Option, Key, ℕ, ◌≡◌, refl, List, [], ◌∷◌,
}

-- The writes, the latest first.
abbrev pub Writes : Type 0
Writes = List (Key × Bytes)

unfoldable pub last_value : Writes → Key → Option Bytes
last_value [] key = none
last_value ((k, v) ∷ ws) key = if key_eqb k key then some v else last_value ws key

abbrev pub answer : Option Bytes → Slice × Bool
answer none = (none, false)
answer (some v) = (some v, true)

-- An entry that a segment keeps as it is: within the reader's limits, and not with an empty value.
abbrev pub IsPlain : KvEntry → Type 0
IsPlain e = IsReadable e × (reread e.value ≡ e.value)

-- A write within the reader's limits, with a value that is not empty.
pub record IsWritable (key : Key) (val : Bytes) : Type 0 where
  pub some_key : 0 < length key
  pub key_fits : length key ≤ max_key_len
  pub some_value : 0 < length val
  pub value_fits : length val ≤ max_value_len

-- The clock has moved on since the segments were written.
abbrev pub ClockMoved : ℕ → Driver → Type 0
ClockMoved now s = All (λ q. (at s.tracker q).created_at < now) s.tracker.ordered

-- The segment file is healthy, the memtable sorted, the segments are held, and memtable
-- and segments together answer for each key with the last value written.
pub record IsKept (b : Builder) (ws : Writes) (s : Driver) : Type 0 where
  pub builder : s.builder ≡ b
  pub stride : 0 < b.stride
  pub healthy : IsHealthy s.disk.segment_file
  pub sorted : IsSorted s.mem.entries
  pub plain : All IsPlain s.mem.entries
  pub held : AllHeld b s.disk.segment_file.file.content s.tracker s.tracker.ordered
  pub answers :
      (key : Key)
      → newest b s.disk.segment_file.file.content s.tracker s.tracker.ordered held key
          (visible (find s.mem.entries key))
        ≡ answer (last_value ws key)

-- The same, with the segments in the order of their times.
pub record IsStore (b : Builder) (ws : Writes) (s : Driver) : Type 0 where
  pub kept : IsKept b ws s
  pub descending : Descending s.tracker s.tracker.ordered

abbrev pub put_entry : Key → Bytes → KvEntry
put_entry key val = record { key = key; value = some val; tombstone = false }

put_entry-IsPlain : (key : Key) (val : Bytes) → IsWritable key val → IsPlain (put_entry key val)
unfolding reread
put_entry-IsPlain key [] w = absurd (omega (arith, w.some_value))
put_entry-IsPlain key (x ∷ xs) w =
    (record { some_key = w.some_key; key_fits = w.key_fits; value_fits = w.value_fits }, refl)

pub All-upsert :
    (P : KvEntry → Type 0) (e : KvEntry) (es : List KvEntry) → P e → All P es → All P (upsert e es)
unfolding upsert
All-upsert P e [] h hs = (h, tt)
All-upsert P e (x ∷ xs) h hs = ground (arith, All-upsert P e xs h hs.1, hs.0, hs.1, h)

pub put_entries :
    (key : Key) (val : Bytes) (m : Memtable)
    → IsSorted m.entries
    → (Memtable.put key (some val) m).entries ≡ upsert (put_entry key val) m.entries
put_entries key val m s = step-upsert (write_put key (some val)) m s

-- What a write changes before the flush.
abbrev pub before_flush : Accounting → ℕ → Key → Bytes → Driver → Driver
before_flush how value_size key val s = record s {
  wal = (log_put key (some val) s.wal).1;
  mem = Memtable.put key (some val) s.mem;
  counters = count_entry how key val value_size s.counters;
  live_keys = set_live key (length val) s.live_keys;
}

newest_put :
    (b : Builder) (content : Bytes) (t : Tracker) (ps : List Pointer)
    (held : AllHeld b content t ps) (key k : Key) (val : Bytes) (before : Option KvEntry)
    (ws : Writes)
    → newest b content t ps held k (visible before) ≡ answer (last_value ws k)
    → newest b content t ps held k
        (visible (if key_eqb key k then some (put_entry key val) else before))
      ≡ answer (last_value ((key, val) ∷ ws) k)
unfolding last_value
newest_put b content t ps held key k val before ws h = elim (Bool-cases (key_eqb key k)) [
  | inl same ↦ rw same refl
  | inr other ↦ rw other h
]

pub before_flush-IsKept :
    (b : Builder) (ws : Writes) (how : Accounting) (value_size : ℕ) (key : Key) (val : Bytes)
    (s : Driver)
    → IsKept b ws s
    → IsWritable key val
    → IsKept b ((key, val) ∷ ws) (before_flush how value_size key val s)
before_flush-IsKept b ws how value_size key val s h w =
    let e = put_entry key val in
    let put_here = put_entries key val s.mem h.sorted in
    record {
      builder = h.builder;
      stride = h.stride;
      healthy = h.healthy;
      sorted = rw put_here (upsert-IsSorted e s.mem.entries h.sorted);
      plain =
          rw put_here (All-upsert IsPlain e s.mem.entries (put_entry-IsPlain key val w) h.plain);
      held = h.held;
      answers = λ k.
          rw (put_here, find-upsert e s.mem.entries k)
            (newest_put b s.disk.segment_file.file.content s.tracker s.tracker.ordered h.held key k
              val (find s.mem.entries k) ws (h.answers k));
    }
