-- ===== src/Memtable/Refinement.antt =====
-- The memtable implements a map: its specification forgets order and positions.
use amethyst.Base.{
  ℕ, ◌+◌, ◌≤◌, ◌≡◌, refl, true, false, Option, none, some, List, [], ◌∷◌, Key, Slice, if◌then◌else◌,
  length, arith, key_eqb, leb,
}
use amethyst.Types.{KvEntry}
use amethyst.Memtable.{Memtable, new_memtable, write_entry, put, delete, get, should_flush, flush}
use amethyst.Memtable.Position.{IsSorted}
use amethyst.Memtable.Upsert.{upsert, write_entry-upsert, upsert-IsSorted}
use amethyst.Memtable.Lookup.{find, visible, find-upsert, get-find}

-- A write that a client makes between two flushes.
pub data Write : Type 0 where
  write_put : Key → Slice → Write
  write_delete : Key → Write

abbrev pub entry_of : Write → KvEntry
entry_of (write_put key value) = record { key = key; value = value; tombstone = false }
entry_of (write_delete key) = record { key = key; value = none; tombstone = true }

abbrev pub step : Write → Memtable → Memtable
step (write_put key value) m = put key value m
step (write_delete key) m = delete key m

-- The writes in order, the first of the list first.
unfoldable pub run : List Write → Memtable → Memtable
run [] m = m
run (w ∷ ws) m = run ws (step w m)

-- The specification: a key's state after the writes, from its state before them.
unfoldable pub latest : List Write → Key → Option KvEntry → Option KvEntry
latest [] key before = before
latest (w ∷ ws) key before =
    latest ws key (if key_eqb (entry_of w).key key then some (entry_of w) else before)

step-write_entry : (w : Write) (m : Memtable) → step w m ≡ write_entry (entry_of w) m
unfolding put delete
step-write_entry (write_put key value) m = refl
step-write_entry (write_delete key) m = refl

pub step-upsert :
    (w : Write) (m : Memtable)
    → IsSorted m.entries
    → (step w m).entries ≡ upsert (entry_of w) m.entries
step-upsert w m s = rw step-write_entry (write_entry-upsert (entry_of w) m s)

pub step-IsSorted : (w : Write) (m : Memtable) → IsSorted m.entries → IsSorted (step w m).entries
step-IsSorted w m s = rw (step-upsert w m s) (upsert-IsSorted (entry_of w) m.entries s)

pub run-IsSorted :
    (ws : List Write) (m : Memtable) → IsSorted m.entries → IsSorted (run ws m).entries
unfolding run
run-IsSorted [] m s = s
run-IsSorted (w ∷ ws) m s = run-IsSorted ws (step w m) (step-IsSorted w m s)

pub find-run :
    (ws : List Write) (m : Memtable) (key : Key)
    → IsSorted m.entries
    → find (run ws m).entries key ≡ latest ws key (find m.entries key)
unfolding run latest
find-run [] m key s = refl
find-run (w ∷ ws) m key s = rw (
  find-run ws (step w m) key (step-IsSorted w m s),
  step-upsert w m s,
  find-upsert (entry_of w) m.entries key,
)

-- After any sequence of Put and Delete on a new memtable, Get of any key returns the value of the
-- last write to that key if that was a Put, and nil with false if it was a Delete or there is none.
pub get-run :
    (ws : List Write) (max_entries : ℕ) (key : Key)
    → get (run ws (new_memtable max_entries)) key ≡ visible (latest ws key none)
unfolding new_memtable find
get-run ws n key =
    let m : Memtable = record { entries = []; max_entries = n } in
    rw (get-find (run ws m) key (run-IsSorted ws m tt), find-run ws m key tt)

length-upsert : (e : KvEntry) (es : List KvEntry) → length (upsert e es) ≤ length es + 1
unfolding upsert
length-upsert e [] = omega arith
length-upsert e (x ∷ xs) = ground (arith, length-upsert e xs)

flush_entries :
    (es : List KvEntry) (n : ℕ)
    → flush (record { entries = es; max_entries = n })
      ≡ (es, record { entries = []; max_entries = n })
unfolding flush
flush_entries [] n = refl
flush_entries (e ∷ es) n = ground arith

-- The empty table's nil is no special case: Flush hands over all entries and leaves none.
pub flush-eq : (m : Memtable) → flush m ≡ (m.entries, record m { entries = [] })
flush-eq m = flush_entries m.entries m.max_entries

-- The keys that Flush hands over are strictly ascending and answer every Get as the table did;
-- afterwards no key is found, and the table asks for a flush again only when its limit is zero.
pub flush_lem :
    (m : Memtable) (key : Key)
    → IsSorted m.entries
    → IsSorted (flush m).0
      × (get m key ≡ visible (find (flush m).0 key))
      × (get (flush m).1 key ≡ (none, false))
      × (should_flush (flush m).1 ≡ leb m.max_entries 0)
unfolding should_flush find
flush_lem m key s =
    rw (flush-eq m) (s, get-find m key s, get-find (record m { entries = [] }) key tt, refl)
