-- ===== src/Compaction/Executor/Readable.antt =====
-- What is written of a merge, and the reader's limits.
use amethyst.Metadata.{Pointer, Tracker}
use amethyst.Sstable.Reader.Scanned.{kept, over}
use amethyst.SparseIndex.{Builder}
use amethyst.Sstable.Reader.Maps.{Lacks, IsMap}
use amethyst.Types.{KvEntry}
use amethyst.Compaction.Executor.Flags.{AllInput, merged_input}
use amethyst.Memtable.Lookup.{find}
use amethyst.Sstable.Reader.Entry.{IsReadable, reread}
use amethyst.Base.{
  ◌≤◌, length, key_eqb-eq, key_ltb, key_eqb, ◌≡◌, key_eqb_refl, arith, Bool-cases, Bytes, All,
  Slice, List, bytes, Option, Key, [], ◌∷◌, inl, inr, none, some,
}
use amethyst.Compaction.Executor.{insert_key, sort_keys, final_entries}
use amethyst.Sstable.Reader.{ByteMap, map_get}
use amethyst.Compaction.Executor.Merge.{newest, entry_for, Lacks-none}

-- What is held of a key can be written as an entry.
abbrev pub IsFine : Key → Option Slice → Type 0
IsFine j none = Unit
IsFine j (some v) = IsReadable (entry_for j v)

abbrev IsFineEntry : Key → Option KvEntry → Type 0
IsFineEntry j none = Unit
IsFineEntry j (some e) = IsReadable e × (e.key ≡ j)

find-IsFineEntry : (es : List KvEntry) (j : Key) → All IsReadable es → IsFineEntry j (find es j)
unfolding find
find-IsFineEntry [] j h = tt
find-IsFineEntry (e ∷ es) j h = elim (Bool-cases (key_eqb e.key j)) [
  | inl same ↦ rw same (h.0, key_eqb-eq e.key j same)
  | inr other ↦ rw other (find-IsFineEntry es j h.1)
]

length-reread : (v : Slice) → length (bytes (reread v)) ≤ length (bytes v)
unfolding reread
length-reread none = omega arith
length-reread (some []) = omega arith
length-reread (some (x ∷ xs)) = omega arith

length-kept : (e : KvEntry) → length (bytes (kept e)) ≤ length (bytes e.value)
unfolding kept
length-kept e = elim (Bool-cases e.tombstone) [
  | inl dead ↦ rw dead (omega arith)
  | inr alive ↦ rw alive (length-reread e.value)
]

over-IsFine : (o : Option KvEntry) (j : Key) → IsFineEntry j o → IsFine j (over o none)
over-IsFine none j h = tt
over-IsFine (some e) j h = record {
  some_key = rw (← h.1) h.0.some_key;
  key_fits = rw (← h.1) h.0.key_fits;
  value_fits = omega (arith, length-kept e, h.0.value_fits);
}

newest-IsFine :
    (found before : Option Slice) (j : Key)
    → IsFine j found
    → IsFine j before
    → IsFine j (newest found before)
newest-IsFine none before j h k = k
newest-IsFine (some none) before j h k = k
newest-IsFine (some (some v)) before j h k = h

pub merged_input-IsFine :
    (b : Builder) (content : Bytes) (t : Tracker) (ps : List Pointer) (h : AllInput b content t ps)
    (j : Key) (before : Option Slice)
    → IsFine j before
    → IsFine j (merged_input b content t ps h j before)
unfolding merged_input
merged_input-IsFine b content t [] h j before k = k
merged_input-IsFine b content t (p ∷ ps) (i, is) j before k =
    merged_input-IsFine b content t ps is j _ (
      newest-IsFine (over (find (i.first ∷ i.others) j) none) before j
        (over-IsFine (find (i.first ∷ i.others) j) j
          (find-IsFineEntry (i.first ∷ i.others) j i.stored.readable))
        k)

insert_key-All :
    (k : Key) (v : Slice) (m : ByteMap)
    → IsReadable (entry_for k v)
    → All IsReadable (final_entries m)
    → All IsReadable (final_entries (insert_key k v m))
unfolding insert_key final_entries
insert_key-All k v [] h hs = (h, tt)
insert_key-All k v ((x, w) ∷ m) h hs = elim (Bool-cases (key_ltb x k)) [
  | inl before ↦ rw before (hs.0, insert_key-All k v m h hs.1)
  | inr behind ↦ rw behind (h, hs)
]

-- the map behind its first key
rest-IsFine :
    (k : Key) (v : Slice) (m : ByteMap) (j : Key)
    → Lacks k m
    → IsFine j (map_get j ((k, v) ∷ m))
    → IsFine j (map_get j m)
unfolding map_get
rest-IsFine k v m j lacks h = elim (Bool-cases (key_eqb k j)) [
  | inl same ↦ rw (Lacks-none k j m lacks same) tt
  | inr other ↦ rw other at h
]

first-IsFine :
    (k : Key) (v : Slice) (m : ByteMap)
    → IsFine k (map_get k ((k, v) ∷ m))
    → IsReadable (entry_for k v)
unfolding map_get
first-IsFine k v m h = rw (key_eqb_refl k) at h

pub sort_keys-IsReadable :
    (m : ByteMap)
    → IsMap m
    → ((j : Key) → IsFine j (map_get j m))
    → All IsReadable (final_entries (sort_keys m))
unfolding sort_keys
sort_keys-IsReadable [] h fine = unfold final_entries in tt
sort_keys-IsReadable ((k, v) ∷ m) h fine =
    insert_key-All k v (sort_keys m) (first-IsFine k v m (fine k))
      (sort_keys-IsReadable m h.1 (λ j. rest-IsFine k v m j h.0 (fine j)))
