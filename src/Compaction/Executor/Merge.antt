-- ===== src/Compaction/Executor/Merge.antt =====
-- What the merge of the scanned maps holds, and the entries that are written.

use mathlib.Core.Bool.{false≢true}
use amethyst.Base.{
  ◌≡◌, refl, ◌∙◌, sym, true, false, Option, none, some, [], ◌∷◌, Key, Slice, if◌then◌else◌, arith,
  key_ltb, key_eqb, key_eqb-eq, key_eqb_refl, key_ltb_of_ne,
}
use amethyst.Types.{KvEntry}
use amethyst.Memtable.Position.{Above, Above-trans, IsSorted}
use amethyst.Memtable.Lookup.{find}
use amethyst.Sstable.Reader.{ByteMap, map_set, map_get}
use amethyst.Sstable.Reader.Maps.{map_get-map_set, Lacks, IsMap, map_set-IsMap}
use amethyst.Compaction.Executor.{merge_into, insert_key, sort_keys, final_entries, is_nil}

map_get-Lacks : (j : Key) (m : ByteMap) → Lacks j m → map_get j m ≡ none
unfolding map_get
map_get-Lacks j [] h = refl
map_get-Lacks j ((k, v) ∷ m) h = ground (arith, map_get-Lacks j m h.1, h.0)

-- What is merged for a key where the scan kept `found` of it.
abbrev pub newest : Option Slice → Option Slice → Option Slice
newest none before = before
newest (some none) before = before
newest (some (some v)) before = some (some v)

pub Lacks-none : (k j : Key) (m : ByteMap) → Lacks k m → key_eqb k j ≡ true → map_get j m ≡ none
Lacks-none k j m h e = rw (← key_eqb-eq k j e) (map_get-Lacks k m h)

-- A scan put into the merged map overwrites the keys that it has a value for, and no other.
pub map_get-merge_into :
    (found merged : ByteMap) (j : Key)
    → IsMap found
    → map_get j (merge_into found merged) ≡ newest (map_get j found) (map_get j merged)
unfolding merge_into map_get
map_get-merge_into [] merged j h = refl
map_get-merge_into ((k, none) ∷ rest) merged j h =
    ground (arith, map_get-merge_into rest merged j h.1, Lacks-none k j rest h.0)
map_get-merge_into ((k, some v) ∷ rest) merged j h = ground (
  arith,
  map_get-merge_into rest (map_set k (some v) merged) j h.1,
  map_get-map_set j k (some v) merged,
  Lacks-none k j rest h.0,
)

pub merge_into-IsMap : (found merged : ByteMap) → IsMap merged → IsMap (merge_into found merged)
unfolding merge_into
merge_into-IsMap [] merged h = h
merge_into-IsMap ((k, none) ∷ rest) merged h = merge_into-IsMap rest merged h
merge_into-IsMap ((k, some v) ∷ rest) merged h =
    merge_into-IsMap rest (map_set k (some v) merged) (map_set-IsMap k (some v) merged h)

-- the entry that is written for a key of the merged map
abbrev pub entry_for : Key → Slice → KvEntry
entry_for key v = record { key = key; value = v; tombstone = is_nil v }

insert_key-Above :
    (i k : Key) (v : Slice) (m : ByteMap)
    → key_ltb i k ≡ true
    → Above i (final_entries m)
    → Above i (final_entries (insert_key k v m))
unfolding insert_key final_entries
insert_key-Above i k v [] h a = (h, tt)
insert_key-Above i k v ((x, w) ∷ m) h a = ground (arith, insert_key-Above i k v m h a.1)

insert_key-IsSorted :
    (k : Key) (v : Slice) (m : ByteMap)
    → Lacks k m
    → IsSorted (final_entries m)
    → IsSorted (final_entries (insert_key k v m))
unfolding insert_key final_entries
insert_key-IsSorted k v [] h s = (tt, tt)
insert_key-IsSorted k v ((x, w) ∷ m) h s = ground (
  arith,
  insert_key-IsSorted k v m h.1 s.1,
  insert_key-Above x k v m,
  key_ltb_of_ne x k,
  Above-trans k x (final_entries m),
)

insert_key-Lacks :
    (j k : Key) (v : Slice) (m : ByteMap)
    → key_eqb k j ≡ false
    → Lacks j m
    → Lacks j (insert_key k v m)
unfolding insert_key
insert_key-Lacks j k v [] d h = (d, tt)
insert_key-Lacks j k v ((x, w) ∷ m) d h = ground (arith, insert_key-Lacks j k v m d h.1)

sort_keys-Lacks : (j : Key) (m : ByteMap) → Lacks j m → Lacks j (sort_keys m)
unfolding sort_keys
sort_keys-Lacks j [] h = tt
sort_keys-Lacks j ((k, v) ∷ m) h =
    insert_key-Lacks j k v (sort_keys m) h.0 (sort_keys-Lacks j m h.1)

-- A key is not equal to two keys that differ.
pub differ : (x k j : Key) → key_eqb x k ≡ false → key_eqb x j ≡ true → key_eqb k j ≡ true → ⊥
differ x k j h a b = false≢true (sym h ∙ rw (key_eqb-eq x j a, ← key_eqb-eq k j b) (key_eqb_refl k))

-- The entries made of a merged map in which no key stands twice have strictly ascending keys, as
-- WriteSegment and the reader need them.
pub sort_keys-IsSorted : (m : ByteMap) → IsMap m → IsSorted (final_entries (sort_keys m))
unfolding sort_keys
sort_keys-IsSorted [] h = unfold final_entries in tt
sort_keys-IsSorted ((k, v) ∷ m) h =
    insert_key-IsSorted k v (sort_keys m) (sort_keys-Lacks k m h.0) (sort_keys-IsSorted m h.1)

find-insert_key :
    (k j : Key) (v : Slice) (m : ByteMap)
    → Lacks k m
    → find (final_entries (insert_key k v m)) j
      ≡ (if key_eqb k j then some (entry_for k v) else find (final_entries m) j)
unfolding insert_key final_entries find
find-insert_key k j v [] h = refl
find-insert_key k j v ((x, w) ∷ m) h = ground (arith, find-insert_key k j v m h.1, differ x k j h.0)

-- What the written entries hold of a key is what the merged map holds of it.
abbrev pub entry_written : Key → Option Slice → Option KvEntry
entry_written key none = none
entry_written key (some v) = some (entry_for key v)

pub find-sort_keys :
    (m : ByteMap) (j : Key)
    → IsMap m
    → find (final_entries (sort_keys m)) j ≡ entry_written j (map_get j m)
unfolding sort_keys map_get
find-sort_keys [] j h = unfold final_entries find in refl
find-sort_keys ((k, v) ∷ m) j h =
    find-insert_key k j v (sort_keys m) (sort_keys-Lacks k m h.0)
    ∙ ground (arith, find-sort_keys m j h.1, key_eqb-eq k j)
