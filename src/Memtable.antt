-- ===== src/Memtable.antt =====
-- amethyst/internal/memtable/memtable.go: the sorted buffer of the latest writes. An operation
-- holds the lock throughout, so it is one step on the state. `maxEntries` is a natural number: zero
-- and the negative values make the same answer.
pub mod Position
pub mod Upsert
pub mod Lookup
pub mod Refinement
pub mod Tests
use amethyst.Base.{
  ℕ, Bool, true, false, ◌&&◌, not, Option, none, some, List, [], ◌∷◌, ◌++◌, Key, Slice, ltb, leb,
  ◌==◌, if◌then◌else◌, length, get_or, set, take, drop, key_leb, key_eqb,
}
use amethyst.Search.{search}
use amethyst.Types.{KvEntry}

pub record Memtable : Type 0 where
  pub entries : List KvEntry
  pub max_entries : ℕ

unfoldable pub new_memtable : ℕ → Memtable
new_memtable max_entries = record { entries = []; max_entries = max_entries }

-- `common.KVEntry{}`
abbrev pub zero_entry : KvEntry
zero_entry = record { key = []; value = none; tombstone = false }

-- the index that `sort.Search` gives for `key`
unfoldable pub position : List KvEntry → Key → ℕ
position entries key = search (length entries) (λ i. key_leb key (get_or entries i zero_entry).key)

-- the test `i < len(m.data) && m.data[i].Key == key`
unfoldable pub holds : List KvEntry → ℕ → Key → Bool
holds entries i key = ltb i (length entries) && key_eqb (get_or entries i zero_entry).key key

-- Overwrites the entry of the key, or makes room by `append` and `copy` and writes it there.
unfoldable pub write_entry : KvEntry → Memtable → Memtable
unfolding holds
write_entry e m =
    let i = position m.entries e.key in
    record m {
      entries =
          if holds m.entries i e.key
          then set m.entries i e
          else take i m.entries ++ (e ∷ drop i m.entries);
    }

unfoldable pub put : Key → Slice → Memtable → Memtable
put key value = write_entry (record { key = key; value = value; tombstone = false })

unfoldable pub delete : Key → Memtable → Memtable
delete key = write_entry (record { key = key; value = none; tombstone = true })

-- The value and whether it was found; a tombstone is not found.
unfoldable pub get : Memtable → Key → Slice × Bool
unfolding holds
get m key =
    let i = position m.entries key in
    if holds m.entries i key && not (get_or m.entries i zero_entry).tombstone
    then ((get_or m.entries i zero_entry).value, true)
    else (none, false)

unfoldable pub should_flush : Memtable → Bool
should_flush m = leb m.max_entries (length m.entries)

-- The sorted entries, `[]` standing for the nil of an empty table, and the emptied table.
unfoldable pub flush : Memtable → List KvEntry × Memtable
flush m = if length m.entries == 0 then ([], m) else (m.entries, record m { entries = [] })
