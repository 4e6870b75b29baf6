-- ===== src/Memtable/Tests.antt =====
-- The memtable's theorems at concrete tables.
use amethyst.Base.{◌≡◌, refl, true, false, some, none, List, [], ◌∷◌, key_ltb, key_eqb}
use amethyst.Memtable.{Memtable, new_memtable, get, should_flush, flush}
use amethyst.Memtable.Position.{IsSorted}
use amethyst.Memtable.Lookup.{find, visible}
use amethyst.Memtable.Refinement.{Write, write_put, write_delete, run, latest, get-run, flush_lem}

-- two keys in descending order, an overwrite, and a deletion
abbrev writes : List Write
writes =
    write_put (5 ∷ []) (some (1 ∷ []))
    ∷ write_put (3 ∷ []) (some (2 ∷ []))
    ∷ write_put (5 ∷ []) (some (7 ∷ []))
    ∷ write_delete (3 ∷ [])
    ∷ []

get-run_example : get (run writes (new_memtable 2)) (5 ∷ []) ≡ (some (7 ∷ []), true)
unfolding latest key_eqb
get-run_example = get-run writes 2 (5 ∷ [])

abbrev table : Memtable
table = record {
  entries =
      record { key = 3 ∷ []; value = none; tombstone = true }
      ∷ record { key = 5 ∷ []; value = some (7 ∷ []); tombstone = false }
      ∷ [];
  max_entries = 2;
}

flush_lem_example :
    IsSorted (flush table).0
    × (get table (5 ∷ []) ≡ visible (find (flush table).0 (5 ∷ [])))
    × (get (flush table).1 (5 ∷ []) ≡ (none, false))
    × (should_flush (flush table).1 ≡ false)
unfolding key_ltb
flush_lem_example = flush_lem table (5 ∷ []) ((refl, tt), (tt, tt))
