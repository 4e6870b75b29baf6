-- ===== src/Memtable/Upsert.antt =====
-- A write puts its entry in its place among the sorted ones.
use amethyst.Base.{
  ℕ, suc, ◌≡◌, refl, true, ◌&&◌, List, [], ◌∷◌, ◌++◌, Key, ltb, if◌then◌else◌, length, get_or, set,
  take, drop, arith, key_ltb, key_eqb, key_eqb-eq, key_ltb_of_ne,
}
use mathlib.Core.Path.{subst}
use amethyst.Types.{KvEntry}
use amethyst.Memtable.{Memtable, zero_entry, write_entry}
use amethyst.Memtable.Position.{Above, Above-trans, IsSorted, rank, position-rank}

-- The reference: overwrite the entry of the same key, or insert before the first larger key.
unfoldable pub upsert : KvEntry → List KvEntry → List KvEntry
upsert e [] = e ∷ []
upsert e (x ∷ xs) =
    let rest = upsert e xs in
    if key_ltb x.key e.key then x ∷ rest else if key_eqb x.key e.key then e ∷ xs else e ∷ x ∷ xs

-- what `write_entry` does at an index
abbrev write_at : ℕ → KvEntry → List KvEntry → List KvEntry
write_at i e es =
    if ltb i (length es) && key_eqb (get_or es i zero_entry).key e.key
    then set es i e
    else take i es ++ (e ∷ drop i es)

write_at-suc :
    (i : ℕ) (e x : KvEntry) (es : List KvEntry) → write_at (suc i) e (x ∷ es) ≡ x ∷ write_at i e es
write_at-suc i e x es = ground arith

write_at-rank : (e : KvEntry) (es : List KvEntry) → write_at (rank es e.key) e es ≡ upsert e es
unfolding rank upsert
write_at-rank e [] = refl
write_at-rank e (x ∷ xs) = ground (arith, write_at-suc (rank xs e.key) e x xs, write_at-rank e xs)

pub write_entry-upsert :
    (e : KvEntry) (m : Memtable)
    → IsSorted m.entries
    → (write_entry e m).entries ≡ upsert e m.entries
unfolding write_entry
write_entry-upsert e m s = rw (position-rank m.entries e.key s) (write_at-rank e m.entries)

pub Above-upsert :
    (key : Key) (e : KvEntry) (es : List KvEntry)
    → key_ltb key e.key ≡ true
    → Above key es
    → Above key (upsert e es)
unfolding upsert
Above-upsert key e [] h a = (h, tt)
Above-upsert key e (x ∷ xs) h a = ground (arith, Above-upsert key e xs h a.1)

Above-same : (j k : Key) (es : List KvEntry) → key_eqb j k ≡ true → Above j es → Above k es
Above-same j k es h a = subst (λ t. Above t es) (key_eqb-eq j k h) a

-- The entry's key stands above `key` and what `key` is below stays above the entry.
pub upsert-IsSorted : (e : KvEntry) (es : List KvEntry) → IsSorted es → IsSorted (upsert e es)
unfolding upsert
upsert-IsSorted e [] s = (tt, tt)
upsert-IsSorted e (x ∷ xs) s = ground (
  arith,
  upsert-IsSorted e xs s.1,
  Above-upsert x.key e xs,
  Above-trans e.key x.key xs,
  key_ltb_of_ne x.key e.key,
  Above-same x.key e.key xs,
)
