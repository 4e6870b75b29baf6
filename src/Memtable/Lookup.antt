-- ===== src/Memtable/Lookup.antt =====
-- The memtable as a map from keys to their latest entries.
use amethyst.Base.{
  ℕ, ◌≡◌, refl, Bool, true, false, not, ◌&&◌, Option, none, some, List, [], ◌∷◌, Key, Slice, ltb,
  if◌then◌else◌, length, get_or, arith, key_ltb, key_eqb, key_eqb-eq, key_eqb_refl, key_ltb-ne,
  key_ltb_irrefl, key_eqb_comm, key_ltb_of_ne, key_ltb_trans, ap,
}
use amethyst.Types.{KvEntry}
use amethyst.Memtable.{Memtable, zero_entry, get}
use amethyst.Memtable.Position.{Above, IsSorted, rank, position-rank}
use amethyst.Memtable.Upsert.{upsert}

-- the first entry of the key
unfoldable pub find : List KvEntry → Key → Option KvEntry
find [] key = none
find (e ∷ es) key = if key_eqb e.key key then some e else find es key

-- What a reader sees of an entry: a tombstone looks like no entry.
abbrev pub visible : Option KvEntry → Slice × Bool
visible none = (none, false)
visible (some e) = if e.tombstone then (none, false) else (e.value, true)

pub find-Above : (key : Key) (es : List KvEntry) → Above key es → find es key ≡ none
unfolding find
find-Above key [] a = refl
find-Above key (e ∷ es) a =
    ground (arith, find-Above key es a.1, key_ltb-ne key e.key, key_eqb_comm e.key key)

pub find_past :
    (k key : Key) (es : List KvEntry) → Above k es → key_ltb key k ≡ true → find es key ≡ none
unfolding find
find_past k key [] a h = refl
find_past k key (e ∷ es) a h = ground (
  arith,
  find_past k key es a.1 h,
  key_ltb_trans key k e.key,
  key_ltb-ne key e.key,
  key_eqb_comm e.key key,
)

pub find-upsert :
    (e : KvEntry) (es : List KvEntry) (key : Key)
    → find (upsert e es) key ≡ (if key_eqb e.key key then some e else find es key)
unfolding find upsert
find-upsert e [] key = refl
find-upsert e (x ∷ xs) key = ground (
  arith,
  find-upsert e xs key,
  key_eqb-eq x.key key,
  key_eqb-eq e.key key,
  key_eqb-eq x.key e.key,
  key_eqb_refl key,
  key_ltb_irrefl key,
  ap (key_ltb x.key),
)

-- what `get` reads at an index
abbrev get_at : List KvEntry → ℕ → Key → Slice × Bool
get_at es i key =
    if ltb i (length es)
      && key_eqb (get_or es i zero_entry).key key
      && not (get_or es i zero_entry).tombstone
    then ((get_or es i zero_entry).value, true)
    else (none, false)

get_at-rank :
    (es : List KvEntry) (key : Key)
    → IsSorted es
    → get_at es (rank es key) key ≡ visible (find es key)
unfolding rank find
get_at-rank [] key s = refl
get_at-rank (e ∷ es) key s = ground (
  arith,
  get_at-rank es key s.1,
  key_ltb-ne e.key key,
  key_ltb_of_ne e.key key,
  find_past e.key key es s.0,
)

pub get-find :
    (m : Memtable) (key : Key) → IsSorted m.entries → get m key ≡ visible (find m.entries key)
unfolding get
get-find m key s = rw (position-rank m.entries key s) (get_at-rank m.entries key s)
