-- ===== src/Memtable/Position.antt =====
-- The index that the binary search finds, on sorted entries.
use amethyst.Base.{
  ℕ, zero, suc, ◌-◌, ◌≤◌, ◌<◌, ◌≡◌, true, false, List, [], ◌∷◌, Key, if◌then◌else◌, length, get_or,
  All, arith, key_leb, key_ltb, key_ltb_trans,
}
use amethyst.Search.Boundary.{IsBoundary, search-IsBoundary}
use amethyst.Types.{KvEntry}
use amethyst.Memtable.{zero_entry, position}

abbrev pub Above : Key → List KvEntry → Type 0
Above key = All (λ e. key_ltb key e.key ≡ true)

-- The keys are strictly ascending.
abbrev pub IsSorted : List KvEntry → Type 0
IsSorted [] = Unit
IsSorted (e ∷ es) = Above e.key es × IsSorted es

pub Above-trans : (j k : Key) (es : List KvEntry) → key_ltb j k ≡ true → Above k es → Above j es
Above-trans j k [] h a = tt
Above-trans j k (e ∷ es) h a = (key_ltb_trans j k e.key h a.0, Above-trans j k es h a.1)

-- how many entries stand before the key
unfoldable pub rank : List KvEntry → Key → ℕ
rank [] key = 0
rank (e ∷ es) key = if key_ltb e.key key then suc (rank es key) else 0

rank-le : (es : List KvEntry) (key : Key) → rank es key ≤ length es
unfolding rank
rank-le [] key = omega arith
rank-le (e ∷ es) key = ground (arith, rank-le es key)

below_rank :
    (es : List KvEntry) (key : Key) (i : ℕ)
    → i < rank es key
    → key_ltb (get_or es i zero_entry).key key ≡ true
unfolding rank
below_rank [] key i h = absurd (omega arith)
below_rank (e ∷ es) key zero h = ground arith
below_rank (e ∷ es) key (suc i) h = ground (arith, below_rank es key i)

Above-get_or :
    (key : Key) (es : List KvEntry) (i : ℕ)
    → i < length es
    → Above key es
    → key_ltb key (get_or es i zero_entry).key ≡ true
Above-get_or key [] i h a = absurd (omega arith)
Above-get_or key (e ∷ es) zero h a = a.0
Above-get_or key (e ∷ es) (suc i) h a = Above-get_or key es i (omega arith) a.1

Above-not_lt :
    (key : Key) (es : List KvEntry) (i : ℕ) (j : Key)
    → i < length es
    → Above j es
    → key_ltb j key ≡ false
    → key_ltb (get_or es i zero_entry).key key ≡ false
Above-not_lt key es i j h a k =
    ground (arith, Above-get_or j es i h a, key_ltb_trans j (get_or es i zero_entry).key key)

from_rank :
    (es : List KvEntry) (key : Key) (i : ℕ)
    → IsSorted es
    → rank es key ≤ i
    → i < length es
    → key_ltb (get_or es i zero_entry).key key ≡ false
unfolding rank
from_rank [] key i s h k = absurd (omega arith)
from_rank (e ∷ es) key zero s h k = ground arith
from_rank (e ∷ es) key (suc i) s h k =
    ground (arith, from_rank es key i s.1, Above-not_lt key es i e.key (omega arith) s.0)

boundary-rank :
    (es : List KvEntry) (key : Key) (r : ℕ)
    → IsSorted es
    → IsBoundary (λ i. key_leb key (get_or es i zero_entry).key) (length es) r
    → r ≡ rank es key
boundary-rank es key r s b =
    ground (
      arith,
      b.bound,
      b.low,
      b.high,
      rank-le es key,
      below_rank es key r,
      from_rank es key (r - 1) s,
    )

pub position-rank : (es : List KvEntry) (key : Key) → IsSorted es → position es key ≡ rank es key
unfolding position
position-rank es key s = boundary-rank es key _ s (search-IsBoundary (length es) _)
