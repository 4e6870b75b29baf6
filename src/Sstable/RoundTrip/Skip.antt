-- ===== src/Sstable/RoundTrip/Skip.antt =====
-- Entries outside the searched part do not matter on sorted entries.
use amethyst.Base.{
  ℕ, zero, suc, ◌<◌, ◌≡◌, refl, ◌∙◌, true, false, none, List, [], ◌∷◌, Key, length, get_or, drop,
  All, arith, key_ltb, key_ltb_trans, key_ltb-ne, key_lt_of_lt_of_le, key_eqb_comm,
}
use amethyst.Types.{KvEntry}
use amethyst.Memtable.Position.{Above, IsSorted}
use amethyst.Memtable.Lookup.{find, find_past}
use amethyst.Sstable.Writer.{last_key}
use amethyst.Sstable.Reader.Window.{keys_of}

pub drop-IsSorted : (i : ℕ) (es : List KvEntry) → IsSorted es → IsSorted (drop i es)
drop-IsSorted zero es s = s
drop-IsSorted (suc i) [] s = tt
drop-IsSorted (suc i) (e ∷ es) s = drop-IsSorted i es s.1

pub drop-All {κ} : (P : KvEntry → Type κ) (i : ℕ) (es : List KvEntry) → All P es → All P (drop i es)
drop-All P zero es h = h
drop-All P (suc i) [] h = h
drop-All P (suc i) (e ∷ es) h = drop-All P i es h.1

Above-key_at :
    (key : Key) (es : List KvEntry) (i : ℕ)
    → i < length es
    → Above key es
    → key_ltb key (get_or (keys_of es) i []) ≡ true
unfolding keys_of
Above-key_at key [] i h a = absurd (omega arith)
Above-key_at key (e ∷ es) zero h a = a.0
Above-key_at key (e ∷ es) (suc i) h a = Above-key_at key es i (omega arith) a.1

-- The entries in front of one whose key is at most the target can be left out.
pub find-drop :
    (es : List KvEntry) (i : ℕ) (target : Key)
    → IsSorted es
    → i < length es
    → key_ltb target (get_or (keys_of es) i []) ≡ false
    → find (drop i es) target ≡ find es target
unfolding find keys_of
find-drop [] i target s h k = absurd (omega arith)
find-drop (e ∷ es) zero target s h k = refl
find-drop (e ∷ es) (suc i) target s h k =
    let below =
      key_lt_of_lt_of_le e.key (get_or (keys_of es) i []) target
        (Above-key_at e.key es i (omega arith) s.0) k in
    rw (key_ltb-ne e.key target below) (find-drop es i target s.1 (omega arith) k)

pub find_below :
    (e : KvEntry) (es : List KvEntry) (target : Key)
    → IsSorted (e ∷ es)
    → key_ltb target e.key ≡ true
    → find (e ∷ es) target ≡ none
unfolding find
find_below e es target s h =
    let differ = key_eqb_comm e.key target ∙ key_ltb-ne target e.key h in
    rw differ (find_past e.key target es s.0 h)

first_below :
    (e : KvEntry) (es : List KvEntry) (target : Key)
    → IsSorted (e ∷ es)
    → key_ltb (last_key e es) target ≡ true
    → key_ltb e.key target ≡ true
unfolding last_key
first_below e [] target s h = h
first_below e (x ∷ xs) target s h =
    key_ltb_trans e.key x.key target s.0.0 (first_below x xs target s.1 h)

pub find_above :
    (e : KvEntry) (es : List KvEntry) (target : Key)
    → IsSorted (e ∷ es)
    → key_ltb (last_key e es) target ≡ true
    → find (e ∷ es) target ≡ none
unfolding find last_key
find_above e [] target s h = rw (key_ltb-ne e.key target h)
find_above e (x ∷ xs) target s h =
    rw (key_ltb-ne e.key target (first_below e (x ∷ xs) target s h)) (find_above x xs target s.1 h)
