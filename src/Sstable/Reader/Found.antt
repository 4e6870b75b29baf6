-- ===== src/Sstable/Reader/Found.antt =====
-- The lookup loop on the bytes of sorted entries.
use amethyst.Base.{
  ℕ, zero, suc, ◌+◌, ◌≤◌, ◌≡◌, refl, Bool, true, false, Option, none, some, List, [], ◌∷◌, ◌++◌,
  Key, Slice, Bytes, if◌then◌else◌, length, All, arith,
}
use amethyst.Types.{KvEntry}
use amethyst.Memtable.Position.{IsSorted}
use amethyst.Memtable.Lookup.{find, find_past}
use amethyst.Sstable.Writer.{entry_header}
use amethyst.Sstable.Reader.{Lookup, parsed, judge, get_loop}
use amethyst.Sstable.Reader.Entry.{IsReadable, encode, reread, tomb_byte, parse_entry-encode}

unfoldable pub encode_all : List KvEntry → Bytes
encode_all [] = []
encode_all (e ∷ es) = encode e ++ encode_all es

-- What a lookup in a segment shows of an entry.
abbrev pub seen : Option KvEntry → Slice × Bool
seen none = (none, false)
seen (some e) = if e.tombstone then (none, false) else (reread e.value, true)

get_loop_step :
    (fuel : ℕ) (target : Key) (n : ℕ) (e : KvEntry) (rest : Bytes)
    → IsReadable e
    → get_loop (suc fuel) target n (encode e ++ rest)
      ≡ judge target
          (n + 1)
          (get_loop fuel target (n + 1))
          (parsed e.key (reread e.value) (tomb_byte e.tombstone) rest)
unfolding get_loop
get_loop_step fuel target n e rest h =
    unfold encode entry_header in (rw (parse_entry-encode e rest h))

-- The loop over sorted entries ends within its fuel, with the answer of `find`, and commits a
-- comparison for each entry that it reads.
pub record IsAnswer (target : Key) (n : ℕ) (es : List KvEntry) (r : Lookup) : Type 0 where
  pub answer : (r.value, r.ok) ≡ seen (find es target)
  pub committed : r.committed ≡ true
  pub comparisons : r.comparisons ≤ n + length es

judge-IsAnswer :
    (target : Key) (n : ℕ) (e : KvEntry) (es : List KvEntry) (next : Bytes → Lookup) (rest : Bytes)
    → IsSorted (e ∷ es)
    → IsAnswer target (n + 1) es (next rest)
    → IsAnswer target n
        (e ∷ es)
        (judge target (n + 1) next (parsed e.key (reread e.value) (tomb_byte e.tombstone) rest))
unfolding judge find
judge-IsAnswer target n e es next rest sorted later =
    ground
      (arith, later.answer, later.committed, later.comparisons, find_past e.key target es sorted.0)

pub get_loop-find :
    (es : List KvEntry) (fuel : ℕ) (target : Key) (n : ℕ)
    → length es ≤ fuel
    → IsSorted es
    → All IsReadable es
    → IsAnswer target n es (get_loop fuel target n (encode_all es))
unfolding encode_all
get_loop-find [] zero target n fit sorted readable =
    unfold get_loop find in record { answer = refl; committed = refl; comparisons = omega arith }
get_loop-find [] (suc fuel) target n fit sorted readable =
    unfold get_loop find in record { answer = refl; committed = refl; comparisons = omega arith }
get_loop-find (e ∷ es) zero target n fit sorted readable = absurd (omega arith)
get_loop-find (e ∷ es) (suc fuel) target n fit sorted readable =
    rw (get_loop_step fuel target n e (encode_all es) readable.0) (
      judge-IsAnswer target n e es (get_loop fuel target (n + 1)) (encode_all es) sorted
        (get_loop-find es fuel target (n + 1) (omega arith) sorted.1 readable.1))
