-- ===== src/Sstable/Reader/Scanned.antt =====
-- The scan loop on the bytes of sorted entries.
use mathlib.Core.Path.{subst}
use amethyst.Base.{
  ℕ, zero, suc, ◌≤◌, ◌≡◌, refl, ◌∙◌, ap, true, Option, none, some, List, [], ◌∷◌, ◌++◌, Key, Slice,
  Bytes, if◌then◌else◌, length, All, arith, key_eqb, key_eqb-eq,
}
use amethyst.File.{Result, ok}
use amethyst.Types.{KvEntry}
use amethyst.Memtable.Position.{IsSorted}
use amethyst.Memtable.Lookup.{find, find-Above}
use amethyst.Sstable.Writer.{entry_header}
use amethyst.Sstable.Reader.{
  ByteMap, Parsed, short, bad_length, map_set, map_get, parsed, parse_entry, collect, scan_loop,
}
use amethyst.Sstable.Reader.Maps.{map_get-map_set, IsMap, map_set-IsMap}
use amethyst.Sstable.Reader.Entry.{IsReadable, encode, reread, parse_entry-encode}
use amethyst.Sstable.Reader.Found.{encode_all}

-- The slice that a scan keeps for an entry: nil for a tombstone, and for an empty value too.
unfoldable pub kept : KvEntry → Slice
kept e = if e.tombstone then none else reread e.value

-- The map, where the entries are put over it.
abbrev pub over : Option KvEntry → Option Slice → Option Slice
over none before = before
over (some e) before = some (kept e)

scan_loop_step :
    (fuel : ℕ) (result : ByteMap) (e : KvEntry) (rest : Bytes)
    → IsReadable e
    → scan_loop (suc fuel) result (encode e ++ rest)
      ≡ scan_loop fuel (map_set e.key (kept e) result) rest
unfolding scan_loop kept
scan_loop_step fuel result e rest h =
    unfold encode entry_header in (rw (parse_entry-encode e rest h) (ground arith))

absent :
    (e : KvEntry) (es : List KvEntry) (j : Key)
    → IsSorted (e ∷ es)
    → key_eqb e.key j ≡ true
    → find es j ≡ none
absent e es j sorted h = rw (← key_eqb-eq e.key j h) (find-Above e.key es sorted.0)

-- A key of the first entry is in none of the others.
over_first :
    (e : KvEntry) (es : List KvEntry) (j : Key) (before : Option Slice)
    → IsSorted (e ∷ es)
    → over (find es j) (if key_eqb e.key j then some (kept e) else before)
      ≡ over (find (e ∷ es) j) before
unfolding find
over_first e es j before sorted = ground (arith, absent e es j sorted)

-- The loop ends within its fuel, and the map holds the entries over what it held before.
pub scan_loop-find :
    (es : List KvEntry) (fuel : ℕ) (result : ByteMap)
    → length es ≤ fuel
    → IsSorted es
    → All IsReadable es
    → (m : ByteMap) × (scan_loop fuel result (encode_all es) ≡ ok m)
      × ((j : Key) → map_get j m ≡ over (find es j) (map_get j result))
unfolding encode_all find
scan_loop-find [] zero result fit sorted readable = (result, unfold scan_loop in refl, λ j. refl)
scan_loop-find [] (suc fuel) result fit sorted readable =
    (result, unfold scan_loop in refl, λ j. refl)
scan_loop-find (e ∷ es) zero result fit sorted readable = absurd (omega arith)
scan_loop-find (e ∷ es) (suc fuel) result fit sorted readable =
    let (m, ends, holds) =
      scan_loop-find es fuel (map_set e.key (kept e) result) (omega arith) sorted.1 readable.1 in
    (
      m,
      scan_loop_step fuel result e (encode_all es) readable.0 ∙ ends,
      λ j.
          holds j
          ∙ ap (over (find es j)) (map_get-map_set j e.key (kept e) result)
          ∙ over_first e es j (map_get j result) sorted,
    )

ok-injective : {a b : ByteMap} → ok a ≡ ok b → a ≡ b
ok-injective e = cc

collect-IsMap :
    (next : ByteMap → Bytes → Result ByteMap) (result : ByteMap) (p : Parsed) (m : ByteMap)
    → ((r : ByteMap) (rest : Bytes) → IsMap r → next r rest ≡ ok m → IsMap m)
    → IsMap result
    → collect next result p ≡ ok m
    → IsMap m
unfolding collect
collect-IsMap next result short m later h e = subst IsMap (ok-injective e) h
collect-IsMap next result bad_length m later h e = cc
collect-IsMap next result (parsed key value tomb rest) m later h e =
    later _ rest (map_set-IsMap key _ result h) e

-- Whatever the bytes, no key stands twice in the map of a scan.
pub scan_loop-IsMap :
    (fuel : ℕ) (result : ByteMap) (data' : Bytes) (m : ByteMap)
    → IsMap result
    → scan_loop fuel result data' ≡ ok m
    → IsMap m
unfolding scan_loop
scan_loop-IsMap zero result [] m h e = subst IsMap (ok-injective e) h
scan_loop-IsMap zero result (x ∷ xs) m h e = subst IsMap (ok-injective e) h
scan_loop-IsMap (suc fuel) result [] m h e = subst IsMap (ok-injective e) h
scan_loop-IsMap (suc fuel) result (x ∷ xs) m h e =
    collect-IsMap (scan_loop fuel) result (parse_entry (x ∷ xs)) m
      (λ r rest h' e'. scan_loop-IsMap fuel r rest m h' e') h e
