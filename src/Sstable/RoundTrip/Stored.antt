-- ===== src/Sstable/RoundTrip/Stored.antt =====
-- A segment whose bytes stand in the file, and the lookup in it.

use amethyst.Base.{
  ℕ, ◌+◌, ◌*◌, ◌≤◌, ◌<◌, ◌≡◌, inl, inr, refl, ◌∙◌, ap, sym, Bool, true, false, ◌||◌, some, List, [],
  ◌∷◌, ◌++◌, append_assoc, Key, Bytes, le→ltb, ◌==◌, length, drop, All, arith, length-append,
  key_ltb, Bool-cases,
}
use amethyst.File.{ok}
use amethyst.Types.{KvEntry, SegmentMeta}
use amethyst.SparseIndex.{SparseIndex, Builder, build, seek}
use amethyst.SparseIndex.Floor.{seek-IsFloor}
use amethyst.SegmentFile.{SegmentFile, get_mmap_data}
use amethyst.SegmentFile.Window.{IsWindow, get_mmap_data-Shows}
use amethyst.Memtable.Position.{IsSorted}
use amethyst.Memtable.Lookup.{find}
use amethyst.Sstable.Writer.{last_key, entry_header}
use amethyst.Sstable.Reader.{not_found, get_loop, slice, get_in, get_indexed, look_up}
use amethyst.Sstable.Reader.Entry.{IsReadable, encode}
use amethyst.Sstable.Reader.Found.{encode_all, seen, IsAnswer, get_loop-find}
use amethyst.Sstable.Reader.Window.{
  keys_of, offsets_from, length-keys_of, length-offsets_from, slice_middle, encode_all-drop,
}
use amethyst.Sstable.RoundTrip.Skip.{drop-IsSorted, drop-All, find-drop, find_below, find_above}

-- The metadata `m` describes the entries, and their bytes stand in the file's content.
pub record IsStored (b : Builder) (m : SegmentMeta) (e : KvEntry) (es : List KvEntry)
    (content : Bytes) : Type 0 where
  pub before : Bytes
  pub head : Bytes
  pub behind : Bytes
  pub content_parts : content ≡ (before ++ head) ++ (encode_all (e ∷ es) ++ behind)
  pub offset : m.offset ≡ length before
  pub fits : length before + m.length ≤ length content
  pub size : length head + length (encode_all (e ∷ es)) ≤ m.length
  pub data_start : m.data_start_offset ≡ length head
  pub sparse_start : m.sparse_index_offset ≡ length head + length (encode_all (e ∷ es))
  pub sparse : m.sparse_index ≡ some (build b (keys_of (e ∷ es)) (offsets_from 0 (e ∷ es)))
  pub min_key : m.min_key ≡ e.key
  pub max_key : m.max_key ≡ last_key e es
  pub stride : 0 < b.stride
  pub sorted : IsSorted (e ∷ es)
  pub readable : All IsReadable (e ∷ es)

-- What stands from the offset that Seek gives up to the end of the entries: entries that have all
-- that the target needs.
pub record IsTail (es : List KvEntry) (target : Key) (o : ℕ) : Type 0 where
  pub front : Bytes
  pub entries : List KvEntry
  pub split : encode_all es ≡ front ++ encode_all entries
  pub at : o ≡ length front
  pub same : find entries target ≡ find es target
  pub sorted : IsSorted entries
  pub readable : All IsReadable entries

seek-IsTail :
    (b : Builder) (es : List KvEntry) (target : Key)
    → 0 < b.stride
    → IsSorted es
    → All IsReadable es
    → IsTail es target (seek (build b (keys_of es) (offsets_from 0 es)) target).0
seek-IsTail b es target pos sorted readable =
    elim (seek-IsFloor b (keys_of es) (offsets_from 0 es) target pos
      (length-keys_of es ∙ sym (length-offsets_from es 0))) [
        | inl (start, _) ↦ record {
          front = [];
          entries = es;
          split = refl;
          at = start;
          same = refl;
          sorted = sorted;
          readable = readable;
        }
        | inr (p, f) ↦
            let i = p * b.stride in
            let bound : i < length es = rw length-keys_of at f.bound in
            let (front, split, at) = encode_all-drop es i 0 bound in
            record {
              front = front;
              entries = drop i es;
              split = split;
              at = f.offset ∙ at ∙ omega arith;
              same = find-drop es i target sorted bound f.key_le;
              sorted = drop-IsSorted i es sorted;
              readable = drop-All IsReadable i es readable;
            }
      ]

-- The bounds that `Get` computes from the metadata.
abbrev start_of : SegmentMeta → ℕ → ℕ
start_of m o = m.offset + m.data_start_offset + o

abbrev stop_of : SegmentMeta → ℕ
stop_of m = m.offset + m.sparse_index_offset

-- Where the tests pass, `Get` loops over the bytes between the bounds.
get_in-get_loop :
    (m : SegmentMeta) (idx : SparseIndex) (target : Key) (content d : Bytes)
    → 0 < m.length
    → m.offset + m.length ≤ length content
    → start_of m (seek idx target).0 ≤ stop_of m
    → stop_of m ≤ m.offset + m.length
    → slice content (start_of m (seek idx target).0) (stop_of m) ≡ d
    → get_in m idx target (ok content) ≡ get_loop (length d) target (seek idx target).1 d
unfolding get_in
get_in-get_loop m idx target content d size fits up inside same =
    let some_bytes : (m.length == 0) ≡ false = ground arith in
    rw (
      some_bytes,
      le→ltb (length content) (m.offset + m.length) fits,
      le→ltb (length content) (stop_of m) (omega arith),
      le→ltb (stop_of m) (start_of m (seek idx target).0) up,
      le→ltb (start_of m (seek idx target).0) m.offset (omega arith),
      le→ltb (m.offset + m.length) (stop_of m) inside,
      same,
    )

length-encode_pos : (e : KvEntry) → 0 < length (encode e)
unfolding encode entry_header
length-encode_pos e = omega arith

pub length-encode_all : (es : List KvEntry) → length es ≤ length (encode_all es)
unfolding encode_all
length-encode_all [] = omega arith
length-encode_all (e ∷ es) =
    omega (
      arith,
      length-encode_all es,
      length-encode_pos e,
      length-append {0} (encode e) (encode_all es),
    )

module _ (b : Builder) (m : SegmentMeta) (e : KvEntry) (es : List KvEntry) (content : Bytes)
    (stored : IsStored b m e es content) (target : Key) where
  abbrev index : SparseIndex
  index = build b (keys_of (e ∷ es)) (offsets_from 0 (e ∷ es))

  tail : IsTail (e ∷ es) target (seek index target).0
  tail = seek-IsTail b (e ∷ es) target stored.stride stored.sorted stored.readable

  length-tail :
      length (encode_all (e ∷ es)) ≡ (seek index target).0 + length (encode_all tail.entries)
  length-tail = ap length tail.split ∙ length-append tail.front _ ∙ omega (arith, tail.at)

  tail_slice :
      slice content (start_of m (seek index target).0) (stop_of m) ≡ encode_all tail.entries
  tail_slice =
      let pre = (stored.before ++ stored.head) ++ tail.front in
      let parts : content ≡ pre ++ (encode_all tail.entries ++ stored.behind) =
        stored.content_parts ∙ rw tail.split (simp append_assoc) in
      let long : length pre ≡ length stored.before + length stored.head + length tail.front =
        omega (
          arith,
          length-append {0} (stored.before ++ stored.head) tail.front,
          length-append {0} stored.before stored.head,
        ) in
      let start_at : start_of m (seek index target).0 ≡ length pre =
        omega (arith, stored.offset, stored.data_start, tail.at, long) in
      let stop_at : stop_of m ≡ length pre + length (encode_all tail.entries) =
        omega (arith, stored.offset, stored.sparse_start, tail.at, long, length-tail) in
      ap (λ c. slice c (start_of m (seek index target).0) (stop_of m)) parts
      ∙ slice_middle pre (encode_all tail.entries) stored.behind _ _ start_at stop_at

  get_in-IsAnswer :
      IsAnswer target (seek index target).1 tail.entries (get_in m index target (ok content))
  get_in-IsAnswer =
      let some_bytes = length-encode_all (e ∷ es) in
      let loop =
        get_in-get_loop m index target content (encode_all tail.entries)
          (omega (arith, stored.size, some_bytes)) (omega (arith, stored.offset, stored.fits))
          (omega (arith, stored.data_start, stored.sparse_start, length-tail))
          (omega (arith, stored.sparse_start, stored.size)) tail_slice in
      rw loop (
        get_loop-find tail.entries (length (encode_all tail.entries)) target (seek index target).1
          (length-encode_all tail.entries) tail.sorted tail.readable)

-- the lookup, by what its tests and its index say
look_up_indexed :
    (m : SegmentMeta) (idx : SparseIndex) (target : Key) (s : SegmentFile) (content : Bytes)
    → m.obsolete ≡ false
    → key_ltb target m.min_key ≡ false
    → key_ltb m.max_key target ≡ false
    → m.sparse_index ≡ some idx
    → (get_mmap_data s).0 ≡ ok content
    → (look_up m target s).0 ≡ get_in m idx target (ok content)
unfolding look_up get_indexed
look_up_indexed m idx target s content live low high has shown =
    rw (live, low, high) (rw (has, get_indexed) (rw shown))

look_up_low :
    (m : SegmentMeta) (target : Key) (s : SegmentFile)
    → m.obsolete ≡ false
    → (key_ltb target m.min_key || key_ltb m.max_key target) ≡ true
    → (look_up m target s).0 ≡ not_found 0 false
unfolding look_up
look_up_low m target s live out = rw (live, out)

or_left : (a b : Bool) → a ≡ true → (a || b) ≡ true
or_left a b h = rw h

or_right : (a b : Bool) → a ≡ false → b ≡ true → (a || b) ≡ true
or_right a b h k = rw (h, k)

-- In a stored segment that is not obsolete, read through a window on a file on which no call
-- fails, a lookup returns what the entries say: the value of the key's entry (nil for an empty one)
-- and true, or nil and false where the key has a tombstone or no entry.
pub look_up-IsStored :
    (b : Builder) (m : SegmentMeta) (e : KvEntry) (es : List KvEntry) (s : SegmentFile)
    (target : Key)
    → IsStored b m e es s.file.content
    → m.obsolete ≡ false
    → s.file.outcomes ≡ []
    → IsWindow s
    → ((look_up m target s).0.value, (look_up m target s).0.ok) ≡ seen (find (e ∷ es) target)
look_up-IsStored b m e es s target stored live healthy window =
    elim (Bool-cases (key_ltb target m.min_key)) [
      | inl low ↦
          let out = or_left _ (key_ltb m.max_key target) low in
          let none_there = find_below e es target stored.sorted (rw stored.min_key at low) in
          rw (look_up_low m target s live out, none_there)
      | inr high ↦ elim (Bool-cases (key_ltb m.max_key target)) [
        | inl above ↦
            let out = or_right (key_ltb target m.min_key) _ high above in
            let none_there = find_above e es target stored.sorted (rw stored.max_key at above) in
            rw (look_up_low m target s live out, none_there)
        | inr inside ↦
            let shown = (get_mmap_data-Shows s healthy window).all_bytes in
            let found = get_in-IsAnswer b m e es s.file.content stored target in
            let there = tail b m e es s.file.content stored target in
            rw (look_up_indexed m _ target s s.file.content live high inside stored.sparse shown)
              (found.answer ∙ ap seen there.same)
      ]
    ]
