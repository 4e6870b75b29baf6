-- ===== src/Sstable/RoundTrip/Rescanned.antt =====
-- A stored segment, scanned.
use amethyst.Base.{
  ◌+◌, ◌-◌, ◌≤◌, ◌<◌, ◌≡◌, ◌∙◌, ap, false, none, some, List, [], ◌∷◌, ◌++◌, Key, Bytes, le→ltb,
  ◌==◌, length, arith, length-append,
}
use amethyst.File.{ok}
use amethyst.Types.{KvEntry, SegmentMeta}
use amethyst.SparseIndex.{Builder}
use amethyst.SegmentFile.{SegmentFile, get_mmap_data}
use amethyst.SegmentFile.Window.{get_mmap_data-Shows}
use amethyst.Memtable.Lookup.{find}
use amethyst.Sstable.Reader.{
  ByteMap, map_get, slice, scan_loop, scan_copy, scan_in, scan, max_scan_len,
}
use amethyst.Sstable.Reader.Found.{encode_all}
use amethyst.Sstable.Reader.Scanned.{over, scan_loop-find, scan_loop-IsMap}
use amethyst.Sstable.Reader.Maps.{IsMap}
use amethyst.Sstable.Reader.Window.{slice_middle}
use amethyst.Sstable.RoundTrip.Stored.{IsStored, length-encode_all}
use amethyst.Sstable.RoundTrip.Written.{IsHealthy}

-- Behind both calls of `GetMmapData`, where the tests pass.
scan-scan_loop :
    (m : SegmentMeta) (s s1 s2 : SegmentFile) (content d : Bytes)
    → m.obsolete ≡ false
    → 0 < m.length
    → m.offset + m.length ≤ length content
    → m.offset + m.data_start_offset ≤ m.offset + m.sparse_index_offset
    → m.offset + m.sparse_index_offset ≤ m.offset + m.length
    → m.sparse_index_offset ≤ m.data_start_offset + max_scan_len
    → get_mmap_data s ≡ (ok content, s1)
    → get_mmap_data s1 ≡ (ok content, s2)
    → slice content (m.offset + m.data_start_offset) (m.offset + m.sparse_index_offset) ≡ d
    → scan (some m) s ≡ (scan_loop (length d) [] d, s2)
unfolding scan scan_in scan_copy
scan-scan_loop m s s1 s2 content d live size fits up inside small first second same =
    let some_bytes : (m.length == 0) ≡ false = ground arith in
    let start = m.offset + m.data_start_offset in
    let stop = m.offset + m.sparse_index_offset in
    rw (
      live,
      some_bytes,
      first,
      le→ltb (length content) (m.offset + m.length) fits,
      le→ltb (length content) stop (omega arith),
      le→ltb stop start up,
      le→ltb start m.offset (omega arith),
      le→ltb (m.offset + m.length) stop inside,
      le→ltb max_scan_len (stop - start) (omega arith),
      second,
      le→ltb (length content) (length content) (omega arith),
      le→ltb (length content) stop (omega arith),
      same,
    )

-- One call of `GetMmapData` on a healthy file.
pub record IsMapped (s : SegmentFile) : Type 0 where
  pub shown : get_mmap_data s ≡ (ok s.file.content, (get_mmap_data s).1)
  pub same_file : (get_mmap_data s).1.file ≡ s.file
  pub healthy : IsHealthy (get_mmap_data s).1

pub get_mmap_data-IsMapped : (s : SegmentFile) → IsHealthy s → IsMapped s
get_mmap_data-IsMapped s h =
    let w = get_mmap_data-Shows s h.outcomes h.window in
    record {
      shown = λ i. (w.all_bytes i, (get_mmap_data s).1);
      same_file = w.same_file;
      healthy = record { outcomes = rw w.same_file h.outcomes; window = w.window };
    }

entries_slice :
    (b : Builder) (m : SegmentMeta) (e : KvEntry) (es : List KvEntry) (content : Bytes)
    → IsStored b m e es content
    → slice content (m.offset + m.data_start_offset) (m.offset + m.sparse_index_offset)
      ≡ encode_all (e ∷ es)
entries_slice b m e es content h =
    let long = length-append {0} h.before h.head in
    ap (λ c. slice c (m.offset + m.data_start_offset) (m.offset + m.sparse_index_offset))
      h.content_parts
    ∙ slice_middle (h.before ++ h.head) (encode_all (e ∷ es)) h.behind _ _
        (omega (arith, h.offset, h.data_start, long))
        (omega (arith, h.offset, h.sparse_start, long))

-- A stored segment that is not obsolete and whose entries take 500 MB at most is scanned, on a healthy
-- file, into a map that holds its entries, with nil for a tombstone and for an empty value, and no
-- other key, none of them twice; the file stays as it is and healthy.
pub scan-IsStored :
    (b : Builder) (m : SegmentMeta) (e : KvEntry) (es : List KvEntry) (s : SegmentFile)
    → IsStored b m e es s.file.content
    → m.obsolete ≡ false
    → length (encode_all (e ∷ es)) ≤ max_scan_len
    → IsHealthy s
    → (found : ByteMap) × (s' : SegmentFile) × (scan (some m) s ≡ (ok found, s'))
      × ((j : Key) → map_get j found ≡ over (find (e ∷ es) j) none)
      × IsMap found
      × (s'.file ≡ s.file)
      × IsHealthy s'
unfolding map_get
scan-IsStored b m e es s h live small healthy =
    let first = get_mmap_data-IsMapped s healthy in
    let s1 = (get_mmap_data s).1 in
    let second = get_mmap_data-IsMapped s1 first.healthy in
    let s2 = (get_mmap_data s1).1 in
    let content = s.file.content in
    let again : get_mmap_data s1 ≡ (ok content, s2) =
      second.shown ∙ ap (λ f. (ok f.content, s2)) first.same_file in
    let some_bytes = length-encode_all (e ∷ es) in
    let (found, ends, holds) =
      scan_loop-find (e ∷ es) (length (encode_all (e ∷ es))) [] some_bytes h.sorted h.readable in
    (
      found,
      s2,
      scan-scan_loop m s s1 s2 content (encode_all (e ∷ es)) live
            (omega (arith, h.size, some_bytes)) (omega (arith, h.offset, h.fits))
            (omega (arith, h.data_start, h.sparse_start)) (omega (arith, h.sparse_start, h.size))
            (omega (arith, h.data_start, h.sparse_start)) first.shown again
            (entries_slice b m e es content h)
          ∙ ap (λ r. (r, s2)) ends,
      holds,
      scan_loop-IsMap (length (encode_all (e ∷ es))) [] (encode_all (e ∷ es)) found tt ends,
      second.same_file ∙ first.same_file,
      second.healthy,
    )
