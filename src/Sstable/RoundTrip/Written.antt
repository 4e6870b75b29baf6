-- ===== src/Sstable/RoundTrip/Written.antt =====
-- What `WriteSegment` leaves behind, and lookups after it.
use mathlib.Core.Path.{subst}
use amethyst.Base.{
  none, Bool, ℕ, ◌<◌, ◌≡◌, refl, ◌∙◌, ap, sym, false, Option, some, List, [], ◌∷◌, ◌++◌,
  append_assoc, Key, Bytes, length, All, arith, length-append,
}
use amethyst.File.{err, Result, ok}
use amethyst.Types.{CompactionType, KvEntry, SegmentMeta}
use amethyst.SparseIndex.{Builder}
use amethyst.SegmentFile.{SegmentFile, append}
use amethyst.SegmentFile.Window.{IsWindow, append-Appended}
use amethyst.Memtable.Position.{IsSorted}
use amethyst.Memtable.Lookup.{find}
use amethyst.Sstable.Writer.{
  appended, Disk, WriteCounters, Layout, segment_header, last_key, lay_out, lay_out_from, new_meta,
  write_segment,
}
use amethyst.Sstable.Reader.{look_up}
use amethyst.Sstable.Reader.Entry.{IsReadable}
use amethyst.Sstable.Reader.Found.{encode_all, seen}
use amethyst.Sstable.Reader.Window.{lay_out_lem}
use amethyst.Sstable.RoundTrip.Stored.{IsStored, look_up-IsStored}

-- The segment file is fit for use: no call fails, and the map is a window on the file.
pub record IsHealthy (s : SegmentFile) : Type 0 where
  pub outcomes : s.file.outcomes ≡ []
  pub window : IsWindow s

-- What follows a successful `Append`, which keeps the file healthy.
pub record IsWritten (b : Builder) (e : KvEntry) (es : List KvEntry) (level : ℕ)
    (strategy : CompactionType) (d : Disk) (m : SegmentMeta) (d' : Disk) : Type 0 where
  pub stored : IsStored b m e es d'.segment_file.file.content
  pub grown :
      d'.segment_file.file.content
      ≡ d.segment_file.file.content ++ (lay_out b m.id strategy e es).buf
  pub live : m.obsolete ≡ false
  pub level_kept : m.level ≡ level
  pub strategy_kept : m.strategy ≡ strategy
  pub healthy : IsHealthy d'.segment_file

module _ (b : Builder) (id : Key) (now level : ℕ) (strategy : CompactionType) (e : KvEntry)
    (es : List KvEntry) (d : Disk) (pos : 0 < b.stride) (sorted : IsSorted (e ∷ es))
    (readable : All IsReadable (e ∷ es)) (healthy : IsHealthy d.segment_file) where
  abbrev out : Layout
  out = lay_out b id strategy e es

  abbrev old : Bytes
  old = d.segment_file.file.content

  abbrev meta' : SegmentMeta
  meta' = new_meta id now strategy level e es out (length old) (length out.buf)

  IsStored-new : IsStored b meta' e es (old ++ out.buf)
  unfolding new_meta lay_out
  IsStored-new =
      let head = segment_header id e.key (last_key e es) strategy (length (e ∷ es)) in
      let (tail, parts) = lay_out_lem b head (e ∷ es) in
      record {
        before = old;
        head = head;
        behind = tail;
        content_parts = ap (λ c. old ++ c) parts.buf ∙ sym (append_assoc old head _);
        offset = refl;
        fits = omega (arith, length-append {0} old (lay_out_from b head (e ∷ es)).buf);
        size = omega (
          arith,
          ap length parts.buf,
          length-append {0} head (encode_all (e ∷ es) ++ tail),
          length-append {0} (encode_all (e ∷ es)) tail,
        );
        data_start = parts.data_start;
        sparse_start = parts.sparse_start;
        sparse = ap some parts.sparse;
        min_key = refl;
        max_key = refl;
        stride = pos;
        sorted = sorted;
        readable = readable;
      }

  abbrev result : Result (Option SegmentMeta) × Disk
  result = write_segment b id now (e ∷ es) strategy level d

  -- On a healthy file, with a positive stride and entries that are sorted and within the reader's
  -- limits, WriteSegment succeeds: the metadata that it returns describes these entries in the grown
  -- file, at the level and with the strategy asked for; the segment is not obsolete and the file
  -- stays healthy.
  pub write_segment-IsWritten :
      (m : SegmentMeta) × (result.0 ≡ ok (some m)) × IsWritten b e es level strategy d m result.1
  unfolding write_segment
  write_segment-IsWritten =
      let wrote = append-Appended d.segment_file out.buf healthy.outcomes healthy.window in
      let place = wrote.position in
      (
        meta',
        rw place,
        rw place (record {
          stored = rw wrote.grown IsStored-new;
          grown = wrote.grown;
          live = unfold new_meta in refl;
          level_kept = unfold new_meta in refl;
          strategy_kept = unfold new_meta in refl;
          healthy = record { outcomes = wrote.healthy; window = wrote.window };
        }),
      )

-- Bytes behind a stored segment do not touch it.
pub IsStored-append :
    (b : Builder) (m : SegmentMeta) (e : KvEntry) (es : List KvEntry) (content more : Bytes)
    → IsStored b m e es content
    → IsStored b m e es (content ++ more)
IsStored-append b m e es content more h = record {
  before = h.before;
  head = h.head;
  behind = h.behind ++ more;
  content_parts = ap (λ c. c ++ more) h.content_parts ∙ simp append_assoc;
  offset = h.offset;
  fits = omega (arith, h.fits, length-append {0} content more);
  size = h.size;
  data_start = h.data_start;
  sparse_start = h.sparse_start;
  sparse = h.sparse;
  min_key = h.min_key;
  max_key = h.max_key;
  stride = h.stride;
  sorted = h.sorted;
  readable = h.readable;
}

-- Under the conditions of a successful WriteSegment and whatever is appended to the file after it,
-- a lookup of any key in the new segment returns what the entries say: the value of the key's entry
-- (nil for an empty one) and true, or nil and false where it has a tombstone or no entry.
pub look_up-write_segment :
    (b : Builder) (id : Key) (now level : ℕ) (strategy : CompactionType) (e : KvEntry)
    (es : List KvEntry) (d : Disk) (more : Bytes) (target : Key)
    → 0 < b.stride
    → IsSorted (e ∷ es)
    → All IsReadable (e ∷ es)
    → IsHealthy d.segment_file
    → let out = write_segment b id now (e ∷ es) strategy level d in
      (m : SegmentMeta) × (out.0 ≡ ok (some m))
      × ((
        (look_up m target (append more out.1.segment_file).1).0.value,
        (look_up m target (append more out.1.segment_file).1).0.ok,
      )
          ≡ seen (find (e ∷ es) target))
look_up-write_segment b id now level strategy e es d more target pos sorted readable healthy =
    let (m, wrote, w) =
      write_segment-IsWritten b id now level strategy e es d pos sorted readable healthy in
    let s = (write_segment b id now (e ∷ es) strategy level d).1.segment_file in
    let grown = append-Appended s more w.healthy.outcomes w.healthy.window in
    let stored : IsStored b m e es (append more s).1.file.content =
      rw grown.grown (IsStored-append b m e es s.file.content more w.stored) in
    (
      m,
      wrote,
      look_up-IsStored b m e es (append more s).1 target stored w.live grown.healthy grown.window,
    )

-- The counters and the flag of a stored segment do not matter.
pub IsStored-counters :
    (b : Builder) (m : SegmentMeta) (e : KvEntry) (es : List KvEntry) (content : Bytes)
    (reads writes overlaps comparisons : ℕ) (flag : Bool)
    → IsStored b m e es content
    → IsStored b
        (record m {
          read_count = reads;
          write_count = writes;
          overlap_count = overlaps;
          total_comparisons = comparisons;
          in_compaction = flag;
        })
        e
        es
        content
IsStored-counters b m e es content r w o c flag h = record {
  before = h.before;
  head = h.head;
  behind = h.behind;
  content_parts = h.content_parts;
  offset = h.offset;
  fits = h.fits;
  size = h.size;
  data_start = h.data_start;
  sparse_start = h.sparse_start;
  sparse = h.sparse;
  min_key = h.min_key;
  max_key = h.max_key;
  stride = h.stride;
  sorted = h.sorted;
  readable = h.readable;
}

-- The new segment has the time that was given.
abbrev Created : ℕ → Result (Option SegmentMeta) → Type 0
Created now (ok (some m)) = m.created_at ≡ now
Created now (ok none) = Unit
Created now (err e) = Unit

appended-Created :
    (id : Key) (now : ℕ) (strategy : CompactionType) (level : ℕ) (e : KvEntry) (es : List KvEntry)
    (l : Layout) (c : WriteCounters) (r : Result (ℕ × ℕ) × SegmentFile)
    → Created now (appended id now strategy level e es l c r).0
unfolding appended new_meta
appended-Created id now strategy level e es l c (ok (o, n), f) = refl
appended-Created id now strategy level e es l c (err x, f) = tt

pub write_segment-created_at :
    (b : Builder) (id : Key) (now : ℕ) (e : KvEntry) (es : List KvEntry) (strategy : CompactionType)
    (level : ℕ) (d : Disk) (m : SegmentMeta)
    → (write_segment b id now (e ∷ es) strategy level d).0 ≡ ok (some m)
    → m.created_at ≡ now
unfolding write_segment
write_segment-created_at b id now e es strategy level d m wrote = subst (Created now) wrote (
    appended-Created id now strategy level e es (lay_out b id strategy e es) d.counters
      (append (lay_out b id strategy e es).buf d.segment_file))
