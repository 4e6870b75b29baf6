-- ===== src/Read.antt =====
-- amethyst/internal/read/read.go: the read path, memtable first, then the segments that the tracker
-- gives, in its order.
pub mod Held
pub mod Newest
pub mod Ordered
pub mod Tests
use amethyst.Base.{Bool, false, Option, none, some, List, [], ◌∷◌, Key, Slice, if◌then◌else◌}
use amethyst.Types.{SegmentMeta}
use amethyst.Memtable
use amethyst.Memtable.{Memtable}
use amethyst.Metadata.{Tracker, Pointer, Sort, at, modify, get_segments_for_key, update_stats}
use amethyst.Sstable.Reader
use amethyst.Sstable.Reader.{ReadState}

pub record Handler : Type 0 where
  pub memtable : Memtable
  pub tracker : Tracker
  pub reads : ReadState

-- the segment as the reader left it
abbrev returned : Option SegmentMeta → SegmentMeta → SegmentMeta
returned none m = m
returned (some m') m = m'

-- One round: the reader's lookup, and the count of a read for the segment.
unfoldable pub read_segment : Key → Pointer → Handler → (Slice × Bool) × Handler
read_segment key p h =
    let (found, m, reads) = Reader.get (some (at h.tracker p)) key h.reads in
    (
      found,
      record h {
        tracker = update_stats (at h.tracker p).id 1 0 (modify p (returned m) h.tracker);
        reads = reads;
      },
    )

unfoldable pub read_segments : Key → List Pointer → Handler → (Slice × Bool) × Handler
read_segments key [] h = ((none, false), h)
read_segments key (p ∷ ps) h =
    let (found, h') = read_segment key p h in
    let rest = read_segments key ps h' in if found.1 then (found, h') else rest

unfoldable pub get : Sort → Key → Handler → (Slice × Bool) × Handler
get sort key h =
    let found = Memtable.get h.memtable key in
    if found.1 then (found, h) else read_segments key (get_segments_for_key sort key h.tracker) h
