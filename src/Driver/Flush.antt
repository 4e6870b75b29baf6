-- ===== src/Driver/Flush.antt =====
-- A flush of the driver's store: the memtable's entries and the newest segment.
use amethyst.File.{ok}
use amethyst.Sstable.Writer.{Disk}
use amethyst.Sstable.Writer.{write_segment}
use amethyst.Memtable.Position.{IsSorted}
use amethyst.Driver.{tiered, Driver}
use Prim.Native.Nat.{zero}
use amethyst.Metadata.Query.{get_or-append}
use amethyst.Sstable.RoundTrip.Written.{
  write_segment-created_at, write_segment-IsWritten, IsWritten, IsStored-counters, IsHealthy,
  IsStored-append,
}
use mathlib.Core.Bool.{false≢true}
use amethyst.Read.Ordered.{Descending}
use amethyst.Sstable.Reader.Entry.{IsReadable}
use amethyst.Sstable.Reader.Found.{seen}
use amethyst.Memtable.Lookup.{visible, find}
use amethyst.Metadata.{count_overlaps, no_segment, at, Tracker, Pointer, register_segment}
use amethyst.Read.Held.{IsHeld, AllHeld, first_seen}
use amethyst.SparseIndex.{Builder}
use amethyst.Types.{KvEntry}
use amethyst.Types.{SegmentMeta}
use amethyst.Read.Newest.{newest}
use amethyst.Base.{
  arith, some, inr, inl, suc, key_eqb, sym, Bool-cases, ◌<◌, ◌++◌, length, false, get_or, Key,
  Bytes, All, ℕ, ◌≡◌, refl, List, [], ◌∷◌,
}
use amethyst.Driver.Apart.{Apart}
use amethyst.Sstable.Writer.{last_key}
use amethyst.Base.{key_ltb, true}
use amethyst.Driver.Store.{ClockMoved, IsPlain}

-- On entries that a segment keeps as they are, the reader says what the memtable says.
pub seen-visible :
    (es : List KvEntry) (key : Key) → All IsPlain es → seen (find es key) ≡ visible (find es key)
unfolding find
seen-visible [] key h = refl
seen-visible (e ∷ es) key h = elim (Bool-cases (key_eqb e.key key)) [
  | inl same ↦ rw (same, h.0.1) refl
  | inr other ↦ rw other (seen-visible es key h.1)
]

pub IsReadable-All : (es : List KvEntry) → All IsPlain es → All IsReadable es
IsReadable-All [] h = tt
IsReadable-All (e ∷ es) h = (h.0.0, IsReadable-All es h.1)

get_or-append_live :
    (heap : List SegmentMeta) (m : SegmentMeta) (p : Pointer)
    → (get_or heap p no_segment).obsolete ≡ false
    → get_or (heap ++ (m ∷ [])) p no_segment ≡ get_or heap p no_segment
get_or-append_live [] m p live = absurd (false≢true (sym live))
get_or-append_live (x ∷ xs) m zero live = refl
get_or-append_live (x ∷ xs) m (suc p) live = get_or-append_live xs m p live

at-register_segment :
    (m : SegmentMeta) (t : Tracker) (p : Pointer)
    → (at t p).obsolete ≡ false
    → at (register_segment m t) p ≡ at t p
unfolding register_segment
at-register_segment m t p live = get_or-append_live t.heap _ p live

at_new-register_segment :
    (m : SegmentMeta) (t : Tracker)
    → at (register_segment m t) (length t.heap)
      ≡ record m { overlap_count = count_overlaps m t t.segments }
unfolding register_segment
at_new-register_segment m t = get_or-append t.heap _ no_segment

-- The old segments behind a new one, in the grown file.
grown_held :
    (b : Builder) (content more : Bytes) (m : SegmentMeta) (t : Tracker) (ps : List Pointer)
    → (held : AllHeld b content t ps)
    → (held' : AllHeld b (content ++ more) (register_segment m t) ps) × ((key : Key)
        → first_seen b (content ++ more) (register_segment m t) ps held' key
          ≡ first_seen b content t ps held key)
unfolding first_seen
grown_held b content more m t [] held = (tt, λ key. refl)
grown_held b content more m t (p ∷ ps) (h, held) =
    let (rest, same) = grown_held b content more m t ps held in
    let kept = at-register_segment m t p h.live in
    let here : IsHeld b (content ++ more) (at (register_segment m t) p) = record {
      first = h.first;
      others = h.others;
      stored = rw kept (IsStored-append b (at t p) h.first h.others content more h.stored);
      live = rw kept h.live;
    } in
    ((here, rest), λ key. rw (same key) refl)

grown_All :
    (Q : SegmentMeta → Type 0) (b : Builder) (content : Bytes) (m : SegmentMeta) (t : Tracker)
    (qs : List Pointer)
    → AllHeld b content t qs
    → All (λ q. Q (at t q)) qs
    → All (λ q. Q (at (register_segment m t) q)) qs
grown_All Q b content m t [] held h = tt
grown_All Q b content m t (q ∷ qs) (h, held) (here, rest) =
    (rw (at-register_segment m t q h.live) here, grown_All Q b content m t qs held rest)

pub All-later :
    (t : Tracker) (now n : ℕ) (ps : List Pointer)
    → now < n
    → All (λ q. (at t q).created_at < now) ps
    → All (λ q. (at t q).created_at < n) ps
All-later t now n [] later h = tt
All-later t now n (p ∷ ps) later (lt, lts) =
    (omega (arith, lt, later), All-later t now n ps later lts)

grown_Descending :
    (b : Builder) (content : Bytes) (m : SegmentMeta) (t : Tracker) (ps : List Pointer)
    → AllHeld b content t ps
    → Descending t ps
    → Descending (register_segment m t) ps
grown_Descending b content m t [] held d = tt
grown_Descending b content m t (p ∷ ps) (h, held) d =
    let kept = at-register_segment m t p h.live in
    (
      rw kept d.0,
      rw kept (grown_All (λ x. x.created_at < (at t p).created_at) b content m t ps held d.1),
      grown_Descending b content m t ps held d.2,
    )

grown_Apart :
    (b : Builder) (content : Bytes) (m : SegmentMeta) (t : Tracker) (ps : List Pointer)
    → AllHeld b content t ps
    → Apart t ps
    → Apart (register_segment m t) ps
grown_Apart b content m t [] held d = tt
grown_Apart b content m t (p ∷ ps) (h, held) d =
    let kept = at-register_segment m t p h.live in
    (
      rw kept
          (grown_All (λ x. key_ltb x.max_key (at t p).min_key ≡ true) b content m t ps held d.0),
      grown_Apart b content m t ps held d.1,
    )

-- The list of segments with the new one in front.
module _ (b : Builder) (id : Key) (now : ℕ) (e : KvEntry) (es : List KvEntry) (s : Driver)
    (pos : 0 < b.stride) (sorted : IsSorted (e ∷ es)) (readable : All IsReadable (e ∷ es))
    (healthy : IsHealthy s.disk.segment_file)
    (held : AllHeld b s.disk.segment_file.file.content s.tracker s.tracker.ordered) where
  abbrev pub wrote :
      (m : SegmentMeta) × ((write_segment b id now (e ∷ es) tiered 0 s.disk).0 ≡ ok (some m))
      × IsWritten b e es 0 tiered s.disk m (write_segment b id now (e ∷ es) tiered 0 s.disk).1
  wrote = write_segment-IsWritten b id now 0 tiered e es s.disk pos sorted readable healthy

  abbrev pub segment : SegmentMeta
  segment = wrote.0

  abbrev pub disk' : Disk
  disk' = (write_segment b id now (e ∷ es) tiered 0 s.disk).1

  abbrev pub tracker' : Tracker
  tracker' = register_segment segment s.tracker

  abbrev pub content' : Bytes
  content' = disk'.segment_file.file.content

  pub new-IsHeld :
      (h : IsHeld b content' (at tracker' (length s.tracker.heap))) × (h.first ∷ h.others ≡ e ∷ es)
  new-IsHeld = rw (at_new-register_segment segment s.tracker) (
    record {
      first = e;
      others = es;
      stored =
          IsStored-counters b segment e es content' segment.read_count segment.write_count
            (count_overlaps segment s.tracker s.tracker.segments) segment.total_comparisons
            segment.in_compaction wrote.2.stored;
      live = wrote.2.live;
    },
    refl,
  )

  pub old_held :
      (held' : AllHeld b content' tracker' s.tracker.ordered) × ((key : Key)
        → first_seen b content' tracker' s.tracker.ordered held' key
          ≡ first_seen b s.disk.segment_file.file.content s.tracker s.tracker.ordered held key)
  old_held =
      rw wrote.2.grown
        (grown_held b s.disk.segment_file.file.content _ segment s.tracker s.tracker.ordered held)

  pub new-Descending :
      Descending s.tracker s.tracker.ordered
      → ClockMoved now s
      → Descending tracker' (length s.tracker.heap ∷ s.tracker.ordered)
  new-Descending descending clock = (
    rw (at_new-register_segment segment s.tracker) wrote.2.level_kept,
    rw
        (
          at_new-register_segment segment s.tracker,
          write_segment-created_at b id now e es tiered 0 s.disk segment wrote.1,
        )
        (grown_All (λ x. x.created_at < now) b s.disk.segment_file.file.content segment s.tracker
          s.tracker.ordered held clock),
    grown_Descending b s.disk.segment_file.file.content segment s.tracker s.tracker.ordered held
        descending,
  )

  -- The list after the flush says of a key what the flushed entries say, and else what it said.
  pub flushed_seen :
      (key : Key)
      → first_seen b content' tracker'
          (length s.tracker.heap ∷ s.tracker.ordered)
          (new-IsHeld.0, old_held.0)
          key
        ≡ newest b s.disk.segment_file.file.content s.tracker s.tracker.ordered held key
            (seen (find (e ∷ es) key))
  unfolding first_seen
  flushed_seen key = rw (new-IsHeld.1, old_held.1 key) refl

  -- The clock has moved on when it is later than the flush.
  pub clock_after :
      (n : ℕ)
      → now < n
      → ClockMoved now s
      → All (λ q. (at tracker' q).created_at < n) (length s.tracker.heap ∷ s.tracker.ordered)
  clock_after n later clock = (
    rw
        (
          at_new-register_segment segment s.tracker,
          write_segment-created_at b id now e es tiered 0 s.disk segment wrote.1,
        )
        later,
    grown_All (λ x. x.created_at < n) b s.disk.segment_file.file.content segment s.tracker
        s.tracker.ordered held (All-later s.tracker now n s.tracker.ordered later clock),
  )

  -- The ranges of the segments stay apart when the new entries are above all the old ones.
  pub new-Apart :
      Apart s.tracker s.tracker.ordered
      → All (λ q. key_ltb (at s.tracker q).max_key e.key ≡ true) s.tracker.ordered
      → Apart tracker' (length s.tracker.heap ∷ s.tracker.ordered)
  new-Apart apart above = (
    rw (at_new-register_segment segment s.tracker, wrote.2.stored.min_key)
        (grown_All (λ x. key_ltb x.max_key e.key ≡ true) b s.disk.segment_file.file.content segment
          s.tracker s.tracker.ordered held above),
    grown_Apart b s.disk.segment_file.file.content segment s.tracker s.tracker.ordered held apart,
  )

  -- A key above all entries and all segments stays so.
  pub new-IsAbove :
      (k : Key)
      → key_ltb (last_key e es) k ≡ true
      → All (λ q. key_ltb (at s.tracker q).max_key k ≡ true) s.tracker.ordered
      → All
          (λ q. key_ltb (at tracker' q).max_key k ≡ true)
          (length s.tracker.heap ∷ s.tracker.ordered)
  new-IsAbove k last above = (
    rw (at_new-register_segment segment s.tracker, wrote.2.stored.max_key) last,
    grown_All (λ x. key_ltb x.max_key k ≡ true) b s.disk.segment_file.file.content segment s.tracker
        s.tracker.ordered held above,
  )
