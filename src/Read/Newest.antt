-- ===== src/Read/Newest.antt =====
-- What a read answers, from the memtable and the segments that the tracker gives for the key.
use amethyst.Base.{
  ◌≡◌, refl, ◌∙◌, ap, inl, inr, Bool, List, [], ◌∷◌, Key, Slice, Bytes, if◌then◌else◌, Bool-cases,
}
use amethyst.SparseIndex.{Builder}
use amethyst.Memtable
use amethyst.Memtable.Lookup.{find}
use amethyst.Metadata.{Tracker, Pointer, Sort, at, get_segments_for_key}
use amethyst.Metadata.Heap.{update_stats-CountsOnly}
use amethyst.Sstable.Reader
use amethyst.Sstable.Reader.{ReadState, look_up}
use amethyst.Sstable.Reader.Found.{seen}
use amethyst.Sstable.RoundTrip.Stored.{look_up-IsStored}
use amethyst.Sstable.RoundTrip.Written.{IsHealthy}
use amethyst.Read.{Handler, read_segment, read_segments, get}
use amethyst.Read.Held.{
  IsHeld, AllHeld, first_seen, CountersOnly, CountersOnly-refl, CountersOnly-trans,
  modify-CountersOnly, IsHeld-CountersOnly, look_up-IsKept,
}

-- What a read keeps: the bytes and the health of the file, and the segments up to their counters.
pub record IsReading (content : Bytes) (t : Tracker) (h : Handler) : Type 0 where
  pub content_kept : h.reads.segment_file.file.content ≡ content
  pub healthy : IsHealthy h.reads.segment_file
  pub counters : (q : Pointer) → CountersOnly (at h.tracker q) (at t q)

read_segment_lem :
    (b : Builder) (content : Bytes) (t : Tracker) (key : Key) (p : Pointer) (h : Handler)
    → (m : IsHeld b content (at t p)) → IsReading content t h
    → ((read_segment key p h).0 ≡ seen (find (m.first ∷ m.others) key))
      × IsReading content t (read_segment key p h).1
      × ((read_segment key p h).1.memtable ≡ h.memtable)
unfolding read_segment Reader.get
read_segment_lem b content t key p h m r =
    let here = at h.tracker p in
    let file = h.reads.segment_file in
    let (stored, live) = IsHeld-CountersOnly b content here (at t p) (r.counters p) m in
    let (healthy, same_file) = look_up-IsKept here key file r.healthy in
    (
      look_up-IsStored b here m.first m.others file key (rw r.content_kept stored) live
          r.healthy.outcomes r.healthy.window,
      record {
        content_kept = ap (λ f. f.content) same_file ∙ r.content_kept;
        healthy = healthy;
        counters = λ q.
            CountersOnly-trans _ _ (at t q) (update_stats-CountsOnly here.id 1 0 _ q)
              (modify-CountersOnly p q _ h.tracker t r.counters);
      },
      refl,
    )

pub read_segments_lem :
    (b : Builder) (content : Bytes) (t : Tracker) (key : Key) (ps : List Pointer) (h : Handler)
    → (ms : AllHeld b content t ps) → IsReading content t h
    → ((read_segments key ps h).0 ≡ first_seen b content t ps ms key)
      × IsReading content t (read_segments key ps h).1
      × ((read_segments key ps h).1.memtable ≡ h.memtable)
unfolding read_segments first_seen
read_segments_lem b content t key [] h ms r = (refl, r, refl)
read_segments_lem b content t key (p ∷ ps) h (m, ms) r =
    let (found, kept, same) = read_segment_lem b content t key p h m r in
    let (rest, rest_kept, rest_same) =
      read_segments_lem b content t key ps (read_segment key p h).1 ms kept in
    elim (Bool-cases (seen (find (m.first ∷ m.others) key)).1) [
      | inl hit ↦ rw (found, hit) (refl, kept, same)
      | inr miss ↦ rw (found, miss) (rest, rest_kept, rest_same ∙ same)
    ]

-- The answer of a read by its parts.
abbrev pub newest :
    (b : Builder) (content : Bytes) (t : Tracker) (ps : List Pointer)
    → AllHeld b content t ps
    → Key
    → Slice × Bool
    → Slice × Bool
newest b content t ps held key found = if found.1 then found else first_seen b content t ps held key

-- On a healthy file, and where the segments that the tracker gives for the key are stored in it and not
-- obsolete: Get answers what the memtable has, where it finds the key, and else what the first of the
-- segments that finds the key has, and nil and false where none does. A tombstone counts as not found,
-- in the memtable and in a segment. The memtable and the bytes of the file stay, and of the segments
-- only the counters change.
pub get-newest :
    (b : Builder) (sort : Sort) (key : Key) (h : Handler)
    → (held : AllHeld b h.reads.segment_file.file.content h.tracker
        (get_segments_for_key sort key h.tracker))
    → IsHealthy h.reads.segment_file
    → ((get sort key h).0
        ≡ newest b h.reads.segment_file.file.content h.tracker
            (get_segments_for_key sort key h.tracker)
            held
            key
            (Memtable.get h.memtable key))
      × IsReading h.reads.segment_file.file.content h.tracker (get sort key h).1
      × ((get sort key h).1.memtable ≡ h.memtable)
unfolding get
get-newest b sort key h held healthy =
    let content = h.reads.segment_file.file.content in
    let start : IsReading content h.tracker h = record {
      content_kept = refl;
      healthy = healthy;
      counters = λ q. CountersOnly-refl _;
    } in
    elim (Bool-cases (Memtable.get h.memtable key).1) [
      | inl hit ↦ rw hit (refl, start, refl)
      | inr miss ↦ rw miss (
          read_segments_lem b content h.tracker key (get_segments_for_key sort key h.tracker) h held
            start)
    ]
