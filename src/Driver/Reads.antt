-- ===== src/Driver/Reads.antt =====
-- A read of the driver's store.
use amethyst.Types.{SegmentMeta}
use amethyst.Read.Ordered.{get_segments_for_key_seen, IsSorting, Descending}
use amethyst.SparseIndex.{Builder}
use amethyst.Driver.{handler, Driver, read_one}
use amethyst.Metadata.{
  get_segments_for_key, map_get, at, Sort, update_stats, modify, Pointer, Tracker,
}
use amethyst.Metadata.{on_segment}
use amethyst.Read.{Handler, read_segment}
use amethyst.Read.{read_segments}
use amethyst.Read.Held.{
  CountersOnly-refl, IsHeld, IsHeld-CountersOnly, AllHeld, CountersOnly, first_seen,
}
use amethyst.Read.Newest.{read_segments_lem, IsReading}
use amethyst.Base.{
  ◌∙◌, none, inr, arith, ◌<◌, some, inl, ap, Bool-cases, Option, Bytes, All, Key, ℕ, ◌≡◌, refl,
  List, [], ◌∷◌,
}
use amethyst.Driver.Store.{Writes, IsStore, IsKept}
use amethyst.Driver.Apart.{Apart}
use amethyst.Read.Ordered.{IsServing, Descending-IsServing}
use amethyst.Base.{key_ltb, true}

abbrev SameCounters : Tracker → Tracker → Type 0
SameCounters t' t = (q : Pointer) → CountersOnly (at t' q) (at t q)

counted_held :
    (b : Builder) (content : Bytes) (t t' : Tracker) (ps : List Pointer)
    → SameCounters t' t
    → (held : AllHeld b content t ps)
    → (held' : AllHeld b content t' ps) × ((key : Key)
        → first_seen b content t' ps held' key ≡ first_seen b content t ps held key)
unfolding first_seen
counted_held b content t t' [] c held = (tt, λ key. refl)
counted_held b content t t' (p ∷ ps) c (h, held) =
    let (rest, same) = counted_held b content t t' ps c held in
    let (stored, live) = IsHeld-CountersOnly b content (at t' p) (at t p) (c p) h in
    let here : IsHeld b content (at t' p) = record {
      first = h.first;
      others = h.others;
      stored = stored;
      live = live;
    } in
    ((here, rest), λ key. rw (same key) refl)

counted_All :
    (n : ℕ) (t t' : Tracker) (ps : List Pointer)
    → SameCounters t' t
    → All (λ q. (at t q).created_at < n) ps
    → All (λ q. (at t' q).created_at < n) ps
counted_All n t t' [] c h = tt
counted_All n t t' (p ∷ ps) c h =
    (omega (arith, h.0, ap (λ m. m.created_at) (c p).same), counted_All n t t' ps c h.1)

counted_Descending :
    (t t' : Tracker) (ps : List Pointer) → SameCounters t' t → Descending t ps → Descending t' ps
counted_Descending t t' [] c d = tt
counted_Descending t t' (p ∷ ps) c d =
    let time : (at t' p).created_at ≡ (at t p).created_at = ap (λ m. m.created_at) (c p).same in
    (
      ap (λ m. m.level) (c p).same ∙ d.0,
      rw time (counted_All (at t p).created_at t t' ps c d.1),
      counted_Descending t t' ps c d.2,
    )

on_segment-ordered :
    (found : Option Pointer) (f : SegmentMeta → SegmentMeta) (t : Tracker)
    → (on_segment found f t).ordered ≡ t.ordered
unfolding on_segment modify
on_segment-ordered none f t = refl
on_segment-ordered (some p) f t = refl

read_segment-ordered :
    (key : Key) (p : Pointer) (h : Handler)
    → (read_segment key p h).1.tracker.ordered ≡ h.tracker.ordered
unfolding read_segment update_stats modify
read_segment-ordered key p h = on_segment-ordered (map_get _ _) _ _

read_segments-ordered :
    (key : Key) (ps : List Pointer) (h : Handler)
    → (read_segments key ps h).1.tracker.ordered ≡ h.tracker.ordered
unfolding read_segments
read_segments-ordered key [] h = refl
read_segments-ordered key (p ∷ ps) h =
    let here = read_segment-ordered key p h in
    elim (Bool-cases (read_segment key p h).0.1) [
      | inl hit ↦ rw hit here
      | inr miss ↦ rw miss (read_segments-ordered key ps (read_segment key p h).1 ∙ here)
    ]

-- A read, where the segments for its key are in order, leaves a store with the same writes, and of the
-- segments only the counters change.
pub read_one-IsKept :
    (b : Builder) (ws : Writes) (sort : Sort) (key : Key) (s : Driver)
    → IsSorting sort
    → IsServing s.tracker key
    → IsKept b ws s
    → IsKept b ws (read_one sort key s).1
      × SameCounters (read_one sort key s).1.tracker s.tracker
      × ((read_one sort key s).1.tracker.ordered ≡ s.tracker.ordered)
unfolding read_one
read_one-IsKept b ws sort key s sorting orderly h =
    let content = s.disk.segment_file.file.content in
    let t = s.tracker in
    let segs = get_segments_for_key sort key t in
    let (serving, _) = get_segments_for_key_seen b content sort key t sorting orderly h.held in
    let start : IsReading content t (handler s) = record {
      content_kept = refl;
      healthy = h.healthy;
      counters = λ q. CountersOnly-refl _;
    } in
    let (_, r, _) = read_segments_lem b content t key segs (handler s) serving start in
    let after = (read_segments key segs (handler s)).1 in
    let listed : after.tracker.ordered ≡ t.ordered = read_segments-ordered key segs (handler s) in
    let (held', same) = counted_held b content t after.tracker t.ordered r.counters h.held in
    let moved : (held'' : AllHeld b after.reads.segment_file.file.content after.tracker
          after.tracker.ordered)
        × ((k : Key)
            → first_seen b after.reads.segment_file.file.content after.tracker after.tracker.ordered
                held'' k
              ≡ first_seen b content t t.ordered h.held k) =
      rw (listed, r.content_kept) (held', same) in
    (
      record {
        builder = h.builder;
        stride = h.stride;
        healthy = r.healthy;
        sorted = h.sorted;
        plain = h.plain;
        held = moved.0;
        answers = λ k. rw (moved.1 k) (h.answers k);
      },
      r.counters,
      listed,
    )

pub read_one-IsStore :
    (b : Builder) (ws : Writes) (sort : Sort) (key : Key) (s : Driver)
    → IsSorting sort
    → IsStore b ws s
    → IsStore b ws (read_one sort key s).1
read_one-IsStore b ws sort key s sorting h =
    let (kept, counters, listed) =
      read_one-IsKept b ws sort key s sorting (Descending-IsServing s.tracker key h.descending)
        h.kept in
    record {
      kept = kept;
      descending = rw listed (
          counted_Descending s.tracker (read_one sort key s).1.tracker s.tracker.ordered counters
            h.descending);
    }

counted_Below :
    (low : Key) (t t' : Tracker) (ps : List Pointer)
    → SameCounters t' t
    → All (λ q. key_ltb (at t q).max_key low ≡ true) ps
    → All (λ q. key_ltb (at t' q).max_key low ≡ true) ps
counted_Below low t t' [] c h = tt
counted_Below low t t' (p ∷ ps) c h =
    (ap (λ m. key_ltb m.max_key low) (c p).same ∙ h.0, counted_Below low t t' ps c h.1)

pub counted_Apart :
    (t t' : Tracker) (ps : List Pointer) → SameCounters t' t → Apart t ps → Apart t' ps
counted_Apart t t' [] c d = tt
counted_Apart t t' (p ∷ ps) c d =
    let low : (at t' p).min_key ≡ (at t p).min_key = ap (λ m. m.min_key) (c p).same in
    (rw low (counted_Below (at t p).min_key t t' ps c d.0), counted_Apart t t' ps c d.1)
