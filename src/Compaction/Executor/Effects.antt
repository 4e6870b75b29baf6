-- ===== src/Compaction/Executor/Effects.antt =====
-- The loop over the inputs.
use mathlib.Core.Path.{subst}
use amethyst.Base.{
  ◌≤◌, ◌≡◌, refl, ◌∙◌, ap, sym, true, false, ◌||◌, not, Option, none, some, List, [], ◌∷◌, Key,
  Slice, Bytes, if◌then◌else◌, length,
}
use amethyst.Types.{KvEntry, SegmentMeta}
use amethyst.SparseIndex.{Builder}
use amethyst.Memtable.Lookup.{find}
use amethyst.Metadata.{Tracker, Pointer, at}
use amethyst.Metadata.Heap.{CountsOnly, CountsOnly-trans, update_stats-CountsOnly}
use amethyst.Sstable.Reader.{map_get, scan, max_scan_len}
use amethyst.Sstable.Reader.Found.{encode_all}
use amethyst.Sstable.Reader.Scanned.{over}
use amethyst.Sstable.Reader.Maps.{IsMap}
use amethyst.Sstable.RoundTrip.Stored.{IsStored}
use amethyst.Sstable.RoundTrip.Written.{IsHealthy, IsStored-counters}
use amethyst.Sstable.RoundTrip.Rescanned.{scan-IsStored}
use amethyst.Compaction.Executor.{Scanning, scanned, scan_inputs}
use amethyst.Compaction.Executor.Merge.{newest, map_get-merge_into, merge_into-IsMap}

-- A segment fit for a merge: its entries stand in the file, it is not obsolete, and it is flagged.
pub record IsFit (b : Builder) (content : Bytes) (m : SegmentMeta) : Type 0 where
  pub first : KvEntry
  pub others : List KvEntry
  pub stored : IsStored b m first others content
  pub live : m.obsolete ≡ false
  pub flagged : m.in_compaction ≡ true
  pub small : length (encode_all (first ∷ others)) ≤ max_scan_len

abbrev pub AllFit : Builder → Bytes → Tracker → List Pointer → Type 0
AllFit b content t [] = Unit
AllFit b content t (p ∷ ps) = IsFit b content (at t p) × AllFit b content t ps

-- The specification of the merge: the entries of each input in turn over what was merged before; a
-- tombstone and an empty value leave it as it is.
unfoldable pub merged_value :
    (b : Builder) (content : Bytes) (t : Tracker) (ps : List Pointer)
    → AllFit b content t ps
    → Key
    → Option Slice
    → Option Slice
merged_value b content t [] fit j before = before
merged_value b content t (p ∷ ps) (f, fs) j before =
    merged_value b content t ps fs j (newest (over (find (f.first ∷ f.others) j) none) before)

fit_counts :
    (b : Builder) (content : Bytes) (a m : SegmentMeta)
    → CountsOnly a m
    → (f : IsFit b content m)
    → IsStored b a f.first f.others content × (a.obsolete ≡ false) × (a.in_compaction ≡ true)
fit_counts b content a m c f =
    subst
      (λ x. IsStored b x f.first f.others content × (x.obsolete ≡ false) × (x.in_compaction ≡ true))
      (sym c.same)
      (
        IsStored-counters b m f.first f.others content c.reads c.writes m.overlap_count
            m.total_comparisons m.in_compaction f.stored,
        f.live,
        f.flagged,
      )

-- What the loop keeps.
pub record IsScanning (content : Bytes) (t : Tracker) (s : Scanning) : Type 0 where
  pub content_kept : s.segment_file.file.content ≡ content
  pub healthy : IsHealthy s.segment_file
  pub is_map : IsMap s.merged
  pub counts : (q : Pointer) → CountsOnly (at s.tracker q) (at t q)

abbrev scan_one : Pointer → Scanning → Scanning
scan_one p s =
    let m = at s.tracker p in
    if m.obsolete || not m.in_compaction then s else scanned p s (scan (some m) s.segment_file)

scan_one_lem :
    (b : Builder) (content : Bytes) (t : Tracker) (p : Pointer) (s : Scanning)
    → (f : IsFit b content (at t p)) → IsScanning content t s
    → IsScanning content t (scan_one p s)
      × ((j : Key)
          → map_get j (scan_one p s).merged
            ≡ newest (over (find (f.first ∷ f.others) j) none) (map_get j s.merged))
unfolding scanned
scan_one_lem b content t p s f h =
    let (stored, live, flagged) = fit_counts b content (at s.tracker p) (at t p) (h.counts p) f in
    let (found, s', scans, holds, is_map, same_file, healthy) =
      scan-IsStored b (at s.tracker p) f.first f.others s.segment_file (rw h.content_kept stored)
        live f.small h.healthy in
    rw (live, flagged, scans)
      (
        record {
          content_kept = ap (λ x. x.content) same_file ∙ h.content_kept;
          healthy = healthy;
          is_map = merge_into-IsMap found s.merged h.is_map;
          counts = λ q.
              CountsOnly-trans _ (at s.tracker q) (at t q)
                (update_stats-CountsOnly (at s.tracker p).id 0 1 s.tracker q) (h.counts q);
        },
        λ j.
            map_get-merge_into found s.merged j is_map
            ∙ ap (λ o. newest o (map_get j s.merged)) (holds j),
      )

-- On inputs that are fit for a merge the loop scans them all. For each key the merged map holds what
-- the last of the inputs, in the plan's order, has for it that is neither a tombstone nor empty, and
-- else what was there before. No key stands twice, the file keeps its bytes, and of the segments only
-- the counts change.
pub scan_inputs-merged_value :
    (b : Builder) (content : Bytes) (t : Tracker) (ps : List Pointer) (s : Scanning)
    → (fit : AllFit b content t ps) → IsScanning content t s
    → IsScanning content t (scan_inputs ps s)
      × ((j : Key)
          → map_get j (scan_inputs ps s).merged
            ≡ merged_value b content t ps fit j (map_get j s.merged))
unfolding scan_inputs merged_value
scan_inputs-merged_value b content t [] s fit h = (h, λ j. refl)
scan_inputs-merged_value b content t (p ∷ ps) s (f, fs) h =
    let (kept, one) = scan_one_lem b content t p s f h in
    let (rest_kept, rest) = scan_inputs-merged_value b content t ps (scan_one p s) fs kept in
    (rest_kept, λ j. rest j ∙ ap (merged_value b content t ps fs j) (one j))
