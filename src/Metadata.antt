-- ===== src/Metadata.antt =====
-- amethyst/internal/metadata/metadata.go: the registry of segments. Segments are shared by pointer:
-- a pointer is a number, the heap holds what it points to, and the map and the list hold pointers.
-- The order in which Go ranges over the map, and `sort.Slice`, which may put equal items in any
-- order, are arguments. An operation holds the lock throughout, so it is one step.
pub mod Heap
pub mod Query
pub mod Tests
use amethyst.Base.{
  ℕ, zero, suc, ◌+◌, Bool, true, false, ◌&&◌, ◌||◌, not, Option, none, some, List, [], ◌∷◌, ◌++◌,
  Key, ltb, ◌==◌, if◌then◌else◌, length, get_or, set, key_ltb, key_leb, key_eqb,
}
use amethyst.Types.{CompactionType, tiered, SegmentMeta, add_reads, add_writes, mark_obsolete}

abbrev pub Pointer : Type 0
Pointer = ℕ

abbrev pub SegmentMap : Type 0
SegmentMap = List (Key × Pointer)

pub record Tracker : Type 0 where
  pub heap : List SegmentMeta
  pub segments : SegmentMap
  pub ordered : List Pointer

abbrev pub new_tracker : Tracker
new_tracker = record { heap = []; segments = []; ordered = [] }

-- what a pointer off the heap would show; no pointer of the tracker is
abbrev pub no_segment : SegmentMeta
no_segment = record {
  id = [];
  level = 0;
  offset = 0;
  length = 0;
  min_key = [];
  max_key = [];
  strategy = tiered;
  read_count = 0;
  write_count = 0;
  overlap_count = 0;
  total_comparisons = 0;
  created_at = 0;
  last_rewrite_at = 0;
  obsolete = true;
  in_compaction = false;
  sparse_index = none;
  data_start_offset = 0;
  sparse_index_offset = 0;
}

abbrev pub at : Tracker → Pointer → SegmentMeta
at t p = get_or t.heap p no_segment

-- Writes through a pointer.
unfoldable pub modify : Pointer → (SegmentMeta → SegmentMeta) → Tracker → Tracker
modify p f t = record t { heap = set t.heap p (f (at t p)) }

unfoldable pub map_get : Key → SegmentMap → Option Pointer
map_get id [] = none
map_get id ((k, p) ∷ m) = if key_eqb k id then some p else map_get id m

unfoldable pub map_set : Key → Pointer → SegmentMap → SegmentMap
map_set id p [] = (id, p) ∷ []
map_set id p ((k, q) ∷ m) = if key_eqb k id then (id, p) ∷ m else (k, q) ∷ map_set id p m

-- `!(a.MaxKey < b.MinKey || a.MinKey > b.MaxKey)`
unfoldable pub overlaps : SegmentMeta → SegmentMeta → Bool
overlaps a b = not (key_ltb a.max_key b.min_key || key_ltb b.max_key a.min_key)

unfoldable pub count_overlaps : SegmentMeta → Tracker → SegmentMap → ℕ
unfolding overlaps
count_overlaps m t [] = 0
count_overlaps m t ((k, p) ∷ rest) =
    (if not (at t p).obsolete && overlaps m (at t p) then 1 else 0) + count_overlaps m t rest

-- The new segment gets the next pointer, and stands first in the list.
unfoldable pub register_segment : SegmentMeta → Tracker → Tracker
unfolding count_overlaps map_set
register_segment m t =
    let p = length t.heap in
    record {
      heap = t.heap ++ (record m { overlap_count = count_overlaps m t t.segments } ∷ []);
      segments = map_set m.id p t.segments;
      ordered = p ∷ t.ordered;
    }

-- The order of one loop over the map.
abbrev pub Range : Type 0
Range = SegmentMap → SegmentMap

unfoldable pub overlapping : SegmentMeta → Tracker → SegmentMap → List Pointer
unfolding overlaps
overlapping target t [] = []
overlapping target t ((k, p) ∷ rest) =
    let others = overlapping target t rest in
    if key_eqb (at t p).id target.id || (at t p).obsolete
    then others
    else if overlaps target (at t p)
    then p ∷ others
    else others

unfoldable pub get_overlapping_segments : Range → Pointer → Tracker → List Pointer
unfolding overlapping
get_overlapping_segments range target t = overlapping (at t target) t (range t.segments)

-- By level, ascending, then by time of creation, descending.
unfoldable pub newer : Tracker → Pointer → Pointer → Bool
newer t p q =
    if (at t p).level == (at t q).level
    then ltb (at t q).created_at (at t p).created_at
    else ltb (at t p).level (at t q).level

-- `sort.Slice`
abbrev pub Sort : Type 0
Sort = (Pointer → Pointer → Bool) → List Pointer → List Pointer

unfoldable pub covers : SegmentMeta → Key → Bool
covers m key = key_leb m.min_key key && key_leb key m.max_key

unfoldable pub live_covering : Key → Tracker → List Pointer → List Pointer
unfolding covers
live_covering key t [] = []
live_covering key t (p ∷ ps) =
    let rest = live_covering key t ps in
    if (at t p).obsolete then rest else if covers (at t p) key then p ∷ rest else rest

unfoldable pub get_segments_for_key : Sort → Key → Tracker → List Pointer
unfolding live_covering newer
get_segments_for_key sort key t = sort (newer t) (live_covering key t t.ordered)

unfoldable pub live : Tracker → List Pointer → List Pointer
live t [] = []
live t (p ∷ ps) = let rest = live t ps in if (at t p).obsolete then rest else p ∷ rest

unfoldable pub get_all_segments : Sort → Tracker → List Pointer
unfolding live newer
get_all_segments sort t = sort (newer t) (live t t.ordered)

unfoldable pub on_segment : Option Pointer → (SegmentMeta → SegmentMeta) → Tracker → Tracker
unfolding modify
on_segment none f t = t
on_segment (some p) f t = modify p f t

unfoldable pub mark_obsolete_id : Key → Tracker → Tracker
unfolding map_get on_segment
mark_obsolete_id id t = on_segment (map_get id t.segments) mark_obsolete t

unfoldable pub update_stats : Key → ℕ → ℕ → Tracker → Tracker
unfolding map_get on_segment
update_stats id reads writes t =
    on_segment (map_get id t.segments) (λ m. add_writes writes (add_reads reads m)) t
