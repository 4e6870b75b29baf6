-- ===== src/Metadata/Tests.antt =====
-- The tracker's theorems at a concrete tracker.
use amethyst.Metadata.Query.{contains, get_segments_for_key-register_segment}
use amethyst.Metadata.{get_segments_for_key, register_segment, covers}
use amethyst.Base.{◌≡◌, refl, true, false, key_ltb}
use amethyst.Base.{[], ◌∷◌}
use amethyst.Metadata.{Tracker, no_segment}

abbrev tracker : Tracker
tracker = record {
  heap = record no_segment { id = 7 ∷ []; max_key = 9 ∷ []; obsolete = false } ∷ [];
  segments = (7 ∷ [], 0) ∷ [];
  ordered = 0 ∷ [];
}

get_segments_for_key-register_segment_example :
    contains 1 (
      get_segments_for_key
        (λ less ps. ps)
        (3 ∷ [])
        (register_segment
          (record no_segment { id = 8 ∷ []; max_key = 9 ∷ []; obsolete = false })
          tracker))
    ≡ true
unfolding covers key_ltb
get_segments_for_key-register_segment_example =
    get_segments_for_key-register_segment (λ less ps. ps) (3 ∷ []) tracker
      (record no_segment { id = 8 ∷ []; max_key = 9 ∷ []; obsolete = false }) (λ less ps q. refl)
