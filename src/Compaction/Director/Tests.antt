-- ===== src/Compaction/Director/Tests.antt =====
-- The director at a concrete tracker.
use amethyst.Base.{ℕ, ◌≡◌, refl, false, none, [], ◌∷◌, All, key_eqb}
use amethyst.Types.{SegmentMeta, tiered, leveled}
use amethyst.Metadata.{
  Tracker, no_segment, get_all_segments, get_overlapping_segments, live, overlapping,
}
use amethyst.Adaptive.Tests.{fractions, times}
use amethyst.Compaction.Director.{
  maybe_plan, maybe_plan_in, policy_plan, plan_leveled_compaction, plan_tiered_compaction, partner,
}
use amethyst.Compaction.Director.Sound.{IsSound, maybe_plan-IsSound}
use amethyst.Compaction.Director.Overlaps.{IfSome}
use amethyst.Compaction.Director.Complete.{IsAlone, maybe_plan-IsAlone}

abbrev segment_at : ℕ → ℕ → SegmentMeta
segment_at low high = record no_segment {
  id = low ∷ [];
  length = 10;
  min_key = low ∷ [];
  max_key = high ∷ [];
  obsolete = false;
}

-- two segments that overlap
abbrev crowded : Tracker
crowded = record {
  heap = segment_at 1 5 ∷ segment_at 3 8 ∷ [];
  segments = (1 ∷ [], 0) ∷ (3 ∷ [], 1) ∷ [];
  ordered = 1 ∷ 0 ∷ [];
}

maybe_plan-IsSound_example :
    IfSome
      (IsSound crowded)
      (maybe_plan fractions
        (λ m. m)
        (λ p. times)
        (λ less ps. ps)
        crowded
        (record { fsm = none; current_policy = leveled })).0
maybe_plan-IsSound_example =
    maybe_plan-IsSound fractions (λ m. m) (λ p. times) (λ less ps. ps) crowded
      (record { fsm = none; current_policy = leveled })

-- one segment
abbrev lonely : Tracker
lonely = record { heap = segment_at 1 5 ∷ []; segments = (1 ∷ [], 0) ∷ []; ordered = 0 ∷ [] }

no_plan :
    (maybe_plan fractions
      (λ m. m)
      (λ p. times)
      (λ less ps. ps)
      lonely
      (record { fsm = none; current_policy = tiered })).0
    ≡ none
unfolding maybe_plan maybe_plan_in policy_plan plan_leveled_compaction plan_tiered_compaction
    partner get_all_segments get_overlapping_segments live overlapping key_eqb
no_plan = refl

maybe_plan-IsAlone_example : All (IsAlone (λ m. m) lonely) (get_all_segments (λ less ps. ps) lonely)
maybe_plan-IsAlone_example =
    maybe_plan-IsAlone fractions (λ m. m) (λ p. times) (λ less ps. ps) lonely
      (record { fsm = none; current_policy = tiered }) no_plan
