-- ===== src/Compaction/Director.antt =====
-- amethyst/internal/compaction/director.go: the choice of the segments to merge. Segments are
-- pointers of the tracker; floating-point numbers, `sort.Slice` and the order of the map are
-- arguments, and the clock's readings are given for each segment that is asked about.
pub mod Overlaps
pub mod Sound
pub mod Complete
pub mod Tests
use amethyst.Base.{
  ℕ, ◌+◌, Bool, false, ◌&&◌, ◌||◌, not, Option, none, some, List, [], ◌∷◌, ◌++◌, Key, ltb, leb,
  ◌==◌, if◌then◌else◌, length, key_eqb,
}
use amethyst.Types.{CompactionType, tiered, leveled, SegmentMeta}
use amethyst.Metadata.{
  Tracker, Pointer, Range, Sort, at, get_all_segments, get_overlapping_segments,
}
use amethyst.Adaptive.{Float64, FsmController, Times, Decision, Reason, should_rewrite}

pub data PlanReason : Type 0 where
  strategy_switch : Reason → PlanReason
  similar_sizes overlapping_ranges : PlanReason

pub record Plan : Type 0 where
  pub inputs : List Pointer
  pub output_strategy : CompactionType
  pub reason : PlanReason
  pub target_level : ℕ

pub record Director : Type 0 where
  pub fsm : Option FsmController
  pub current_policy : CompactionType

unfoldable pub new_director : Option FsmController → Director
new_director fsm = record { fsm = fsm; current_policy = tiered }

abbrev pub max_inputs : ℕ
max_inputs = 50

unfoldable pub seen_id : Key → List Key → Bool
seen_id id [] = false
seen_id id (k ∷ ks) = key_eqb k id || seen_id id ks

-- The loop of `collectLimitedOverlaps`: the inputs so far, and the ids seen.
unfoldable pub collect : Tracker → ℕ → List Pointer → List Pointer → List Key → List Pointer
unfolding seen_id
collect t max_segments [] inputs seen = inputs
collect t max_segments (p ∷ ps) inputs seen =
    let skip = collect t max_segments ps inputs seen in
    let rest = collect t max_segments ps (inputs ++ (p ∷ [])) ((at t p).id ∷ seen) in
    if not (seen_id (at t p).id seen) && not (at t p).obsolete
    then (if leb max_segments (length inputs + 1) then inputs ++ (p ∷ []) else rest)
    else skip

unfoldable pub collect_limited_overlaps : Range → Pointer → ℕ → Tracker → List Pointer
unfolding collect
collect_limited_overlaps range target max_segments t =
    let limit = if ltb max_inputs max_segments then max_inputs else max_segments in
    collect t limit (get_overlapping_segments range target t) (target ∷ []) ((at t target).id ∷ [])

module _ (f : Float64) where
  -- The test `sizeRatio < 2.0 && sizeRatio > 0.5`.
  unfoldable pub similar : SegmentMeta → SegmentMeta → Bool
  similar a b =
      let ratio = f.div (f.from_int a.length) (f.from_int b.length) in
      f.lt ratio (f.literal 2 1) && f.lt (f.literal 1 2) ratio

  -- The inner loop: the first candidate behind `p` that fits.
  unfoldable pub partner : Tracker → Pointer → List Pointer → Option Pointer
  unfolding similar
  partner t p [] = none
  partner t p (q ∷ qs) =
      let rest = partner t p qs in
      if (at t q).obsolete || not ((at t p).level == (at t q).level)
      then rest
      else if similar (at t p) (at t q)
      then some q
      else rest

  unfoldable pub plan_tiered_compaction : Tracker → List Pointer → Option Plan
  plan_tiered_compaction t [] = none
  plan_tiered_compaction t (p ∷ ps) =
      let rest = plan_tiered_compaction t ps in
      if (at t p).obsolete then rest else elim (partner t p ps) [
        | none ↦ rest
        | some q ↦ some (record {
          inputs = p ∷ q ∷ [];
          output_strategy = tiered;
          reason = similar_sizes;
          target_level = (at t p).level;
        })
      ]

unfoldable pub plan_leveled_compaction : Range → Tracker → List Pointer → Option Plan
plan_leveled_compaction range t [] = none
plan_leveled_compaction range t (p ∷ ps) =
    let rest = plan_leveled_compaction range t ps in
    if (at t p).obsolete || length (get_overlapping_segments range p t) == 0
    then rest
    else some (record {
      inputs = collect_limited_overlaps range p max_inputs t;
      output_strategy = leveled;
      reason = overlapping_ranges;
      target_level = (at t p).level + 1;
    })

-- The plan of a switch to the given strategy.
unfoldable pub switch_plan : Range → Tracker → Pointer → CompactionType → Reason → Plan
switch_plan range t p leveled why = record {
  inputs = collect_limited_overlaps range p max_inputs t;
  output_strategy = leveled;
  reason = strategy_switch why;
  target_level = (at t p).level + 1;
}
switch_plan range t p tiered why = record {
  inputs = p ∷ [];
  output_strategy = tiered;
  reason = strategy_switch why;
  target_level = (at t p).level;
}

-- What the policy plans where the controller asks for no switch.
unfoldable pub policy_plan : Float64 → Range → CompactionType → Tracker → List Pointer → Option Plan
policy_plan f range tiered t segments = elim (plan_tiered_compaction f t segments) [
  | none ↦ plan_leveled_compaction range t segments
  | some plan ↦ some plan
]
policy_plan f range leveled t segments = plan_leveled_compaction range t segments

module _ (f : Float64) (range : Range) (times : Pointer → Times) where
  -- The loop that asks the controller: the segment and its decision where it asks for a switch.
  unfoldable pub ask :
      Tracker → List Pointer → FsmController → Option (Pointer × Decision) × FsmController
  ask t [] c = (none, c)
  ask t (p ∷ ps) c =
      let skip = ask t ps c in
      let (d, c') = should_rewrite f (times p) (at t p) c in
      let rest = ask t ps c' in
      if (at t p).obsolete then skip else if d.rewrite then (some (p, d), c') else rest

  unfoldable pub planned :
      Tracker
      → List Pointer
      → CompactionType
      → Option (Pointer × Decision) × FsmController
      → Option Plan × Director
  unfolding switch_plan policy_plan
  planned t segments policy (some (p, d), c) = (
    some (switch_plan range t p d.strategy d.reason),
    record { fsm = some c; current_policy = d.strategy },
  )
  planned t segments policy (none, c) =
      (policy_plan f range policy t segments, record { fsm = some c; current_policy = policy })

  unfoldable pub maybe_plan_in : Tracker → List Pointer → Director → Option Plan × Director
  unfolding ask planned
  maybe_plan_in t segments d = if length segments == 0 then (none, d) else elim d.fsm [
    | none ↦ (policy_plan f range d.current_policy t segments, d)
    | some c ↦ planned t segments d.current_policy (ask t segments c)
  ]

  unfoldable pub maybe_plan : Sort → Tracker → Director → Option Plan × Director
  unfolding maybe_plan_in
  maybe_plan sort t d = maybe_plan_in t (get_all_segments sort t) d

abbrev pub get_current_policy : Director → CompactionType
get_current_policy d = d.current_policy
