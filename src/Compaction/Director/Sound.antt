-- ===== src/Compaction/Director/Sound.antt =====
-- What a plan of the director holds.
use amethyst.Base.{
  ◌+◌, ◌≤◌, ◌≡◌, refl, Option, none, some, List, [], ◌∷◌, ◌==◌, length, All, arith, Bool-cases, inl,
  inr,
}
use amethyst.Types.{CompactionType, tiered, leveled}
use amethyst.Metadata.{
  Tracker, Pointer, Range, Sort, at, get_overlapping_segments, get_all_segments,
}
use amethyst.Adaptive.{Float64, FsmController, Times, Decision, Reason, should_rewrite}
use amethyst.Compaction.Director.{
  Plan, Director, PlanReason, strategy_switch, similar_sizes, overlapping_ranges,
  collect_limited_overlaps, partner, plan_tiered_compaction, plan_leveled_compaction, switch_plan,
  policy_plan, ask, planned, maybe_plan_in, maybe_plan, max_inputs,
}
use amethyst.Compaction.Director.Overlaps.{
  IfSome, Joins, level_for, IsLive, Other, partner-Other, collect_limited_overlaps-IsCollected,
}

-- The inputs are live, 50 at most, and belong to the first one; the output goes one level down in a
-- leveled plan only.
pub record IsSound (t : Tracker) (plan : Plan) : Type 0 where
  pub first : Pointer
  pub others : List Pointer
  pub inputs : plan.inputs ≡ first ∷ others
  pub live : IsLive t first
  pub others_live : All (λ q. IsLive t q × Joins plan.output_strategy t first q) others
  pub few : length plan.inputs ≤ max_inputs
  pub level : plan.target_level ≡ level_for plan.output_strategy (at t first).level

-- A leveled plan around a live segment.
leveled-IsSound :
    (range : Range) (t : Tracker) (p : Pointer) (why : PlanReason)
    → IsLive t p
    → IsSound t (record {
      inputs = collect_limited_overlaps range p max_inputs t;
      output_strategy = leveled;
      reason = why;
      target_level = (at t p).level + 1;
    })
leveled-IsSound range t p why live =
    let c = collect_limited_overlaps-IsCollected range t p in
    record {
      first = p;
      others = c.others;
      inputs = c.split;
      live = live;
      others_live = c.all;
      few = c.few;
      level = refl;
    }

switch_plan-IsSound :
    (range : Range) (t : Tracker) (p : Pointer) (s : CompactionType) (why : Reason)
    → IsLive t p
    → IsSound t (switch_plan range t p s why)
unfolding switch_plan
switch_plan-IsSound range t p leveled why live =
    leveled-IsSound range t p (strategy_switch why) live
switch_plan-IsSound range t p tiered why live = record {
  first = p;
  others = [];
  inputs = refl;
  live = live;
  others_live = tt;
  few = omega arith;
  level = refl;
}

tiered_found :
    (t : Tracker) (p : Pointer) (rest : Option Plan) (found : Option Pointer)
    → IsLive t p
    → IfSome (Other tiered t p) found
    → IfSome (IsSound t) rest
    → IfSome (IsSound t) (elim found [
      | none ↦ rest
      | some q ↦ some (record {
        inputs = p ∷ q ∷ [];
        output_strategy = tiered;
        reason = similar_sizes;
        target_level = (at t p).level;
      })
    ])
tiered_found t p rest none live h hr = hr
tiered_found t p rest (some q) live h hr = record {
  first = p;
  others = q ∷ [];
  inputs = refl;
  live = live;
  others_live = (h, tt);
  few = omega arith;
  level = refl;
}

plan_tiered_compaction-IsSound :
    (f : Float64) (t : Tracker) (ps : List Pointer)
    → IfSome (IsSound t) (plan_tiered_compaction f t ps)
unfolding plan_tiered_compaction
plan_tiered_compaction-IsSound f t [] = tt
plan_tiered_compaction-IsSound f t (p ∷ ps) =
    let rest = plan_tiered_compaction-IsSound f t ps in
    elim (Bool-cases (at t p).obsolete) [
      | inl dead ↦ rw dead rest
      | inr live ↦
          rw live (tiered_found t p _ (partner f t p ps) live (partner-Other f t p ps) rest)
    ]

plan_leveled_compaction-IsSound :
    (range : Range) (t : Tracker) (ps : List Pointer)
    → IfSome (IsSound t) (plan_leveled_compaction range t ps)
unfolding plan_leveled_compaction
plan_leveled_compaction-IsSound range t [] = tt
plan_leveled_compaction-IsSound range t (p ∷ ps) =
    let rest = plan_leveled_compaction-IsSound range t ps in
    elim (Bool-cases (at t p).obsolete) [
      | inl dead ↦ rw dead rest
      | inr live ↦ elim (Bool-cases (length (get_overlapping_segments range p t) == 0)) [
        | inl alone ↦ rw (live, alone) rest
        | inr some_others ↦
            rw (live, some_others) (leveled-IsSound range t p overlapping_ranges live)
      ]
    ]

policy_found :
    (t : Tracker) (rest found : Option Plan)
    → IfSome (IsSound t) found
    → IfSome (IsSound t) rest
    → IfSome (IsSound t) (elim found [ none ↦ rest | some plan ↦ some plan ])
policy_found t rest none h hr = hr
policy_found t rest (some plan) h hr = h

policy_plan-IsSound :
    (f : Float64) (range : Range) (s : CompactionType) (t : Tracker) (ps : List Pointer)
    → IfSome (IsSound t) (policy_plan f range s t ps)
unfolding policy_plan
policy_plan-IsSound f range leveled t ps = plan_leveled_compaction-IsSound range t ps
policy_plan-IsSound f range tiered t ps =
    policy_found t (plan_leveled_compaction range t ps) (plan_tiered_compaction f t ps)
      (plan_tiered_compaction-IsSound f t ps) (plan_leveled_compaction-IsSound range t ps)

-- The controller is asked about live segments only.
ask-IsLive :
    (f : Float64) (range : Range) (times : Pointer → Times) (t : Tracker) (ps : List Pointer)
    (c : FsmController)
    → IfSome (λ x. IsLive t x.0) (ask f range times t ps c).0
unfolding ask
ask-IsLive f range times t [] c = tt
ask-IsLive f range times t (p ∷ ps) c = elim (Bool-cases (at t p).obsolete) [
  | inl dead ↦ rw dead (ask-IsLive f range times t ps c)
  | inr live ↦ elim (Bool-cases (should_rewrite f (times p) (at t p) c).0.rewrite) [
    | inl asked ↦ rw (live, asked) live
    | inr quiet ↦
        rw (live, quiet) (ask-IsLive f range times t ps (should_rewrite f (times p) (at t p) c).1)
  ]
]

planned-IsSound :
    (f : Float64) (range : Range) (times : Pointer → Times) (t : Tracker) (ps : List Pointer)
    (s : CompactionType) (asked : Option (Pointer × Decision)) (c : FsmController)
    → IfSome (λ x. IsLive t x.0) asked
    → IfSome (IsSound t) (planned f range times t ps s (asked, c)).0
unfolding planned
planned-IsSound f range times t ps s none c h = policy_plan-IsSound f range s t ps
planned-IsSound f range times t ps s (some (p, d)) c h =
    switch_plan-IsSound range t p d.strategy d.reason h

maybe_plan_in-IsSound :
    (f : Float64) (range : Range) (times : Pointer → Times) (t : Tracker) (ps : List Pointer)
    (fsm : Option FsmController) (s : CompactionType)
    → IfSome
        (IsSound t)
        (maybe_plan_in f range times t ps (record { fsm = fsm; current_policy = s })).0
unfolding maybe_plan_in
maybe_plan_in-IsSound f range times t ps none s = elim (Bool-cases (length ps == 0)) [
  | inl empty ↦ rw empty tt
  | inr more ↦ rw more (policy_plan-IsSound f range s t ps)
]
maybe_plan_in-IsSound f range times t ps (some c) s = elim (Bool-cases (length ps == 0)) [
  | inl empty ↦ rw empty tt
  | inr more ↦ rw more (planned-IsSound f range times t ps s _ _ (ask-IsLive f range times t ps c))
]

-- A plan that MaybePlan returns has between 1 and 50 inputs, none of them obsolete. In a tiered plan
-- all of them have the level of the first one, which is the target; in a leveled plan all the others
-- overlap the first one, and the target is one level below it.
pub maybe_plan-IsSound :
    (f : Float64) (range : Range) (times : Pointer → Times) (sort : Sort) (t : Tracker)
    (d : Director)
    → IfSome (IsSound t) (maybe_plan f range times sort t d).0
unfolding maybe_plan
maybe_plan-IsSound f range times sort t d =
    maybe_plan_in-IsSound f range times t (get_all_segments sort t) d.fsm d.current_policy
