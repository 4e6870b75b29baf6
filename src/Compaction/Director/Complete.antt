-- ===== src/Compaction/Director/Complete.antt =====
-- When the director makes no plan.

use mathlib.Core.Logic.{◌⊎◌}
use amethyst.Base.{
  ◌≡◌, refl, true, false, Option, none, some, List, [], ◌∷◌, ◌==◌, length, All, arith, Bool-cases,
  inl, inr,
}
use amethyst.Types.{CompactionType, tiered, leveled}
use amethyst.Metadata.{
  Tracker, Pointer, Range, Sort, at, get_overlapping_segments, get_all_segments,
}
use amethyst.Adaptive.{Float64, FsmController, Times, Decision}
use amethyst.Compaction.Director.{
  Plan, Director, plan_tiered_compaction, plan_leveled_compaction, policy_plan, planned,
  maybe_plan_in, maybe_plan,
}

-- What keeps a segment out of a leveled plan: it is obsolete, or overlaps no other.
abbrev pub IsAlone : Range → Tracker → Pointer → Type 0
IsAlone range t p = ((at t p).obsolete ≡ true) ⊎ (get_overlapping_segments range p t ≡ [])

plan-none : (x : Plan) → some x ≡ none → ⊥
plan-none x e = ground (arith, e)

length_zero : (ps : List Pointer) → (length ps == 0) ≡ true → ps ≡ []
length_zero [] e = refl
length_zero (p ∷ ps) e = ground (arith, e)

plan_leveled_compaction-IsAlone :
    (range : Range) (t : Tracker) (ps : List Pointer)
    → plan_leveled_compaction range t ps ≡ none
    → All (IsAlone range t) ps
unfolding plan_leveled_compaction
plan_leveled_compaction-IsAlone range t [] e = tt
plan_leveled_compaction-IsAlone range t (p ∷ ps) e = elim (Bool-cases (at t p).obsolete) [
  | inl dead ↦ (inl dead, plan_leveled_compaction-IsAlone range t ps (rw dead at e))
  | inr live ↦ elim (Bool-cases (length (get_overlapping_segments range p t) == 0)) [
    | inl alone ↦ (
      inr (length_zero _ alone),
      plan_leveled_compaction-IsAlone range t ps (rw (live, alone) at e),
    )
    | inr some_others ↦ absurd (plan-none _ (rw (live, some_others) at e))
  ]
]

policy_none :
    (rest found : Option Plan)
    → (elim found [ none ↦ rest | some plan ↦ some plan ]) ≡ none
    → rest ≡ none
policy_none rest none e = e
policy_none rest (some plan) e = absurd (plan-none _ e)

policy_plan-none :
    (f : Float64) (range : Range) (s : CompactionType) (t : Tracker) (ps : List Pointer)
    → policy_plan f range s t ps ≡ none
    → plan_leveled_compaction range t ps ≡ none
unfolding policy_plan
policy_plan-none f range leveled t ps e = e
policy_plan-none f range tiered t ps e = policy_none _ (plan_tiered_compaction f t ps) e

planned-none :
    (f : Float64) (range : Range) (times : Pointer → Times) (t : Tracker) (ps : List Pointer)
    (s : CompactionType) (asked : Option (Pointer × Decision)) (c : FsmController)
    → (planned f range times t ps s (asked, c)).0 ≡ none
    → plan_leveled_compaction range t ps ≡ none
unfolding planned
planned-none f range times t ps s none c e = policy_plan-none f range s t ps e
planned-none f range times t ps s (some (p, d)) c e = absurd (plan-none _ e)

maybe_plan_in-none :
    (f : Float64) (range : Range) (times : Pointer → Times) (t : Tracker) (ps : List Pointer)
    (fsm : Option FsmController) (s : CompactionType)
    → (length ps == 0) ≡ false
    → (maybe_plan_in f range times t ps (record { fsm = fsm; current_policy = s })).0 ≡ none
    → plan_leveled_compaction range t ps ≡ none
unfolding maybe_plan_in
maybe_plan_in-none f range times t ps none s more e = policy_plan-none f range s t ps (rw more at e)
maybe_plan_in-none f range times t ps (some c) s more e =
    planned-none f range times t ps s _ _ (rw more at e)

maybe_plan_in-IsAlone :
    (f : Float64) (range : Range) (times : Pointer → Times) (t : Tracker) (ps : List Pointer)
    (fsm : Option FsmController) (s : CompactionType)
    → (maybe_plan_in f range times t ps (record { fsm = fsm; current_policy = s })).0 ≡ none
    → All (IsAlone range t) ps
maybe_plan_in-IsAlone f range times t [] fsm s e = tt
maybe_plan_in-IsAlone f range times t (p ∷ ps) fsm s e =
    plan_leveled_compaction-IsAlone range t (p ∷ ps)
      (maybe_plan_in-none f range times t (p ∷ ps) fsm s (ground arith) e)

-- Under either policy MaybePlan returns no plan only when no segment that the tracker lists overlaps
-- another one: none that is not obsolete has an overlapping segment.
pub maybe_plan-IsAlone :
    (f : Float64) (range : Range) (times : Pointer → Times) (sort : Sort) (t : Tracker)
    (d : Director)
    → (maybe_plan f range times sort t d).0 ≡ none
    → All (IsAlone range t) (get_all_segments sort t)
unfolding maybe_plan
maybe_plan-IsAlone f range times sort t d e =
    maybe_plan_in-IsAlone f range times t (get_all_segments sort t) d.fsm d.current_policy e
