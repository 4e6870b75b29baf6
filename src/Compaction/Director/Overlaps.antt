-- ===== src/Compaction/Director/Overlaps.antt =====
-- The segments that join the first input of a plan.
use amethyst.Base.{
  ℕ, ◌+◌, ◌≤◌, ◌<◌, ◌≡◌, refl, true, false, ◌&&◌, not, Option, none, some, List, [], ◌∷◌, ◌++◌, Key,
  leb, length, All, All-append, arith, Bool-cases, inl, inr, length-append,
}
use amethyst.Types.{CompactionType, tiered, leveled}
use amethyst.Metadata.{
  Tracker, Pointer, Range, SegmentMap, at, overlaps, overlapping, get_overlapping_segments,
}
use amethyst.Adaptive.{Float64}
use amethyst.Compaction.Director.{seen_id, collect, collect_limited_overlaps, partner, max_inputs}

-- What holds of the value, if there is one.
abbrev pub IfSome {ℓ κ} : {A : Type ℓ} → (A → Type κ) → Option A → Type κ
IfSome P none = Unit
IfSome P (some x) = P x

-- What an input of a plan has in common with the first one.
abbrev pub Joins : CompactionType → Tracker → Pointer → Pointer → Type 0
Joins tiered t p q = (at t p).level ≡ (at t q).level
Joins leveled t p q = overlaps (at t p) (at t q) ≡ true

abbrev pub level_for : CompactionType → ℕ → ℕ
level_for tiered n = n
level_for leveled n = n + 1

abbrev pub IsLive : Tracker → Pointer → Type 0
IsLive t p = (at t p).obsolete ≡ false

abbrev pub Other : CompactionType → Tracker → Pointer → Pointer → Type 0
Other s t p q = IsLive t q × Joins s t p q

overlapping-Other :
    (t : Tracker) (p : Pointer) (m : SegmentMap)
    → All (Other leveled t p) (overlapping (at t p) t m)
unfolding overlapping
overlapping-Other t p [] = tt
overlapping-Other t p ((k, q) ∷ rest) = ground (arith, overlapping-Other t p rest)

-- What the loop of the overlaps adds to the inputs.
pub record IsCollected (P : Pointer → Type 0) (limit : ℕ) (p : Pointer) (inputs : List Pointer)
    : Type 0 where
  pub others : List Pointer
  pub split : inputs ≡ p ∷ others
  pub all : All P others
  pub few : length inputs ≤ limit

collect-IsCollected :
    (t : Tracker) (P : Pointer → Type 0) (limit : ℕ) (p : Pointer) (qs acc : List Pointer)
    (seen : List Key)
    → All P qs
    → All P acc
    → length (p ∷ acc) < limit
    → IsCollected P limit p (collect t limit qs (p ∷ acc) seen)
unfolding collect
collect-IsCollected t P limit p [] acc seen hs ha lt = record {
  others = acc;
  split = refl;
  all = ha;
  few = omega (arith, lt);
}
collect-IsCollected t P limit p (q ∷ qs) acc seen hs ha lt =
    let added = All-append P acc (q ∷ []) ha (hs.0, tt) in
    let long = length-append {0} acc (q ∷ []) in
    elim (Bool-cases (not (seen_id (at t q).id seen) && not (at t q).obsolete)) [
      | inr skip ↦ rw skip (collect-IsCollected t P limit p qs acc seen hs.1 ha lt)
      | inl new ↦ elim (Bool-cases (leb limit (length (p ∷ acc) + 1))) [
        | inl full ↦
            rw (new, full)
              (record {
                others = acc ++ (q ∷ []);
                split = refl;
                all = added;
                few = omega (arith, lt, long);
              })
        | inr room ↦
            rw (new, room)
              (collect-IsCollected t P limit p qs (acc ++ (q ∷ [])) ((at t q).id ∷ seen) hs.1 added
                (ground (arith, long)))
      ]
    ]

pub partner-Other :
    (f : Float64) (t : Tracker) (p : Pointer) (qs : List Pointer)
    → IfSome (Other tiered t p) (partner f t p qs)
unfolding partner
partner-Other f t p [] = tt
partner-Other f t p (q ∷ qs) = ground (arith, partner-Other f t p qs)

pub collect_limited_overlaps-IsCollected :
    (range : Range) (t : Tracker) (p : Pointer)
    → IsCollected (Other leveled t p) max_inputs p (collect_limited_overlaps range p max_inputs t)
unfolding collect_limited_overlaps get_overlapping_segments
collect_limited_overlaps-IsCollected range t p =
    collect-IsCollected t (Other leveled t p) max_inputs p _ [] _
      (overlapping-Other t p (range t.segments)) tt (omega arith)
