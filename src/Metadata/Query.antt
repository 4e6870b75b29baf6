-- ===== src/Metadata/Query.antt =====
-- The segments that the tracker gives for a key.
use mathlib.Core.Path.{subst}
use amethyst.Base.{
  ◌≡◌, refl, ◌∙◌, ap, inl, inr, Bool, true, false, ◌&&◌, ◌||◌, not, List, [], ◌∷◌, ◌++◌, Key, ◌==◌,
  ==_iff, if◌then◌else◌, length, get_or, Bool-cases, arith,
}
use amethyst.Types.{SegmentMeta}
use amethyst.Metadata.{
  Tracker, Pointer, Sort, at, no_segment, covers, live_covering, get_segments_for_key,
  register_segment, count_overlaps,
}

unfoldable pub contains : Pointer → List Pointer → Bool
contains p [] = false
contains p (q ∷ qs) = p == q || contains p qs

-- what the loop lets through
abbrev pub serves : SegmentMeta → Key → Bool
serves m key = not m.obsolete && covers m key

contains-live_covering :
    (key : Key) (t : Tracker) (ps : List Pointer) (p : Pointer)
    → contains p (live_covering key t ps) ≡ (contains p ps && serves (at t p) key)
unfolding contains live_covering
contains-live_covering key t [] p = refl
contains-live_covering key t (q ∷ qs) p = elim (Bool-cases (p == q)) [
  | inl same ↦
      subst
        (λ x.
          contains p (
            if (at t x).obsolete
            then live_covering key t qs
            else if covers (at t x) key
            then x ∷ live_covering key t qs
            else live_covering key t qs)
          ≡ ((p == x || contains p qs) && serves (at t p) key))
        ((==_iff p q).0 same) (ground (arith, contains-live_covering key t qs p))
  | inr other ↦ ground (arith, other, contains-live_covering key t qs p)
]

-- With a sort that keeps the elements, GetSegmentsForKey gives a segment exactly when it is registered,
-- not obsolete, and the key is within its range.
pub contains-get_segments_for_key :
    (sort : Sort) (key : Key) (t : Tracker) (p : Pointer)
    → ((less : Pointer → Pointer → Bool) (ps : List Pointer) (q : Pointer)
        → contains q (sort less ps) ≡ contains q ps)
    → contains p (get_segments_for_key sort key t) ≡ (contains p t.ordered && serves (at t p) key)
unfolding get_segments_for_key
contains-get_segments_for_key sort key t p keeps =
    keeps _ (live_covering key t t.ordered) p ∙ contains-live_covering key t t.ordered p

pub get_or-append :
    (heap : List SegmentMeta) (m d : SegmentMeta) → get_or (heap ++ (m ∷ [])) (length heap) d ≡ m
get_or-append [] m d = refl
get_or-append (x ∷ xs) m d = get_or-append xs m d

contains-register_segment :
    (m : SegmentMeta) (t : Tracker) → contains (length t.heap) (register_segment m t).ordered ≡ true
unfolding contains register_segment
contains-register_segment m t = ground arith

serves-register_segment :
    (m : SegmentMeta) (t : Tracker) (key : Key)
    → serves (at (register_segment m t) (length t.heap)) key ≡ serves m key
unfolding register_segment covers
serves-register_segment m t key =
    ap (λ x. serves x key)
      (get_or-append t.heap (record m { overlap_count = count_overlaps m t t.segments }) no_segment)

-- With a sort that keeps the elements, a segment that has just been registered is among those that
-- GetSegmentsForKey gives exactly when it is not obsolete and the key is within its range.
pub get_segments_for_key-register_segment :
    (sort : Sort) (key : Key) (t : Tracker) (m : SegmentMeta)
    → ((less : Pointer → Pointer → Bool) (ps : List Pointer) (q : Pointer)
        → contains q (sort less ps) ≡ contains q ps)
    → contains (length t.heap) (get_segments_for_key sort key (register_segment m t)) ≡ serves m key
get_segments_for_key-register_segment sort key t m keeps =
    contains-get_segments_for_key sort key (register_segment m t) (length t.heap) keeps
    ∙ rw (contains-register_segment m t) (serves-register_segment m t key)
