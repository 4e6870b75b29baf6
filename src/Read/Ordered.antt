-- ===== src/Read/Ordered.antt =====
-- The tracker's list, newest segment first, and the segments that it gives for a key.
use mathlib.Core.Bool.{false≢true}
use amethyst.Memtable.Lookup.{find}
use amethyst.Types.{SegmentMeta}
use amethyst.Read.Held.{IsHeld, AllHeld, first_seen}
use amethyst.SparseIndex.{Builder}
use amethyst.Metadata.{at, Pointer}
use amethyst.Metadata.{Sort}
use amethyst.Metadata.{Tracker}
use amethyst.Metadata.{covers}
use amethyst.Metadata.{get_segments_for_key}
use amethyst.Metadata.{live_covering}
use amethyst.Metadata.{newer}
use amethyst.Types.{KvEntry}
use amethyst.Metadata.Query.{contains, contains-get_segments_for_key}
use mathlib.Core.Path.{subst}
use amethyst.Base.{
  some, Option, ◌∙◌, sym, key_ltb, none, inr, inl, false, Bool-cases, true, ◌<◌, arith, Bytes, All,
  Key, Bool, ◌≡◌, refl, List, [], ◌∷◌,
}
use amethyst.Sstable.RoundTrip.Skip.{find_below, find_above}

-- What sort.Slice does to a slice that is in strict order already.
abbrev pub InOrder : (Pointer → Pointer → Bool) → List Pointer → Type 0
InOrder less [] = Unit
InOrder less (p ∷ ps) = All (λ q. (less p q ≡ true) × (less q p ≡ false)) ps × InOrder less ps

-- A slice in which each item is less than all that follow, and none of these less than it, is sorted,
-- and no other order of it is: sort.Slice leaves it.
abbrev pub IsSorting : Sort → Type 0
IsSorting sort =
    (less : Pointer → Pointer → Bool) (ps : List Pointer) → InOrder less ps → sort less ps ≡ ps

-- The segments are all on level 0, and each is newer than those behind it.
abbrev pub Descending : Tracker → List Pointer → Type 0
Descending t [] = Unit
Descending t (p ∷ ps) =
    ((at t p).level ≡ 0) × All (λ q. (at t q).created_at < (at t p).created_at) ps × Descending t ps

abbrev IsNothing : Option KvEntry → Type 0
IsNothing none = Unit
IsNothing (some e) = ⊥

covered_All :
    (P : Pointer → Type 0) (key : Key) (t : Tracker) (ps : List Pointer)
    → All P ps
    → All P (live_covering key t ps)
unfolding live_covering
covered_All P key t [] h = tt
covered_All P key t (p ∷ ps) h = ground (arith, covered_All P key t ps h.1, h.0)

Descending-live_covering :
    (key : Key) (t : Tracker) (ps : List Pointer)
    → Descending t ps
    → Descending t (live_covering key t ps)
unfolding live_covering
Descending-live_covering key t [] h = tt
Descending-live_covering key t (p ∷ ps) h = ground (
  arith,
  Descending-live_covering key t ps h.2,
  covered_All (λ q. (at t q).created_at < (at t p).created_at) key t ps h.1,
)

newer_pair :
    (t : Tracker) (p q : Pointer)
    → (at t p).level ≡ 0
    → (at t q).level ≡ 0
    → (at t q).created_at < (at t p).created_at
    → (newer t p q ≡ true) × (newer t q p ≡ false)
unfolding newer
newer_pair t p q hp hq lt = ground arith

newer-All :
    (t : Tracker) (p : Pointer) (qs : List Pointer)
    → (at t p).level ≡ 0
    → Descending t qs
    → All (λ q. (at t q).created_at < (at t p).created_at) qs
    → All (λ q. (newer t p q ≡ true) × (newer t q p ≡ false)) qs
newer-All t p [] hp d h = tt
newer-All t p (q ∷ qs) hp d h = (newer_pair t p q hp d.0 h.0, newer-All t p qs hp d.2 h.1)

Descending-InOrder : (t : Tracker) (ps : List Pointer) → Descending t ps → InOrder (newer t) ps
Descending-InOrder t [] d = tt
Descending-InOrder t (p ∷ ps) d = (newer-All t p ps d.0 d.2 d.1, Descending-InOrder t ps d.2)

-- A segment whose range does not hold the key has no entry for it.
find-covers :
    (b : Builder) (content : Bytes) (m : SegmentMeta) (h : IsHeld b content m) (key : Key)
    → covers m key ≡ false
    → find (h.first ∷ h.others) key ≡ none
unfolding covers
find-covers b content m h key out = elim (Bool-cases (key_ltb key m.min_key)) [
  | inl low ↦ find_below h.first h.others key h.stored.sorted (rw h.stored.min_key at low)
  | inr in_low ↦ elim (Bool-cases (key_ltb m.max_key key)) [
    | inl high ↦ find_above h.first h.others key h.stored.sorted (rw h.stored.max_key at high)
    | inr in_high ↦ absurd (false≢true (sym out ∙ rw (in_low, in_high) refl))
  ]
]

-- The segments that serve the key say of it what all segments say.
covered_seen :
    (b : Builder) (content : Bytes) (key : Key) (t : Tracker) (ps : List Pointer)
    → (held : AllHeld b content t ps)
    → (held' : AllHeld b content t (live_covering key t ps)) × (first_seen b content t
          (live_covering key t ps)
          held'
          key
        ≡ first_seen b content t ps held key)
unfolding live_covering first_seen
covered_seen b content key t [] held = (tt, refl)
covered_seen b content key t (p ∷ ps) (h, held) =
    let (rest, same) = covered_seen b content key t ps held in
    elim (Bool-cases (covers (at t p) key)) [
      | inl inside ↦ rw (h.live, inside) ((h, rest), rw same refl)
      | inr outside ↦
          rw (h.live, outside, find-covers b content (at t p) h key outside) (rest, same)
    ]

-- The segments for the key are in order.
abbrev pub IsServing : Tracker → Key → Type 0
IsServing t key = InOrder (newer t) (live_covering key t t.ordered)

pub Descending-IsServing : (t : Tracker) (key : Key) → Descending t t.ordered → IsServing t key
Descending-IsServing t key d = Descending-InOrder t _ (Descending-live_covering key t t.ordered d)

-- Where the segments for the key are in order and the list is held, the tracker gives segments that are
-- held, and they say of the key what the whole list says.
pub get_segments_for_key_seen :
    (b : Builder) (content : Bytes) (sort : Sort) (key : Key) (t : Tracker)
    → IsSorting sort
    → IsServing t key
    → (held : AllHeld b content t t.ordered)
    → (held' : AllHeld b content t (get_segments_for_key sort key t)) × (first_seen b content t
          (get_segments_for_key sort key t)
          held'
          key
        ≡ first_seen b content t t.ordered held key)
unfolding get_segments_for_key
get_segments_for_key_seen b content sort key t sorting serving held =
    rw (sorting (newer t) (live_covering key t t.ordered) serving)
      (covered_seen b content key t t.ordered held)

-- With a sort that keeps the elements, GetSegmentsForKey gives every segment of the list that has an
-- entry for the key.
pub get_segments_for_key-find :
    (b : Builder) (content : Bytes) (sort : Sort) (key : Key) (t : Tracker) (p : Pointer)
    (e : KvEntry)
    → ((less : Pointer → Pointer → Bool) (ps : List Pointer) (q : Pointer)
        → contains q (sort less ps) ≡ contains q ps)
    → contains p t.ordered ≡ true
    → (h : IsHeld b content (at t p)) → find (h.first ∷ h.others) key ≡ some e
    → contains p (get_segments_for_key sort key t) ≡ true
get_segments_for_key-find b content sort key t p e keeps listed h there =
    elim (Bool-cases (covers (at t p) key)) [
      | inl inside ↦
          contains-get_segments_for_key sort key t p keeps ∙ rw (listed, h.live, inside) refl
      | inr outside ↦
          absurd (subst IsNothing (sym (find-covers b content (at t p) h key outside) ∙ there) tt)
    ]
