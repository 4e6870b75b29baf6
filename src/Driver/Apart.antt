-- ===== src/Driver/Apart.antt =====
-- Segments whose ranges are apart, as writes in the order of their keys leave them.
use amethyst.Base.{
  inr, key_lt_of_lt_of_le, inl, arith, Bool-cases, true, false, Key, key_ltb, List, [], ◌∷◌, All,
  ◌≡◌, refl,
}
use amethyst.Metadata.{Tracker, Pointer, at, live_covering, covers, newer}
use amethyst.Driver.{Driver}
use amethyst.Read.Ordered.{InOrder, IsServing}

-- The ranges of the segments are apart, the later ones in the list below the earlier ones.
abbrev pub Apart : Tracker → List Pointer → Type 0
Apart t [] = Unit
Apart t (p ∷ ps) = All (λ q. key_ltb (at t q).max_key (at t p).min_key ≡ true) ps × Apart t ps

-- No segment below a range that starts at the key or before holds the key.
live_covering-below :
    (t : Tracker) (key low : Key) (ps : List Pointer)
    → key_ltb key low ≡ false
    → All (λ q. key_ltb (at t q).max_key low ≡ true) ps
    → live_covering key t ps ≡ []
unfolding live_covering covers
live_covering-below t key low [] from h = refl
live_covering-below t key low (p ∷ ps) from h = ground (
  arith,
  live_covering-below t key low ps from h.1,
  key_lt_of_lt_of_le (at t p).max_key low key h.0 from,
)

Apart-InOrder :
    (t : Tracker) (key : Key) (ps : List Pointer)
    → Apart t ps
    → InOrder (newer t) (live_covering key t ps)
unfolding live_covering covers
Apart-InOrder t key [] d = tt
Apart-InOrder t key (p ∷ ps) d = elim (Bool-cases (at t p).obsolete) [
  | inl dead ↦ rw dead (Apart-InOrder t key ps d.1)
  | inr live ↦ elim (Bool-cases (covers (at t p) key)) [
    | inr outside ↦ rw (live, outside) (Apart-InOrder t key ps d.1)
    | inl inside ↦
        rw
          (live, inside, live_covering-below t key (at t p).min_key ps (ground (arith, inside)) d.0)
          (tt, tt)
  ]
]

pub Apart-IsServing : (t : Tracker) (key : Key) → Apart t t.ordered → IsServing t key
Apart-IsServing t key d = Apart-InOrder t key t.ordered d

-- The segments are apart, and below the entries of the memtable.
pub record IsApart (s : Driver) : Type 0 where
  pub apart : Apart s.tracker s.tracker.ordered
  pub above :
      All
        (λ e. All (λ q. key_ltb (at s.tracker q).max_key e.key ≡ true) s.tracker.ordered)
        s.mem.entries

-- All that the store holds is below the key.
pub record IsBounded (k : Key) (s : Driver) : Type 0 where
  pub segments : All (λ q. key_ltb (at s.tracker q).max_key k ≡ true) s.tracker.ordered
  pub entries : All (λ e. key_ltb e.key k ≡ true) s.mem.entries
