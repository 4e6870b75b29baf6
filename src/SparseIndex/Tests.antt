-- ===== src/SparseIndex/Tests.antt =====
-- The index's theorems at a concrete index.
use amethyst.Base.{ℕ, refl, ◌≤◌, List, [], ◌∷◌, Key, arith}
use amethyst.SparseIndex.{Builder, build, seek}
use amethyst.SparseIndex.Floor.{IsSeek, seek-IsFloor, seek_comparisons}

abbrev builder : Builder
builder = record { stride = 2 }

abbrev keys : List Key
keys = (1 ∷ []) ∷ (2 ∷ []) ∷ (3 ∷ []) ∷ []

abbrev offsets : List ℕ
offsets = 0 ∷ 10 ∷ 20 ∷ []

seek-IsFloor_example :
    IsSeek builder keys offsets (3 ∷ []) (seek (build builder keys offsets) (3 ∷ [])).0
seek-IsFloor_example = seek-IsFloor builder keys offsets (3 ∷ []) (omega arith) refl

seek_comparisons_example : (seek (build builder keys offsets) (3 ∷ [])).1 ≤ 2
seek_comparisons_example =
    seek_comparisons builder keys offsets (3 ∷ []) 2 (omega arith) (omega arith)
