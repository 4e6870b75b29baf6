-- ===== src/SparseIndex.antt =====
-- amethyst/internal/sparseindex/sparseindex.go: every `stride`-th key of a segment with the offset
-- of its entry, and the search in it. The proofs are in the modules below.
pub mod Sample
pub mod Floor
pub mod Tests
use amethyst.Base.{
  ℕ, zero, suc, ◌+◌, ◌-◌, Bool, true, false, List, [], ◌∷◌, Key, ltb, leb, ◌==◌, if◌then◌else◌,
  length, get_or, key_ltb,
}
use amethyst.Search.{search_calls}

pub record SparseIndex : Type 0 where
  pub keys : List Key
  pub offsets : List ℕ

abbrev pub default_stride : ℕ
default_stride = 16

pub record Builder : Type 0 where
  pub stride : ℕ

-- `stride <= 0` is `stride == 0` here; a negative stride is treated by the code as 0 is.
unfoldable pub new_builder : ℕ → Builder
new_builder stride = record { stride = if stride == 0 then default_stride else stride }

-- `for i := 0; i < len(sortedKeys); i += stride`, over one of the two arrays. Each round of a
-- positive stride moves on, so the length is fuel enough.
pub sample {ℓ} : {A : Type ℓ} → ℕ → ℕ → List A → A → ℕ → List A
sample zero stride items default i = []
sample (suc fuel) stride items default i =
    let rest = sample fuel stride items default (i + stride) in
    if ltb i (length items) then get_or items i default ∷ rest else []

unfoldable pub build : Builder → List Key → List ℕ → SparseIndex
unfolding sample
build b sorted_keys offsets =
    if length sorted_keys == 0 then record { keys = []; offsets = [] } else record {
      keys = sample (length sorted_keys) b.stride sorted_keys [] 0;
      offsets = sample (length sorted_keys) b.stride offsets 0 0;
    }

-- The offset found, and the comparisons that the counter is increased by.
unfoldable pub seek : SparseIndex → Key → ℕ × ℕ
unfolding search_calls
seek s target =
    if length s.keys == 0
    then (0, 0)
    else (let (i, calls) =
          search_calls (length s.keys) (λ i. key_ltb target (get_or s.keys i [])) in
        (if i == 0 then 0 else get_or s.offsets (i - 1) 0, calls))
