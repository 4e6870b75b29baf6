-- ===== src/Search.antt =====
-- `sort.Search` of Go's standard library, which the memtable and the sparse index call: the binary
-- search itself, with the number of calls of its predicate (the sparse index counts them).
pub mod Boundary
use amethyst.Base.{ℕ, zero, suc, ◌+◌, ◌/◌, Bool, true, false, ltb}

-- One round for each unit of fuel; `search_loop` starts with as many as there are positions.
pub search_loop : ℕ → (ℕ → Bool) → ℕ → ℕ → ℕ → ℕ × ℕ
search_loop zero f i j calls = (i, calls)
search_loop (suc fuel) f i j calls = elim (ltb i j) [
  | true ↦ elim (f ((i + j) / 2)) [
    | true ↦ search_loop fuel f i ((i + j) / 2) (calls + 1)
    | false ↦ search_loop fuel f ((i + j) / 2 + 1) j (calls + 1)
  ]
  | false ↦ (i, calls)
]

-- The position found, and the calls of `f` made.
unfoldable pub search_calls : ℕ → (ℕ → Bool) → ℕ × ℕ
unfolding search_loop
search_calls n f = search_loop n f 0 n 0

unfoldable pub search : ℕ → (ℕ → Bool) → ℕ
unfolding search_calls
search n f = (search_calls n f).0
