-- ===== src/Search/Boundary.antt =====
-- Where `search` stops, whatever the predicate, and how often it calls it.
use amethyst.Base.{
  ℕ, zero, suc, ◌+◌, ◌-◌, ◌/◌, ◌^◌, ◌≤◌, ◌<◌, ◌≡◌, refl, ◌⊎◌, inl, inr, Bool, true, false, ltb,
  arith, Bool-cases,
}
use amethyst.Search.{search_loop, search_calls, search}

-- The predicate fails just below `r`, and holds at `r` unless `r` is the end.
pub record IsBoundary (f : ℕ → Bool) (n r : ℕ) : Type 0 where
  pub bound : r ≤ n
  pub low : (r ≡ 0) ⊎ (f (r - 1) ≡ false)
  pub high : (r ≡ n) ⊎ (f r ≡ true)

-- one round keeps the two ends of the invariant
middle_low : (f : ℕ → Bool) (h : ℕ) → f h ≡ false → (h + 1 ≡ 0) ⊎ (f (h + 1 - 1) ≡ false)
middle_low f h e = let same : h + 1 - 1 ≡ h = omega arith in inr (rw same e)

search_loop-IsBoundary :
    (fuel : ℕ) (f : ℕ → Bool) (n i j calls : ℕ)
    → i ≤ j
    → j ≤ n
    → j ≤ i + fuel
    → (i ≡ 0) ⊎ (f (i - 1) ≡ false)
    → (j ≡ n) ⊎ (f j ≡ true)
    → IsBoundary f n (search_loop fuel f i j calls).0
unfolding search_loop
search_loop-IsBoundary zero f n i j calls ij jn fit lo hi =
    let same : j ≡ i = omega arith in record { bound = omega arith; low = lo; high = rw same at hi }
search_loop-IsBoundary (suc fuel) f n i j calls ij jn fit lo hi = elim (Bool-cases (ltb i j)) [
  | inr done ↦
      let same : j ≡ i = ground arith in
      rw (done, search_loop) (record { bound = omega arith; low = lo; high = rw same at hi })
  | inl more ↦ elim (Bool-cases (f ((i + j) / 2))) [
    | inl here ↦
        rw (more, search_loop, here)
          (search_loop-IsBoundary fuel f n i ((i + j) / 2) (calls + 1) (omega arith) (omega arith)
            (ground arith) lo (inr here))
    | inr above ↦
        rw (more, search_loop, above)
          (search_loop-IsBoundary fuel f n ((i + j) / 2 + 1) j (calls + 1) (ground arith) jn
            (ground arith) (middle_low f ((i + j) / 2) above) hi)
  ]
]

-- Whatever the predicate, the fuel suffices and the search stops at a boundary.
pub search-IsBoundary : (n : ℕ) (f : ℕ → Bool) → IsBoundary f n (search n f)
unfolding search
search-IsBoundary n f =
    search_loop-IsBoundary n f n 0 n 0 (omega arith) (omega arith) (omega arith) (inl refl)
      (inl refl)

search_loop_calls :
    (fuel : ℕ) (f : ℕ → Bool) (k i j calls : ℕ)
    → j < i + 2 ^ k
    → (search_loop fuel f i j calls).1 ≤ calls + k
unfolding search_loop
search_loop_calls zero f k i j calls h = omega arith
search_loop_calls (suc fuel) f zero i j calls h = ground arith
search_loop_calls (suc fuel) f (suc k) i j calls h = ground (
  arith,
  search_loop_calls fuel f k i ((i + j) / 2) (calls + 1),
  search_loop_calls fuel f k ((i + j) / 2 + 1) j (calls + 1),
)

-- A range of fewer than 2 ^ k positions takes at most k calls.
pub search_calls-le : (n k : ℕ) (f : ℕ → Bool) → n < 2 ^ k → (search_calls n f).1 ≤ k
unfolding search_calls
search_calls-le n k f h = let b = search_loop_calls n f k 0 n 0 (omega arith) in omega (arith, b)
