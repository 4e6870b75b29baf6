-- ===== src/Driver/Zipf.antt =====
-- The index that the Zipfian draw gives.
use amethyst.Driver.Metrics.{weight, index_or, total_weight, zipfian_index, zipfian, Math}
use amethyst.Adaptive.{Float64}
use amethyst.Base.{inr, inl, Bool-cases, ◌≡◌, arith, ◌+◌, ◌<◌, ℕ, zero, suc}

module _ (f : Float64) (math : Math f) where
  zipfian_index-bound :
      (n left i : ℕ) (s r partial : f.Num)
      → 0 < n
      → 0 < i
      → i + left ≡ n + 1
      → index_or f math n (zipfian_index f math left i s r partial) < n
  unfolding zipfian_index
  zipfian_index-bound n zero i s r partial keys pos sum = omega (arith, keys)
  zipfian_index-bound n (suc left) i s r partial keys pos sum =
      let partial' = f.add partial (weight f math i s) in
      elim (Bool-cases (math.ge partial' r)) [
        | inl reached ↦ rw (index_or, reached) (omega (arith, pos, sum))
        | inr below ↦
            rw (index_or, below)
              (zipfian_index-bound n left (suc i) s r partial' keys (omega arith)
                (omega (arith, sum)))
      ]

  -- Whatever the arithmetic of floating-point numbers, NaN included: for at least one key the draw is
  -- the index of a key.
  pub zipfian-bounded : (u : f.Num) (n : ℕ) (s : f.Num) → 0 < n → zipfian f math u n s < n
  unfolding zipfian
  zipfian-bounded u n s keys =
      zipfian_index-bound n n 1 s (f.mul u (total_weight f math n 1 s (f.from_int 0)))
        (f.from_int 0) keys (omega arith) (omega arith)
