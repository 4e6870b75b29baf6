-- ===== src/Driver/Format.antt =====
-- The keys of the workloads: `fmt.Sprintf("key-%010d", i)`.
use amethyst.Base.{
  ℕ, zero, suc, ◌+◌, ◌-◌, ◌/◌, ◌%◌, true, false, [], ◌∷◌, ◌++◌, Key, ltb, length, replicate,
}

-- The decimal digits without leading zeros. A round divides by ten: a round for each unit is enough.
unfoldable pub digits : ℕ → ℕ → Key
digits zero n = []
digits (suc fuel) n = elim (ltb n 10) [
  | true ↦ (b'0' + n) ∷ []
  | false ↦ digits fuel (n / 10) ++ ((b'0' + n % 10) ∷ [])
]

-- `%010d`
unfoldable pub padded : ℕ → Key
unfolding digits
padded n = let text = digits (suc n) n in replicate (10 - length text) b'0' ++ text

unfoldable pub format_key : ℕ → Key
unfolding padded
format_key n = b'k' ∷ b'e' ∷ b'y' ∷ b'-' ∷ padded n
