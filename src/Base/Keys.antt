-- ===== src/Base/Keys.antt =====
-- Keys are Go strings: byte sequences, compared lexicographically.
use Prim.Native.Nat.{ℕ, compare, Ordering}
use mathlib.Core.Path.{◌≡◌, refl, ap}
use mathlib.Core.Bool.{Bool, true, false, not}
use mathlib.Core.List.{List, [], ◌∷◌}
use native.Mathlib.Omega.{arith}

abbrev pub Key : Type 0
Key = List ℕ

-- `a < b` on strings
unfoldable pub key_ltb : Key → Key → Bool
key_ltb [] [] = false
key_ltb [] (y ∷ ys) = true
key_ltb (x ∷ xs) [] = false
key_ltb (x ∷ xs) (y ∷ ys) = elim (compare x y) [
  | Ordering.lt ↦ true
  | Ordering.eq ↦ key_ltb xs ys
  | Ordering.gt ↦ false
]

-- `a == b` on strings
unfoldable pub key_eqb : Key → Key → Bool
key_eqb [] [] = true
key_eqb [] (y ∷ ys) = false
key_eqb (x ∷ xs) [] = false
key_eqb (x ∷ xs) (y ∷ ys) = elim (compare x y) [ Ordering.eq ↦ key_eqb xs ys | _ ↦ false ]

-- `a <= b`, which is `!(b < a)` on a linear order
abbrev pub key_leb : Key → Key → Bool
key_leb a b = not (key_ltb b a)

pub key_ltb_irrefl : (a : Key) → key_ltb a a ≡ false
unfolding key_ltb
key_ltb_irrefl [] = refl
key_ltb_irrefl (x ∷ xs) = ground (arith, key_ltb_irrefl xs)

pub key_ltb_trans : (a b c : Key) → key_ltb a b ≡ true → key_ltb b c ≡ true → key_ltb a c ≡ true
unfolding key_ltb
key_ltb_trans [] [] c h k = ground arith
key_ltb_trans [] (y ∷ ys) [] h k = ground arith
key_ltb_trans [] (y ∷ ys) (z ∷ zs) h k = refl
key_ltb_trans (x ∷ xs) [] c h k = ground arith
key_ltb_trans (x ∷ xs) (y ∷ ys) [] h k = ground arith
key_ltb_trans (x ∷ xs) (y ∷ ys) (z ∷ zs) h k = ground (arith, key_ltb_trans xs ys zs)

pub key_ltb_total : (a b : Key) → key_ltb a b ≡ false → key_ltb b a ≡ false → a ≡ b
unfolding key_ltb
key_ltb_total [] [] h k = refl
key_ltb_total [] (y ∷ ys) h k = ground arith
key_ltb_total (x ∷ xs) [] h k = ground arith
key_ltb_total (x ∷ xs) (y ∷ ys) h k = ground (arith, key_ltb_total xs ys)

pub key_eqb-eq : (a b : Key) → key_eqb a b ≡ true → a ≡ b
unfolding key_eqb
key_eqb-eq [] [] h = refl
key_eqb-eq [] (y ∷ ys) h = ground arith
key_eqb-eq (x ∷ xs) [] h = ground arith
key_eqb-eq (x ∷ xs) (y ∷ ys) h = ground (arith, key_eqb-eq xs ys)

pub key_eqb_refl : (a : Key) → key_eqb a a ≡ true
unfolding key_eqb
key_eqb_refl [] = refl
key_eqb_refl (x ∷ xs) = ground (arith, key_eqb_refl xs)

pub key_ltb_asym : (a b : Key) → key_ltb a b ≡ true → key_ltb b a ≡ false
key_ltb_asym a b h = ground (arith, key_ltb_irrefl a, key_ltb_trans a b a)

-- What is below `b` differs from `b`.
pub key_ltb-ne : (a b : Key) → key_ltb a b ≡ true → key_eqb a b ≡ false
key_ltb-ne a b h = ground (arith, key_eqb-eq a b, key_ltb_irrefl a, ap (key_ltb a))

pub key_eqb_comm : (a b : Key) → key_eqb a b ≡ key_eqb b a
key_eqb_comm a b = ground (arith, key_eqb-eq a b, key_eqb-eq b a, key_eqb_refl a, key_eqb_refl b)

pub key_lt_of_lt_of_le :
    (a b c : Key) → key_ltb a b ≡ true → key_ltb c b ≡ false → key_ltb a c ≡ true
key_lt_of_lt_of_le a b c h k = ground (arith, key_ltb_trans a b c, key_ltb_total b c)

pub key_ltb_of_ne : (a b : Key) → key_ltb a b ≡ false → key_eqb a b ≡ false → key_ltb b a ≡ true
key_ltb_of_ne a b h k = ground (arith, key_ltb_total a b, key_eqb_refl a, ap (key_eqb a))
