-- ===== src/Driver/Order.antt =====
-- The order of the workloads' keys and of their numbers.
use Prim.Native.Nat.{zero}
use amethyst.Driver.Format.{padded, format_key, digits}
use amethyst.Base.{
  ◌||◌, ◌==◌, ◌&&◌, key_ltb, key_eqb, true, false, ap, ◌∙◌, append_assoc, sym, inr, inl, ltb,
  Bool-cases, ◌-◌, ◌%◌, ◌≤◌, ◌+◌, length-append, ◌^◌, ◌/◌, arith, ◌<◌, ◌++◌, suc, replicate, length,
  Key, ℕ, ◌≡◌, refl, [], ◌∷◌,
}

-- The reference: exactly `k` digits.
unfoldable pub fixed : ℕ → ℕ → Key
fixed zero n = []
fixed (suc k) n = fixed k (n / 10) ++ ((b'0' + n % 10) ∷ [])

length-fixed : (k n : ℕ) → length (fixed k n) ≡ k
unfolding fixed
length-fixed zero n = refl
length-fixed (suc k) n =
    omega
      (arith, length-fixed k (n / 10), length-append {0} (fixed k (n / 10)) ((b'0' + n % 10) ∷ []))

replicate_snoc : (k x : ℕ) → replicate k x ++ (x ∷ []) ≡ replicate (suc k) x
replicate_snoc zero x = refl
replicate_snoc (suc k) x = rw (replicate_snoc k x) refl

fixed_zero : (k : ℕ) → fixed k 0 ≡ replicate k b'0'
unfolding fixed
fixed_zero zero = refl
fixed_zero (suc k) = rw (fixed_zero k) (replicate_snoc k b'0')

digits_small : (fuel n : ℕ) → ltb n 10 ≡ true → digits (suc fuel) n ≡ (b'0' + n) ∷ []
unfolding digits
digits_small fuel n small =
    ap
      (λ b. elim b [
        | true ↦ (b'0' + n) ∷ []
        | false ↦ digits fuel (n / 10) ++ ((b'0' + n % 10) ∷ [])
      ])
      small

digits_large :
    (fuel n : ℕ)
    → ltb n 10 ≡ false
    → digits (suc fuel) n ≡ digits fuel (n / 10) ++ ((b'0' + n % 10) ∷ [])
unfolding digits
digits_large fuel n large =
    ap
      (λ b. elim b [
        | true ↦ (b'0' + n) ∷ []
        | false ↦ digits fuel (n / 10) ++ ((b'0' + n % 10) ∷ [])
      ])
      large

-- Zeros in front of the digits, up to `k` places.
digits-fixed :
    (k fuel n : ℕ)
    → n < fuel
    → n < 10 ^ suc k
    → (length (digits fuel n) ≤ suc k)
      × (replicate (suc k - length (digits fuel n)) b'0' ++ digits fuel n ≡ fixed (suc k) n)
unfolding fixed
digits-fixed k zero n lt fits = absurd (omega arith)
digits-fixed zero (suc fuel) n lt fits = elim (Bool-cases (ltb n 10)) [
  | inl small ↦
      let digit : n % 10 ≡ n = ground arith in
      rw (digits_small fuel n small, digit) (omega arith, refl)
  | inr large ↦ absurd (ground arith)
]
digits-fixed (suc k) (suc fuel) n lt fits = elim (Bool-cases (ltb n 10)) [
  | inl small ↦
      let digit : n % 10 ≡ n = ground arith in
      let front : n / 10 ≡ 0 = ground arith in
      let one : suc (suc k) - 1 ≡ suc k = omega arith in
      rw (digits_small fuel n small, digit, front, fixed_zero (suc k))
        (omega arith, ap (λ j. replicate j b'0' ++ ((b'0' + n) ∷ [])) one)
  | inr large ↦
      let smaller : n / 10 < fuel = ground arith in
      let fits' : n / 10 < 10 ^ suc k = ground arith in
      let (short, same) = digits-fixed k fuel (n / 10) smaller fits' in
      let long = length-append {0} (digits fuel (n / 10)) ((b'0' + n % 10) ∷ []) in
      let places : suc (suc k) - length (digits fuel (n / 10) ++ ((b'0' + n % 10) ∷ []))
          ≡ suc k - length (digits fuel (n / 10)) =
        omega (arith, long) in
      rw (digits_large fuel n large) (
        omega (arith, long, short),
        rw places (
            sym (
              append_assoc (replicate (suc k - length (digits fuel (n / 10))) b'0')
                (digits fuel (n / 10)) ((b'0' + n % 10) ∷ []))
            ∙ ap (λ xs. xs ++ ((b'0' + n % 10) ∷ [])) same),
      )
]

key_ltb-snoc :
    (xs ys : Key) (x y : ℕ)
    → length xs ≡ length ys
    → key_ltb (xs ++ (x ∷ [])) (ys ++ (y ∷ [])) ≡ (key_ltb xs ys || (key_eqb xs ys && ltb x y))
unfolding key_ltb key_eqb
key_ltb-snoc [] [] x y e = ground arith
key_ltb-snoc [] (b ∷ bs) x y e = absurd (omega (arith, e))
key_ltb-snoc (a ∷ as') [] x y e = absurd (omega (arith, e))
key_ltb-snoc (a ∷ as') (b ∷ bs) x y e =
    let tails : length as' ≡ length bs = omega (arith, e) in
    ground (arith, key_ltb-snoc as' bs x y tails)

key_eqb-snoc :
    (xs ys : Key) (x y : ℕ)
    → length xs ≡ length ys
    → key_eqb (xs ++ (x ∷ [])) (ys ++ (y ∷ [])) ≡ (key_eqb xs ys && (x == y))
unfolding key_eqb
key_eqb-snoc [] [] x y e = ground arith
key_eqb-snoc [] (b ∷ bs) x y e = absurd (omega (arith, e))
key_eqb-snoc (a ∷ as') [] x y e = absurd (omega (arith, e))
key_eqb-snoc (a ∷ as') (b ∷ bs) x y e =
    let tails : length as' ≡ length bs = omega (arith, e) in
    ground (arith, key_eqb-snoc as' bs x y tails)

same_length : (k a b : ℕ) → length (fixed k a) ≡ length (fixed k b)
same_length k a b = length-fixed k a ∙ sym (length-fixed k b)

key_eqb-fixed : (k a b : ℕ) → a < 10 ^ k → b < 10 ^ k → key_eqb (fixed k a) (fixed k b) ≡ (a == b)
unfolding fixed key_eqb
key_eqb-fixed zero a b ha hb = ground arith
key_eqb-fixed (suc k) a b ha hb =
    let fa : a / 10 < 10 ^ k = ground arith in
    let fb : b / 10 < 10 ^ k = ground arith in
    key_eqb-snoc (fixed k (a / 10)) (fixed k (b / 10)) _ _ (same_length k (a / 10) (b / 10))
    ∙ rw (key_eqb-fixed k (a / 10) (b / 10) fa fb) (ground arith)

key_ltb-fixed : (k a b : ℕ) → a < 10 ^ k → b < 10 ^ k → key_ltb (fixed k a) (fixed k b) ≡ ltb a b
unfolding fixed key_ltb
key_ltb-fixed zero a b ha hb = ground arith
key_ltb-fixed (suc k) a b ha hb =
    let fa : a / 10 < 10 ^ k = ground arith in
    let fb : b / 10 < 10 ^ k = ground arith in
    key_ltb-snoc (fixed k (a / 10)) (fixed k (b / 10)) _ _ (same_length k (a / 10) (b / 10))
    ∙ rw (key_eqb-fixed k (a / 10) (b / 10) fa fb, key_ltb-fixed k (a / 10) (b / 10) fa fb)
        (ground arith)

-- A number of at most ten digits is written with exactly ten.
pub format_key-fixed : (n : ℕ) → n < 10 ^ 10 → format_key n ≡ b'k' ∷ b'e' ∷ b'y' ∷ b'-' ∷ fixed 10 n
unfolding format_key padded
format_key-fixed n h =
    let (_, same) = digits-fixed 9 (suc n) n (omega arith) h in
    ap (λ xs. b'k' ∷ b'e' ∷ b'y' ∷ b'-' ∷ xs) same

-- The keys of two numbers below 10 ^ 10 are ordered as the numbers are, and equal only for equal numbers.
pub format_key_order :
    (a b : ℕ)
    → a < 10 ^ 10
    → b < 10 ^ 10
    → (key_ltb (format_key a) (format_key b) ≡ ltb a b)
      × (key_eqb (format_key a) (format_key b) ≡ (a == b))
unfolding key_ltb key_eqb
format_key_order a b ha hb =
    rw (format_key-fixed a ha, format_key-fixed b hb)
      (key_ltb-fixed 10 a b ha hb, key_eqb-fixed 10 a b ha hb)

pub length-format_key : (n : ℕ) → n < 10 ^ 10 → length (format_key n) ≡ 14
length-format_key n h = rw (format_key-fixed n h) (omega (arith, length-fixed 10 n))
