-- ===== src/Sstable/Reader/Fuel.antt =====
-- The fuel of the reader's loops, on any bytes.
use amethyst.Base.{
  ℕ, zero, suc, ◌+◌, ◌≤◌, ◌<◌, ◌≡◌, refl, ◌||◌, [], ◌∷◌, Key, Bytes, uint32, ltb, ◌==◌, length,
  drop, length-drop, arith, Bool-cases, inl, inr,
}
use amethyst.File.{Result}
use amethyst.Sstable.Reader.{
  ByteMap, Lookup, Parsed, short, bad_length, parsed, max_key_len, max_value_len, buf_read,
  parse_value, parse_fields, parse_entry, judge, get_loop, collect, scan_loop,
}

-- What is left behind an entry is shorter than `n`.
abbrev Shrinks : ℕ → Parsed → Type 0
Shrinks n short = Unit
Shrinks n bad_length = Unit
Shrinks n (parsed key value tomb rest) = length rest < n

parse_value-Shrinks :
    (key : Key) (v_len tomb : ℕ) (rest : Bytes) (n : ℕ)
    → length rest < n
    → Shrinks n (parse_value key v_len tomb rest)
unfolding parse_value buf_read
parse_value-Shrinks key v_len tomb [] n h = elim (Bool-cases (v_len == 0)) [
  | inl none_there ↦ rw none_there h
  | inr some_there ↦ rw some_there tt
]
parse_value-Shrinks key v_len tomb (x ∷ xs) n h = elim (Bool-cases (v_len == 0)) [
  | inl none_there ↦ rw none_there h
  | inr some_there ↦ rw some_there (omega (arith, h, length-drop v_len (x ∷ xs)))
]

parse_fields-Shrinks :
    (k_len v_len tomb : ℕ) (rest : Bytes) (n : ℕ)
    → length rest < n
    → Shrinks n (parse_fields k_len v_len tomb rest)
unfolding parse_fields buf_read
parse_fields-Shrinks k_len v_len tomb [] n h =
    elim (Bool-cases (ltb max_key_len k_len || ltb max_value_len v_len)) [
      | inl huge ↦ rw huge tt
      | inr fine ↦ rw fine tt
    ]
parse_fields-Shrinks k_len v_len tomb (x ∷ xs) n h =
    elim (Bool-cases (ltb max_key_len k_len || ltb max_value_len v_len)) [
      | inl huge ↦ rw huge tt
      | inr fine ↦ rw fine (
          parse_value-Shrinks _ v_len tomb (drop k_len (x ∷ xs)) n
            (omega (arith, h, length-drop k_len (x ∷ xs))))
    ]

parse_entry-Shrinks : (xs : Bytes) → Shrinks (length xs) (parse_entry xs)
unfolding parse_entry
parse_entry-Shrinks [] = tt
parse_entry-Shrinks (a ∷ []) = tt
parse_entry-Shrinks (a ∷ b ∷ []) = tt
parse_entry-Shrinks (a ∷ b ∷ c ∷ []) = tt
parse_entry-Shrinks (a ∷ b ∷ c ∷ d ∷ []) = tt
parse_entry-Shrinks (a ∷ b ∷ c ∷ d ∷ e ∷ []) = tt
parse_entry-Shrinks (a ∷ b ∷ c ∷ d ∷ e ∷ f ∷ []) = tt
parse_entry-Shrinks (a ∷ b ∷ c ∷ d ∷ e ∷ f ∷ g ∷ []) = tt
parse_entry-Shrinks (a ∷ b ∷ c ∷ d ∷ e ∷ f ∷ g ∷ h ∷ []) = tt
parse_entry-Shrinks (a ∷ b ∷ c ∷ d ∷ e ∷ f ∷ g ∷ h ∷ tomb ∷ rest) =
    parse_fields-Shrinks (uint32 a b c d) (uint32 e f g h) tomb rest _ (omega arith)

judge_same :
    (target : Key) (n m : ℕ) (f g : Bytes → Lookup) (p : Parsed)
    → Shrinks m p
    → ((rest : Bytes) → length rest < m → f rest ≡ g rest)
    → judge target n f p ≡ judge target n g p
unfolding judge
judge_same target n m f g short h same = refl
judge_same target n m f g bad_length h same = refl
judge_same target n m f g (parsed key value tomb rest) h same = rw (same rest h) refl

collect_same :
    (m : ℕ) (f g : ByteMap → Bytes → Result ByteMap) (found : ByteMap) (p : Parsed)
    → Shrinks m p
    → ((acc : ByteMap) (rest : Bytes) → length rest < m → f acc rest ≡ g acc rest)
    → collect f found p ≡ collect g found p
unfolding collect
collect_same m f g found short h same = refl
collect_same m f g found bad_length h same = refl
collect_same m f g found (parsed key value tomb rest) h same = same _ rest h

-- On any bytes, two lookups with fuel for each byte answer the same: the fuel never decides.
pub get_loop_enough :
    (fuel more : ℕ) (target : Key) (n : ℕ) (xs : Bytes)
    → length xs ≤ fuel
    → length xs ≤ more
    → get_loop fuel target n xs ≡ get_loop more target n xs
unfolding get_loop
get_loop_enough zero zero target n xs h k = refl
get_loop_enough zero (suc more) target n [] h k = refl
get_loop_enough zero (suc more) target n (x ∷ xs) h k = absurd (omega arith)
get_loop_enough (suc fuel) zero target n [] h k = refl
get_loop_enough (suc fuel) zero target n (x ∷ xs) h k = absurd (omega arith)
get_loop_enough (suc fuel) (suc more) target n [] h k = refl
get_loop_enough (suc fuel) (suc more) target n (x ∷ xs) h k =
    judge_same target (n + 1) (length (x ∷ xs)) _ _ (parse_entry (x ∷ xs))
      (parse_entry-Shrinks (x ∷ xs))
      (λ rest lt.
        get_loop_enough fuel more target (n + 1) rest (omega (arith, lt, h)) (omega (arith, lt, k)))

-- On any bytes, two scans with fuel for each byte answer the same: the fuel never decides.
pub scan_loop_enough :
    (fuel more : ℕ) (found : ByteMap) (xs : Bytes)
    → length xs ≤ fuel
    → length xs ≤ more
    → scan_loop fuel found xs ≡ scan_loop more found xs
unfolding scan_loop
scan_loop_enough zero zero found xs h k = refl
scan_loop_enough zero (suc more) found [] h k = refl
scan_loop_enough zero (suc more) found (x ∷ xs) h k = absurd (omega arith)
scan_loop_enough (suc fuel) zero found [] h k = refl
scan_loop_enough (suc fuel) zero found (x ∷ xs) h k = absurd (omega arith)
scan_loop_enough (suc fuel) (suc more) found [] h k = refl
scan_loop_enough (suc fuel) (suc more) found (x ∷ xs) h k =
    collect_same (length (x ∷ xs)) _ _ found (parse_entry (x ∷ xs)) (parse_entry-Shrinks (x ∷ xs))
      (λ acc rest lt.
        scan_loop_enough fuel more acc rest (omega (arith, lt, h)) (omega (arith, lt, k)))
