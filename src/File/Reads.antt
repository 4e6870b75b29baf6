-- ===== src/File/Reads.antt =====
-- What reads and writes do on a file on which no call fails.
use native.Mathlib.Nat.{add-zero}
use amethyst.Base.{
  ℕ, suc, ◌+◌, ◌<◌, ◌≤◌, ◌==◌, ◌≡◌, refl, List, inl, inr, Bool-cases, ltb→le, length-drop, false,
  [], ◌∷◌, ◌++◌, Bytes, ltb, length, take, drop, arith, take-append, drop-append, drop-add,
  length-append, le→ltb,
}
use amethyst.File.{
  File, Result, Outcome, success, failure, ok, err, eof, unexpected_eof, read_rest, read_outcome,
  read_full,
}

-- the file at an offset
abbrev pub at_offset : Bytes → ℕ → File
at_offset content o = record { content = content; offset = o; outcomes = [] }

pub read_full_all :
    (content : Bytes) (o : ℕ) (xs ys : Bytes)
    → drop o content ≡ xs ++ ys
    → read_full (length xs) (at_offset content o) ≡ (ok xs, at_offset content (o + length xs))
unfolding read_full
read_full_all content o [] ys h = rw add-zero
read_full_all content o (x ∷ xs) ys h =
    let full : ltb (length (x ∷ xs ++ ys)) (length (x ∷ xs)) ≡ false =
      le→ltb _ _ (omega (arith, length-append (x ∷ xs) ys)) in
    let cut : take (length (x ∷ xs)) (x ∷ xs ++ ys) ≡ x ∷ xs = take-append (x ∷ xs) ys in
    rw h (ground (arith, full, cut))

pub drop_past :
    (content : Bytes) (o : ℕ) (xs ys : Bytes)
    → drop o content ≡ xs ++ ys
    → drop (o + length xs) content ≡ ys
drop_past content o xs ys h = rw (drop-add o (length xs) content, h) (drop-append xs ys)

pub read_full_eof :
    (content : Bytes) (o n : ℕ)
    → drop o content ≡ []
    → read_full (suc n) (at_offset content o) ≡ (err eof, at_offset content o)
unfolding read_full
read_full_eof content o n h = rw h (ground arith)

pub read_full_torn :
    (content : Bytes) (o n x : ℕ) (xs : Bytes)
    → drop o content ≡ x ∷ xs
    → length (x ∷ xs) < n
    → read_full n (at_offset content o) ≡ (err unexpected_eof, at_offset content (length content))
unfolding read_full
read_full_torn content o n x xs h k = rw h (ground arith)

-- A read that succeeds keeps the content, moves on by the bytes asked for, and stays within the file.
abbrev pub Advanced : ℕ → File → Result Bytes × File → Type 0
Advanced n f (ok xs, f') =
    (f'.content ≡ f.content) × (f'.offset ≡ f.offset + n) × (f'.offset ≤ length f'.content)
Advanced n f (err e, f') = Unit

read_rest-Advanced :
    (n : ℕ) (content : Bytes) (o : ℕ) (before after : List Outcome)
    → o ≤ length content
    → Advanced n
        (record { content = content; offset = o; outcomes = before })
        (read_rest n (drop o content) (record { content = content; offset = o; outcomes = after }))
unfolding read_rest
read_rest-Advanced n content o before after h = elim (Bool-cases (length (drop o content) == 0)) [
  | inl none_left ↦ rw none_left tt
  | inr some_left ↦ elim (Bool-cases (ltb (length (drop o content)) n)) [
    | inl few ↦ rw (some_left, few) tt
    | inr enough ↦
        rw (some_left, enough)
          (
            refl,
            refl,
            omega (arith, ltb→le (length (drop o content)) n enough, length-drop o content, h),
          )
  ]
]

read_outcome-Advanced :
    (n : ℕ) (content : Bytes) (o : ℕ) (os : List Outcome)
    → o ≤ length content
    → Advanced n
        (record { content = content; offset = o; outcomes = os })
        (read_outcome n os content o)
unfolding read_outcome
read_outcome-Advanced n content o [] h = read_rest-Advanced n content o [] [] h
read_outcome-Advanced n content o (success ∷ os) h =
    read_rest-Advanced n content o (success ∷ os) os h
read_outcome-Advanced n content o (failure k ∷ os) h = tt

pub read_full-Advanced :
    (n : ℕ) (f : File) → f.offset ≤ length f.content → Advanced n f (read_full n f)
unfolding read_full
read_full-Advanced n f h = elim (Bool-cases (n == 0)) [
  | inl zero_bytes ↦ rw zero_bytes (refl, ground arith, h)
  | inr some_bytes ↦ rw some_bytes (read_outcome-Advanced n f.content f.offset f.outcomes h)
]
