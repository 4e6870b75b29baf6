-- ===== src/Wal/Total.antt =====
-- ReadAll ends on any file.
use amethyst.Base.{
  ℕ, zero, suc, ◌+◌, ◌≤◌, ◌<◌, ◌≡◌, refl, ◌∙◌, ap, Option, some, none, List, [], ◌∷◌, Bytes, length,
  arith,
}
use amethyst.File.{
  eof, unexpected_eof, io_failure, obsolete_segment, invalid_segment, nil_segment, Result, ok, err,
  File, ◌>>=◌, seek, read_full, Outcome, success, failure,
}
use amethyst.File.Reads.{Advanced, read_full-Advanced}
use amethyst.Types.{WalEntry}
use amethyst.Wal.{
  read_header, read_body, end_of_file, after_body, after_header, read_loop, read_from, read_all,
}

-- The loop ended, with a result or an error.
abbrev pub Ended : Option (Result (List WalEntry) × File) → Type 0
Ended none = ⊥
Ended (some x) = Unit

-- A step that succeeds keeps the content and moves on by `n` bytes at least, and not past the end.
abbrev Moved : {A : Type 0} → ℕ → File → Result A × File → Type 0
Moved n f (ok a, f') =
    (f'.content ≡ f.content) × (f.offset + n ≤ f'.offset) × (f'.offset ≤ length f'.content)
Moved n f (err e, f') = Unit

read_full-Moved : (n : ℕ) (f : File) (r : Result Bytes × File) → Advanced n f r → Moved 0 f r
read_full-Moved n f (ok xs, f') (same, on, inside) = (same, omega (arith, on), inside)
read_full-Moved n f (err e, f') h = tt

joined-Moved :
    {A B : Type 0} (f : File) (r : Result A × File) (k : A → File → Result B × File)
    → Moved 0 f r
    → ((a : A) (f' : File) → f'.offset ≤ length f'.content → Moved 0 f' (k a f'))
    → Moved 0 f (((λ _. r) >>= k) f)
joined-Moved f (err e, f') k h rest = tt
joined-Moved f (ok a, f') k (same, on, inside) rest =
    onward f f' (k a f') same on (rest a f' inside)
  where
    onward :
        {B : Type 0} (f f' : File) (r : Result B × File)
        → f'.content ≡ f.content
        → f.offset + 0 ≤ f'.offset
        → Moved 0 f' r
        → Moved 0 f r
    onward f f' (err e, g) same on h = tt
    onward f f' (ok b, g) same on (same', on', inside) =
        (same' ∙ same, omega (arith, on, on'), inside)

read_body-Moved : (h : Bytes) (f : File) → f.offset ≤ length f.content → Moved 0 f (read_body h f)
unfolding read_body
read_body-Moved h f inside =
    joined-Moved f (read_full _ f) _ (read_full-Moved _ f _ (read_full-Advanced _ f inside))
      (λ key f' inside'.
        joined-Moved f' (read_full _ f') _
          (read_full-Moved _ f' _ (read_full-Advanced _ f' inside'))
          (λ value g at_g. (refl, omega arith, at_g)))

after_body-Ended :
    (fuel : ℕ) (acc : List WalEntry) (f : File) (r : Result WalEntry × File)
    → Moved 0 f r
    → length f.content < f.offset + fuel
    → ((acc' : List WalEntry) (f' : File)
        → f'.offset ≤ length f'.content
        → length f'.content < f'.offset + fuel
        → Ended (read_loop fuel acc' f'))
    → Ended (after_body (read_loop fuel) acc r)
unfolding after_body
after_body-Ended fuel acc f (err e, f') h far loop = tt
after_body-Ended fuel acc f (ok a, f') (same, on, inside) far loop =
    loop _ f' inside (omega (arith, on, far, ap length same))

after_header-Ended :
    (fuel : ℕ) (acc : List WalEntry) (f : File) (r : Result Bytes × File)
    → Advanced 9 f r
    → length f.content < f.offset + suc fuel
    → ((acc' : List WalEntry) (f' : File)
        → f'.offset ≤ length f'.content
        → length f'.content < f'.offset + fuel
        → Ended (read_loop fuel acc' f'))
    → Ended (after_header (read_loop fuel) acc (end_of_file r.0, r.1))
unfolding after_header end_of_file
after_header-Ended fuel acc f (ok h, f') (same, on, inside) far loop =
    after_body-Ended fuel acc f' (read_body h f') (read_body-Moved h f' inside)
      (omega (arith, on, far, ap length same)) loop
after_header-Ended fuel acc f (err eof, f') h far loop = tt
after_header-Ended fuel acc f (err unexpected_eof, f') h far loop = tt
after_header-Ended fuel acc f (err io_failure, f') h far loop = tt
after_header-Ended fuel acc f (err obsolete_segment, f') h far loop = tt
after_header-Ended fuel acc f (err invalid_segment, f') h far loop = tt
after_header-Ended fuel acc f (err nil_segment, f') h far loop = tt

read_loop-Ended :
    (fuel : ℕ) (acc : List WalEntry) (f : File)
    → f.offset ≤ length f.content
    → length f.content < f.offset + fuel
    → Ended (read_loop fuel acc f)
unfolding read_loop read_header
read_loop-Ended zero acc f inside far = absurd (omega arith)
read_loop-Ended (suc fuel) acc f inside far =
    after_header-Ended fuel acc f (read_full 9 f) (read_full-Advanced 9 f inside) far
      (λ acc' f' inside' far'. read_loop-Ended fuel acc' f' inside' far')

read_all_on :
    (content : Bytes) (o : ℕ) (os : List Outcome)
    → Ended (read_all (record { content = content; offset = o; outcomes = os }))
unfolding read_all read_from seek
read_all_on content o [] = read_loop-Ended (suc (length content)) [] _ (omega arith) (omega arith)
read_all_on content o (success ∷ os) =
    read_loop-Ended (suc (length content)) [] _ (omega arith) (omega arith)
read_all_on content o (failure n ∷ os) = tt

-- Whatever bytes the file holds and whatever calls on it fail, ReadAll ends, with the entries or with
-- an error.
pub read_all-Ended : (f : File) → Ended (read_all f)
read_all-Ended f = read_all_on f.content f.offset f.outcomes
