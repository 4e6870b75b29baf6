-- ===== src/Wal/Torn.antt =====
-- A log whose last record is incomplete, as a crash or a failed write leaves it.
use mathlib.Core.Path.{subst}
use amethyst.Base.{
  ℕ, zero, suc, ◌+◌, ◌-◌, ◌<◌, ◌≡◌, refl, ◌∙◌, ap, sym, inl, inr, Option, some, none, List, [], ◌∷◌,
  ◌++◌, Bytes, bytes, uint32_lem, ltb, ltb→lt, ltb→le, length, take, drop, All, arith,
  take-append_add, length-append, length-take-le, Bool-cases,
}
use amethyst.File.{Error, eof, unexpected_eof, Result, ok, err, File, read_full, seek}
use amethyst.File.Reads.{at_offset, read_full_all, read_full_eof, read_full_torn, drop_past}
use amethyst.Types.{WalEntry}
use amethyst.Wal.{header, read_header, read_body, read_loop, read_all}
use amethyst.Wal.Codec.{
  encode, encode_all, Fits, restore, length-header, length-encode, length-encode_all,
  read_header_lem, read_loop_past,
}

-- A result that is an error.
abbrev pub IsError {ℓ} : {A : Type ℓ} → Result A → Type 0
IsError (ok a) = ⊥
IsError (err e) = Unit

-- The loop ended with an error.
abbrev pub Refused : Option (Result (List WalEntry) × File) → Type 0
Refused none = ⊥
Refused (some (r, f)) = IsError r

read_full_short :
    (content : Bytes) (o n : ℕ) (xs : Bytes)
    → drop o content ≡ xs
    → length xs < n
    → (e : Error) × (f : File) × (read_full n (at_offset content o) ≡ (err e, f))
read_full_short content o zero xs h k = absurd (omega arith)
read_full_short content o (suc n) [] h k = (eof, _, read_full_eof content o n h)
read_full_short content o (suc n) (x ∷ xs) h k =
    (unexpected_eof, _, read_full_torn content o (suc n) x xs h k)

-- The header is torn.
torn_header :
    (fuel : ℕ) (acc : List WalEntry) (content : Bytes) (o : ℕ) (x : ℕ) (xs : Bytes)
    → drop o content ≡ x ∷ xs
    → length (x ∷ xs) < 9
    → Refused (read_loop (suc fuel) acc (at_offset content o))
unfolding read_loop read_header
torn_header fuel acc content o x xs h k = rw (read_full_torn content o 9 x xs h k) tt

-- The key or the value is torn.
torn_body :
    (content : Bytes) (o m : ℕ) (e : WalEntry)
    → Fits e
    → drop o content ≡ take m (e.key ++ bytes e.value)
    → m < length e.key + length (bytes e.value)
    → (x : Error) × (f : File) × (read_body (header e) (at_offset content o) ≡ (err x, f))
unfolding read_body header
torn_body content o m e fits h k = elim (Bool-cases (ltb m (length e.key))) [
  | inl in_key ↦
      let short : length (take m (e.key ++ bytes e.value)) < length e.key =
        omega (arith, ltb→lt m (length e.key) in_key, length-take-le m (e.key ++ bytes e.value)) in
      let (x, f, failed) = read_full_short content o (length e.key) _ h short in
      (x, f, rw (uint32_lem (length e.key) fits.key, failed))
  | inr in_value ↦
      let m' = m - length e.key in
      let split : m ≡ length e.key + m' = omega (arith, ltb→le m (length e.key) in_value) in
      let parts : drop o content ≡ e.key ++ take m' (bytes e.value) =
        h ∙ ap (λ j. take j (e.key ++ bytes e.value)) split ∙ take-append_add e.key _ m' in
      let short : length (take m' (bytes e.value)) < length (bytes e.value) =
        omega (arith, length-take-le m' (bytes e.value)) in
      let (x, f, failed) =
        read_full_short content (o + length e.key) (length (bytes e.value)) _
          (drop_past content o e.key _ parts) short in
      (
        x,
        f,
        rw (
          uint32_lem (length e.key) fits.key,
          uint32_lem (length (bytes e.value)) fits.value,
          read_full_all content o e.key _ parts,
          failed,
        ),
      )
]

torn_in_header :
    (fuel : ℕ) (acc : List WalEntry) (content : Bytes) (o k : ℕ) (e : WalEntry)
    → drop o content ≡ take (suc k) (encode e)
    → suc k < 9
    → Refused (read_loop (suc fuel) acc (at_offset content o))
unfolding encode header
torn_in_header fuel acc content o k e h lt =
    torn_header fuel acc content o _ _ h (omega (arith, length-take-le (suc k) (encode e)))

torn_record :
    (fuel : ℕ) (acc : List WalEntry) (content : Bytes) (o k : ℕ) (e : WalEntry)
    → Fits e
    → drop o content ≡ take (suc k) (encode e)
    → suc k < length (encode e)
    → Refused (read_loop (suc fuel) acc (at_offset content o))
unfolding read_loop
torn_record fuel acc content o k e fits h lt = elim (Bool-cases (ltb (suc k) 9)) [
  | inl in_header ↦ torn_in_header fuel acc content o k e h (ltb→lt (suc k) 9 in_header)
  | inr in_body ↦
      let m = suc k - 9 in
      let split : suc k ≡ length (header e) + m =
        omega (arith, ltb→le (suc k) 9 in_body, length-header e) in
      let parts : drop o content ≡ header e ++ take m (e.key ++ bytes e.value) =
        h
        ∙ ap (λ j. take j (encode e)) split
        ∙ unfold encode in take-append_add (header e) (e.key ++ bytes e.value) m in
      let rest_at : drop (o + 9) content ≡ take m (e.key ++ bytes e.value) =
        rw length-header at (drop_past content o (header e) _ parts) in
      let (x, f, failed) =
        torn_body content (o + 9) m e fits rest_at
          (omega (arith, length-encode e, ltb→le (suc k) 9 in_body)) in
      rw (read_header_lem content o e _ parts, failed) tt
]

-- A log of whole records followed by a part of a record, from one byte to all but one, is refused:
-- ReadAll returns an error, and with it none of the whole records.
pub read_all-torn :
    (es : List WalEntry) (e : WalEntry) (k o : ℕ)
    → All Fits es
    → Fits e
    → 0 < k
    → k < length (encode e)
    → Refused (read_all (at_offset (encode_all es ++ take k (encode e)) o))
unfolding read_all seek
read_all-torn es e zero o all_fit fits pos lt = absurd (omega arith)
read_all-torn es e (suc k) o all_fit fits pos lt =
    let content = encode_all es ++ take (suc k) (encode e) in
    let spare = length content - length es in
    let (o', at, same) = read_loop_past es (suc spare) [] content 0 _ all_fit refl in
    let fuel : suc (length content) ≡ length es + suc spare =
      omega (
        arith,
        length-encode_all es,
        length-append {0} (encode_all es) (take (suc k) (encode e)),
      ) in
    let reach : read_loop (suc (length content)) [] (at_offset content 0)
        ≡ read_loop (suc spare) (restore es) (at_offset content o') =
      ap (λ j. read_loop j [] (at_offset content 0)) fuel ∙ same in
    subst Refused (sym reach) (torn_record spare (restore es) content o' k e fits at lt)
