-- ===== src/SegmentFile/Window.antt =====
-- The map is a window on the file: what it shows is what the file holds.
use mathlib.Core.Path.{subst}
use amethyst.Base.{
  ℕ, zero, suc, ◌≤◌, ◌≡◌, refl, ◌∙◌, ap, Bool, true, false, none, some, [], ◌∷◌, ◌++◌, Key, Slice,
  Bytes, leb, ◌==◌, length, take, arith, Bool-cases, inl, inr, take-append_le, length-append, sym,
}
use amethyst.File.{ok, File, stat, write}
use amethyst.File.Reads.{at_offset}
use amethyst.SegmentFile.{SegmentFile, append, get_mmap_data, has_map}

-- A map that is in use shows the first bytes of the file.
pub record IsWindow (s : SegmentFile) : Type 0 where
  pub shown :
      (d : Bytes)
      → s.is_mmapped ≡ true
      → s.mmap_data ≡ some d
      → (s.mmapped_size ≤ length s.file.content) × (d ≡ take s.mmapped_size s.file.content)

take_all : (n : ℕ) (xs : Bytes) → length xs ≤ n → take n xs ≡ xs
take_all zero [] h = refl
take_all zero (x ∷ xs) h = absurd (omega arith)
take_all (suc n) [] h = refl
take_all (suc n) (x ∷ xs) h = ap (λ r. x ∷ r) (take_all n xs (omega arith))

-- a segment file by its parts
abbrev pub parts : File → Key → Slice → ℕ → Bool → ℕ → SegmentFile
parts f path md ms on reads = record {
  file = f;
  path = path;
  mmap_data = md;
  mmapped_size = ms;
  is_mmapped = on;
  active_reads = reads;
}

-- The call gives all the bytes of the file, and leaves the file alone and a window behind.
pub record Shows (s : SegmentFile) : Type 0 where
  pub all_bytes : (get_mmap_data s).0 ≡ ok s.file.content
  pub same_file : (get_mmap_data s).1.file ≡ s.file
  pub window : IsWindow (get_mmap_data s).1

-- a map of the whole file
fresh_window :
    (content : Bytes) (f : File) (path : Key) (reads : ℕ)
    → f.content ≡ content
    → IsWindow (parts f path (some (take (length content) content)) (length content) true reads)
fresh_window content f path reads e = record { shown = λ d on same. rw e (ground arith) }

-- no map is in use
no_window :
    (f : File) (path : Key) (md : Slice) (ms reads : ℕ) → IsWindow (parts f path md ms false reads)
no_window f path md ms reads = record { shown = λ d on same. ground arith }

empty_bytes : (xs : Bytes) → (length xs == 0) ≡ true → [] ≡ xs
empty_bytes [] h = refl
empty_bytes (x ∷ xs) h = ground arith

module _ (content : Bytes) (o : ℕ) (path : Key) (reads : ℕ) where
  Shows-mapped :
      (d : Bytes) (ms : ℕ)
      → ms ≤ length content
      → d ≡ take ms content
      → Shows (parts (at_offset content o) path (some d) ms true reads)
  unfolding get_mmap_data stat
  Shows-mapped d ms h e = elim (Bool-cases (leb (length content) ms)) [
    | inl covers ↦
        let whole : d ≡ content = e ∙ take_all ms content (ground arith) in
        record {
          all_bytes = rw covers (ap ok whole);
          same_file = rw covers;
          window = rw covers (record { shown = λ d' on same. (h, ground arith) });
        }
    | inr grown ↦
        let whole = take_all (length content) content (omega arith) in
        record {
          all_bytes = rw grown (ap ok whole);
          same_file = rw grown;
          window = rw grown (fresh_window content (at_offset content o) path _ refl);
        }
  ]

  Shows-first :
      (md : Slice) (ms : ℕ) (on : Bool)
      → has_map (parts (at_offset content o) path md ms on reads) ≡ false
      → Shows (parts (at_offset content o) path md ms on reads)
  unfolding get_mmap_data stat
  Shows-first md ms on h = elim (Bool-cases (length content == 0)) [
    | inl none_yet ↦
        let empty : [] ≡ content = empty_bytes content none_yet in
        record {
          all_bytes = rw (h, none_yet) (ap ok empty);
          same_file = rw (h, none_yet);
          window = rw (h, none_yet) (record { shown = λ d used same. ground arith });
        }
    | inr some_bytes ↦
        let whole = take_all (length content) content (omega arith) in
        record {
          all_bytes = rw (h, some_bytes) (ap ok whole);
          same_file = rw (h, some_bytes);
          window = rw (h, some_bytes) (fresh_window content (at_offset content o) path _ refl);
        }
  ]

  Shows-cases :
      (md : Slice) (ms : ℕ) (on : Bool)
      → IsWindow (parts (at_offset content o) path md ms on reads)
      → Shows (parts (at_offset content o) path md ms on reads)
  unfolding has_map
  Shows-cases md ms false w = Shows-first md ms false refl
  Shows-cases none ms true w = Shows-first none ms true refl
  Shows-cases (some d) ms true w = let (h, e) = w.shown d refl refl in Shows-mapped d ms h e

-- On a file on which no call fails, GetMmapData returns all the bytes of the file, also those that
-- were appended since it was mapped; the file stays as it is and the map stays a window on it.
pub get_mmap_data-Shows : (s : SegmentFile) → s.file.outcomes ≡ [] → IsWindow s → Shows s
get_mmap_data-Shows s healthy w =
    let same : at_offset s.file.content s.file.offset ≡ s.file =
      λ i. record { content = s.file.content; offset = s.file.offset; outcomes = sym healthy i } in
    subst (λ f. Shows (record s { file = f })) same
      (Shows-cases s.file.content s.file.offset s.path s.active_reads s.mmap_data s.mmapped_size
        s.is_mmapped (record { shown = w.shown }))

-- Append on such a file returns the end of the file and the length of the bytes, puts the bytes
-- there, and keeps the window.
pub record Appended (s : SegmentFile) (data' : Bytes) : Type 0 where
  pub position : (append data' s).0 ≡ ok (length s.file.content, length data')
  pub grown : (append data' s).1.file.content ≡ s.file.content ++ data'
  pub healthy : (append data' s).1.file.outcomes ≡ []
  pub window : IsWindow (append data' s).1

append_parts :
    (content data' : Bytes) (o : ℕ) (path : Key) (md : Slice) (ms : ℕ) (on : Bool) (reads : ℕ)
    → IsWindow (parts (at_offset content o) path md ms on reads)
    → Appended (parts (at_offset content o) path md ms on reads) data'
unfolding append stat write
append_parts content data' o path md ms on reads w = record {
  position = refl;
  grown = refl;
  healthy = refl;
  window = record {
    shown = λ d used same.
        let (h, e) = w.shown d used same in
        (
          omega (arith, length-append {0} content data'),
          e ∙ sym (take-append_le ms content data' h),
        );
  };
}

pub append-Appended :
    (s : SegmentFile) (data' : Bytes) → s.file.outcomes ≡ [] → IsWindow s → Appended s data'
append-Appended s data' healthy w =
    let same : at_offset s.file.content s.file.offset ≡ s.file =
      λ i. record { content = s.file.content; offset = s.file.offset; outcomes = sym healthy i } in
    subst (λ f. Appended (record s { file = f }) data') same
      (append_parts s.file.content data' s.file.offset s.path s.mmap_data s.mmapped_size
        s.is_mmapped s.active_reads (record { shown = w.shown }))
