-- ===== src/Wal/Codec.antt =====
-- The records of the log, written and read back.
use Prim.Native.Nat.add
use native.Mathlib.Nat.{zero-add}
use amethyst.Base.{
  ℕ, suc, ◌+◌, ◌-◌, ◌^◌, ◌≤◌, ◌<◌, ◌≡◌, refl, ◌∙◌, ap, sym, Bool, true, false, some, List, [], ◌∷◌,
  ◌++◌, append-nil, append_assoc, Bytes, bytes, uint32_lem, ◌==◌, if◌then◌else◌, length, drop, All,
  arith, length-append,
}
use amethyst.File.{ok, File, seek}
use amethyst.File.Reads.{at_offset, read_full_all, read_full_eof, drop_past}
use amethyst.Types.{WalEntry}
use amethyst.Wal.{header, read_header, read_body, read_loop, read_all}

-- The bytes of a record, and of a log.
unfoldable pub encode : WalEntry → Bytes
encode e = header e ++ (e.key ++ bytes e.value)

unfoldable pub encode_all : List WalEntry → Bytes
encode_all [] = []
encode_all (e ∷ es) = encode e ++ encode_all es

-- The lengths fit the 32 bits that a record has for them.
pub record Fits (e : WalEntry) : Type 0 where
  pub key : length e.key < 2 ^ 32
  pub value : length (bytes e.value) < 2 ^ 32

-- What is read back: a nil value comes back empty.
abbrev pub restored : WalEntry → WalEntry
restored e = record e { value = some (bytes e.value) }

pub length-header : (e : WalEntry) → length (header e) ≡ 9
unfolding header
length-header e = refl

pub read_header_lem :
    (content : Bytes) (o : ℕ) (e : WalEntry) (ys : Bytes)
    → drop o content ≡ header e ++ ys
    → read_header (at_offset content o) ≡ (ok (some (header e)), at_offset content (o + 9))
unfolding read_header header
read_header_lem content o e ys h = rw (read_full_all content o (header e) ys h)

tombstone_bit : (b : Bool) → ((if b then 1 else 0) == 1) ≡ b
tombstone_bit true = refl
tombstone_bit false = refl

read_body_lem :
    (content : Bytes) (o : ℕ) (e : WalEntry) (ys : Bytes)
    → Fits e
    → drop o content ≡ e.key ++ (bytes e.value ++ ys)
    → read_body (header e) (at_offset content o)
      ≡ (ok (restored e), at_offset content (o + length e.key + length (bytes e.value)))
unfolding read_body header
read_body_lem content o e ys fits h = rw (
  uint32_lem (length e.key) fits.key,
  uint32_lem (length (bytes e.value)) fits.value,
  read_full_all content o e.key (bytes e.value ++ ys) h,
  read_full_all content (o + length e.key) (bytes e.value) ys (drop_past content o e.key _ h),
  tombstone_bit,
)

-- the offset behind a record
abbrev pub record_end : WalEntry → ℕ → ℕ
record_end e o = o + 9 + length e.key + length (bytes e.value)

pub record_parts :
    (content : Bytes) (o : ℕ) (e : WalEntry) (rest : Bytes)
    → drop o content ≡ encode e ++ rest
    → drop o content ≡ header e ++ (e.key ++ (bytes e.value ++ rest))
unfolding encode
record_parts content o e rest h = h ∙ simp append_assoc

pub body_parts :
    (content : Bytes) (o : ℕ) (e : WalEntry) (rest : Bytes)
    → drop o content ≡ encode e ++ rest
    → drop (o + 9) content ≡ e.key ++ (bytes e.value ++ rest)
body_parts content o e rest h =
    rw length-header at (drop_past content o (header e) _ (record_parts content o e rest h))

pub drop-record_end :
    (content : Bytes) (o : ℕ) (e : WalEntry) (rest : Bytes)
    → drop o content ≡ encode e ++ rest
    → drop (record_end e o) content ≡ rest
drop-record_end content o e rest h =
    drop_past content (o + 9 + length e.key) (bytes e.value) rest
      (drop_past content (o + 9) e.key _ (body_parts content o e rest h))

-- One round of the loop reads one record.
pub read_loop_step :
    (fuel : ℕ) (acc : List WalEntry) (content : Bytes) (o : ℕ) (e : WalEntry) (rest : Bytes)
    → Fits e
    → drop o content ≡ encode e ++ rest
    → read_loop (suc fuel) acc (at_offset content o)
      ≡ read_loop fuel (acc ++ (restored e ∷ [])) (at_offset content (record_end e o))
unfolding read_loop
read_loop_step fuel acc content o e rest fits h =
    let found = read_header_lem content o e _ (record_parts content o e rest h) in
    let body = read_body_lem content (o + 9) e rest fits (body_parts content o e rest h) in
    rw (found, body)

unfoldable pub restore : List WalEntry → List WalEntry
restore [] = []
restore (e ∷ es) = restored e ∷ restore es

-- Complete records in front of `ys` are read, and the loop goes on at `ys`.
pub read_loop_past :
    (es : List WalEntry) (fuel : ℕ) (acc : List WalEntry) (content : Bytes) (o : ℕ) (ys : Bytes)
    → All Fits es
    → drop o content ≡ encode_all es ++ ys
    → (o' : ℕ) × (drop o' content ≡ ys)
      × (read_loop (length es + fuel) acc (at_offset content o)
          ≡ read_loop fuel (acc ++ restore es) (at_offset content o'))
unfolding encode_all restore
read_loop_past [] fuel acc content o ys fits h = (o, h, rw (zero-add, append-nil))
read_loop_past (e ∷ es) fuel acc content o ys fits h =
    let parts : drop o content ≡ encode e ++ (encode_all es ++ ys) =
      h ∙ append_assoc (encode e) (encode_all es) ys in
    let (o', at, same) =
      read_loop_past es fuel (acc ++ (restored e ∷ [])) content (record_end e o) ys fits.1
        (drop-record_end content o e _ parts) in
    (
      o',
      at,
      rw (add.suc (length es) fuel, read_loop_step _ acc content o e _ fits.0 parts)
          (same ∙ rw append_assoc),
    )

-- A log with nothing behind its records is read to its end.
read_loop_end :
    (fuel : ℕ) (acc : List WalEntry) (content : Bytes) (o : ℕ)
    → drop o content ≡ []
    → read_loop (suc fuel) acc (at_offset content o) ≡ some (ok acc, at_offset content o)
unfolding read_loop read_header
read_loop_end fuel acc content o h = let end = read_full_eof content o 8 h in rw end

pub length-encode : (e : WalEntry) → length (encode e) ≡ 9 + length e.key + length (bytes e.value)
unfolding encode
length-encode e = omega (
  arith,
  length-append {0} (header e) (e.key ++ bytes e.value),
  length-append {0} e.key (bytes e.value),
  length-header e,
)

pub length-encode_all : (es : List WalEntry) → length es ≤ length (encode_all es)
unfolding encode_all
length-encode_all [] = omega arith
length-encode_all (e ∷ es) =
    omega
      (arith, length-encode_all es, length-encode e, length-append {0} (encode e) (encode_all es))

-- ReadAll on a file that holds records whose lengths fit 32 bits, and nothing else, returns exactly
-- these entries in order, a nil value coming back empty; the fuel suffices.
pub read_all-encode_all :
    (es : List WalEntry) (o : ℕ)
    → All Fits es
    → (f : File) × (read_all (at_offset (encode_all es) o) ≡ some (ok (restore es), f))
unfolding read_all seek
read_all-encode_all es o fits =
    let content = encode_all es in
    let (o', at, same) =
      read_loop_past es (suc (length content - length es)) [] content 0 [] fits
        (sym (append-nil content)) in
    let fuel : suc (length content) ≡ length es + suc (length content - length es) =
      omega (arith, length-encode_all es) in
    (
      at_offset content o',
      ap (λ k. read_loop k [] (at_offset content 0)) fuel
          ∙ same
          ∙ read_loop_end (length content - length es) (restore es) content o' at,
    )

pub encode_all-append :
    (es : List WalEntry) (e : WalEntry) → encode_all (es ++ (e ∷ [])) ≡ encode_all es ++ encode e
unfolding encode_all
encode_all-append [] e = append-nil (encode e)
encode_all-append (x ∷ xs) e =
    ap (λ r. encode x ++ r) (encode_all-append xs e) ∙ sym (append_assoc (encode x) _ _)
