-- ===== src/Sstable/Reader/Entry.antt =====
-- A written entry is parsed back.
use amethyst.Base.{
  ℕ, ◌≤◌, ◌<◌, ◌≡◌, refl, ap, Bool, false, none, some, [], ◌∷◌, ◌++◌, append_assoc, Key, Slice,
  Bytes, bytes, uint32_lem, le→ltb, ◌==◌, if◌then◌else◌, length, drop-append, arith,
}
use amethyst.Types.{KvEntry}
use amethyst.Sstable.Writer.{entry_header}
use amethyst.Sstable.Reader.{
  fill, max_key_len, max_value_len, parsed, parse_value, parse_fields, parse_entry,
}

-- The reader's limits on a key, which must not be empty, and on a value.
pub record IsReadable (e : KvEntry) : Type 0 where
  pub some_key : 0 < length e.key
  pub key_fits : length e.key ≤ max_key_len
  pub value_fits : length (bytes e.value) ≤ max_value_len

-- The bytes of an entry.
unfoldable pub encode : KvEntry → Bytes
encode e = entry_header e ++ (e.key ++ bytes e.value)

-- A value as it is read back: an empty one is nil.
unfoldable pub reread : Slice → Slice
reread v = elim (bytes v) [ [] ↦ none | x ∷ xs ↦ some (x ∷ xs) ]

abbrev pub tomb_byte : Bool → ℕ
tomb_byte b = if b then 1 else 0

fill-append : (xs ys : Bytes) → fill (length xs) (xs ++ ys) ≡ xs
unfolding fill
fill-append [] ys = refl
fill-append (x ∷ xs) ys = ap (λ r. x ∷ r) (fill-append xs ys)

-- a slice, by its bytes
parse_value_bytes :
    (key : Key) (v : Bytes) (tomb : ℕ) (rest : Bytes)
    → parse_value key (length v) tomb (v ++ rest) ≡ parsed key (reread (some v)) tomb rest
unfolding parse_value reread
parse_value_bytes key [] tomb rest = refl
parse_value_bytes key (x ∷ xs) tomb rest =
    let more : (length (x ∷ xs) == 0) ≡ false = ground arith in
    rw (more, fill-append xs rest, drop-append xs rest)

parse_fields_key :
    (x : ℕ) (xs v : Bytes) (tomb : ℕ) (rest : Bytes)
    → length (x ∷ xs) ≤ max_key_len
    → length v ≤ max_value_len
    → parse_fields (length (x ∷ xs)) (length v) tomb (x ∷ xs ++ (v ++ rest))
      ≡ parsed (x ∷ xs) (reread (some v)) tomb rest
unfolding parse_fields
parse_fields_key x xs v tomb rest hk hv =
    rw
      (
        le→ltb max_key_len (length (x ∷ xs)) hk,
        le→ltb max_value_len (length v) hv,
        fill-append xs (v ++ rest),
        drop-append xs (v ++ rest),
      )
      (parse_value_bytes (x ∷ xs) v tomb rest)

parse_fields_lem :
    (key : Key) (v : Bytes) (tomb : ℕ) (rest : Bytes)
    → 0 < length key
    → length key ≤ max_key_len
    → length v ≤ max_value_len
    → parse_fields (length key) (length v) tomb (key ++ (v ++ rest))
      ≡ parsed key (reread (some v)) tomb rest
parse_fields_lem [] v tomb rest h hk hv = absurd (omega arith)
parse_fields_lem (x ∷ xs) v tomb rest h hk hv = parse_fields_key x xs v tomb rest hk hv

-- The reader's round on a written entry gives its key, its value, its tombstone byte and the rest.
pub parse_entry-encode :
    (e : KvEntry) (rest : Bytes)
    → IsReadable e
    → parse_entry (encode e ++ rest) ≡ parsed e.key (reread e.value) (tomb_byte e.tombstone) rest
unfolding parse_entry encode entry_header reread
parse_entry-encode e rest h = rw (
  uint32_lem (length e.key) (omega (arith, h.key_fits)),
  uint32_lem (length (bytes e.value)) (omega (arith, h.value_fits)),
  append_assoc,
  parse_fields_lem e.key (bytes e.value) (tomb_byte e.tombstone) rest h.some_key h.key_fits
      h.value_fits,
)
