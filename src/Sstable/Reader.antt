-- ===== src/Sstable/Reader.antt =====
-- amethyst/internal/sstable/reader/reader.go: the lookup of a key in a segment and the scan of a
-- whole segment, both over the mapped bytes. Offsets are natural numbers, so the tests for negative
-- ones are not there.
pub mod Entry
pub mod Window
pub mod Maps
pub mod Found
pub mod Scanned
pub mod Fuel
use amethyst.Base.{
  ℕ, zero, suc, ◌+◌, ◌-◌, ◌*◌, Bool, true, false, ◌||◌, Option, none, some, List, [], ◌∷◌, ◌++◌,
  Key, Slice, Bytes, bytes, uint32, leb, ltb, ◌==◌, if◌then◌else◌, length, take, drop, key_ltb,
  key_eqb,
}
use amethyst.File.{Error, obsolete_segment, invalid_segment, nil_segment, Result, ok, err}
use amethyst.Types.{KvEntry, SegmentMeta}
use amethyst.SparseIndex.{SparseIndex, seek}
use amethyst.SegmentFile.{SegmentFile, get_mmap_data}

-- a buffer of `n` zeros with the bytes copied into it
unfoldable pub fill : ℕ → Bytes → Bytes
fill zero xs = []
fill (suc n) [] = 0 ∷ fill n []
fill (suc n) (x ∷ xs) = x ∷ fill n xs

-- `bytes.Reader.Read` into a buffer of `n` bytes: EOF where nothing is left, even for an empty
-- buffer; otherwise as many bytes as there are, and no error for too few.
unfoldable pub buf_read : ℕ → Bytes → Option (Bytes × Bytes)
unfolding fill
buf_read n [] = none
buf_read n (x ∷ xs) = some (fill n (x ∷ xs), drop n (x ∷ xs))

abbrev pub max_key_len : ℕ
max_key_len = 1024 * 1024

abbrev pub max_value_len : ℕ
max_value_len = 10 * 1024 * 1024

-- What a round of the two loops reads. `bad_length` is the test for huge lengths.
pub data Parsed : Type 0 where
  short bad_length : Parsed
  parsed : Key → Slice → ℕ → Bytes → Parsed

unfoldable pub parse_value : Key → ℕ → ℕ → Bytes → Parsed
unfolding buf_read
parse_value key v_len tomb rest =
    if v_len == 0 then parsed key none tomb rest else elim (buf_read v_len rest) [
      | none ↦ short
      | some (value, rest') ↦ parsed key (some value) tomb rest'
    ]

unfoldable pub parse_fields : ℕ → ℕ → ℕ → Bytes → Parsed
unfolding buf_read
parse_fields k_len v_len tomb rest =
    if ltb max_key_len k_len || ltb max_value_len v_len
    then bad_length
    else elim (buf_read k_len rest) [
      | none ↦ short
      | some (key, rest') ↦ parse_value key v_len tomb rest'
    ]

-- `binary.Read` of kLen, vLen and tomb: nine bytes or an error.
unfoldable pub parse_entry : Bytes → Parsed
parse_entry (a ∷ b ∷ c ∷ d ∷ e ∷ f ∷ g ∷ h ∷ tomb ∷ rest) =
    parse_fields (uint32 a b c d) (uint32 e f g h) tomb rest
parse_entry _ = short

-- The result of a lookup, the comparisons made, and whether they are added to the segment's total.
pub record Lookup : Type 0 where
  pub value : Slice
  pub ok : Bool
  pub comparisons : ℕ
  pub committed : Bool

abbrev pub not_found : ℕ → Bool → Lookup
not_found n committed = record { value = none; ok = false; comparisons = n; committed = committed }

-- What the lookup does with a parsed entry; `next` is the rest of the loop.
unfoldable pub judge : Key → ℕ → (Bytes → Lookup) → Parsed → Lookup
judge target n next short = not_found n false
judge target n next bad_length = not_found n false
judge target n next (parsed key value tomb rest) =
    if key_eqb key target
    then (if tomb == 1
        then not_found n true
        else record { value = value; ok = true; comparisons = n; committed = true })
    else if key_ltb target key
    then not_found n true
    else next rest

-- `for buf.Len() > 0`. A round consumes nine bytes at least: fuel for each byte is enough, and it
-- has run out only where no byte is left.
unfoldable pub get_loop : ℕ → Key → ℕ → Bytes → Lookup
unfolding judge
get_loop fuel target n [] = not_found n true
get_loop zero target n (x ∷ xs) = not_found n true
get_loop (suc fuel) target n (x ∷ xs) =
    judge target (n + 1) (get_loop fuel target (n + 1)) (parse_entry (x ∷ xs))

-- The bytes of `mmapData[start:end]`.
unfoldable pub slice : Bytes → ℕ → ℕ → Bytes
slice data' start stop = take (stop - start) (drop start data')

-- Behind `GetMmapData`.
unfoldable pub get_in : SegmentMeta → SparseIndex → Key → Result Bytes → Lookup
unfolding get_loop slice
get_in m idx target (err e) = not_found 0 false
get_in m idx target (ok mmap_data) =
    if m.length == 0
    then not_found 0 false
    else if ltb (length mmap_data) (m.offset + m.length)
    then not_found 0 false
    else (let (at, calls) = seek idx target in
        let start = m.offset + m.data_start_offset + at in
        let stop = m.offset + m.sparse_index_offset in
        if ltb (length mmap_data) stop || ltb stop start
        then not_found calls false
        else if ltb start m.offset || ltb (m.offset + m.length) stop
        then not_found calls false
        else (let data' = slice mmap_data start stop in get_loop (length data') target calls data'))

unfoldable pub get_indexed :
    SegmentMeta → Option SparseIndex → Key → SegmentFile → Lookup × SegmentFile
unfolding get_in
get_indexed m none target s = (not_found 0 false, s)
get_indexed m (some idx) target s = let (r, s') = get_mmap_data s in (get_in m idx target r, s')

-- The reads of a segment: its file and the global count of comparisons.
pub record ReadState : Type 0 where
  pub segment_file : SegmentFile
  pub global_read_comparisons : ℕ

-- The lookup proper, up to the two counters.
unfoldable pub look_up : SegmentMeta → Key → SegmentFile → Lookup × SegmentFile
unfolding get_indexed
look_up m target s =
    if m.obsolete
    then (not_found 0 false, s)
    else if key_ltb target m.min_key || key_ltb m.max_key target
    then (not_found 0 false, s)
    else get_indexed m m.sparse_index target s

-- The segment is returned with its count of comparisons.
unfoldable pub get :
    Option SegmentMeta → Key → ReadState → (Slice × Bool) × Option SegmentMeta × ReadState
unfolding look_up
get none target s = ((none, false), none, s)
get (some m) target s =
    let (r, f) = look_up m target s.segment_file in
    (
      (r.value, r.ok),
      some (record m {
        total_comparisons = m.total_comparisons + (if r.committed then r.comparisons else 0);
      }),
      record {
        segment_file = f;
        global_read_comparisons = s.global_read_comparisons + r.comparisons;
      },
    )

-- A Go map from keys to slices; `result[key] = v` overwrites or adds.
abbrev pub ByteMap : Type 0
ByteMap = List (Key × Slice)

unfoldable pub map_set : Key → Slice → ByteMap → ByteMap
map_set key v [] = (key, v) ∷ []
map_set key v ((k, w) ∷ m) = if key_eqb k key then (key, v) ∷ m else (k, w) ∷ map_set key v m

unfoldable pub map_get : Key → ByteMap → Option Slice
map_get key [] = none
map_get key ((k, w) ∷ m) = if key_eqb k key then some w else map_get key m

-- What the scan does with a parsed entry.
unfoldable pub collect : (ByteMap → Bytes → Result ByteMap) → ByteMap → Parsed → Result ByteMap
unfolding map_set
collect next result short = ok result
collect next result bad_length = err invalid_segment
collect next result (parsed key value tomb rest) =
    next (map_set key (if tomb == 1 then none else value) result) rest

unfoldable pub scan_loop : ℕ → ByteMap → Bytes → Result ByteMap
unfolding collect
scan_loop fuel result [] = ok result
scan_loop zero result (x ∷ xs) = ok result
scan_loop (suc fuel) result (x ∷ xs) = collect (scan_loop fuel) result (parse_entry (x ∷ xs))

abbrev pub max_scan_len : ℕ
max_scan_len = 500 * 1024 * 1024

-- Behind the second `GetMmapData`.
unfoldable pub scan_copy : ℕ → ℕ → ℕ → Result Bytes × SegmentFile → Result ByteMap × SegmentFile
unfolding scan_loop slice
scan_copy before start stop (err e, s) = (err e, s)
scan_copy before start stop (ok mmap_data, s) =
    if ltb (length mmap_data) before
    then (err invalid_segment, s)
    else if ltb (length mmap_data) stop
    then (err invalid_segment, s)
    else (let data' = slice mmap_data start stop in (scan_loop (length data') [] data', s))

-- Behind the first `GetMmapData`.
unfoldable pub scan_in : SegmentMeta → Result Bytes × SegmentFile → Result ByteMap × SegmentFile
unfolding scan_copy
scan_in m (err e, s) = (err e, s)
scan_in m (ok mmap_data, s) =
    if ltb (length mmap_data) (m.offset + m.length)
    then (err invalid_segment, s)
    else (let start = m.offset + m.data_start_offset in
        let stop = m.offset + m.sparse_index_offset in
        if ltb (length mmap_data) stop || ltb stop start
        then (err invalid_segment, s)
        else if ltb start m.offset || ltb (m.offset + m.length) stop
        then (err invalid_segment, s)
        else if ltb max_scan_len (stop - start)
        then (err invalid_segment, s)
        else scan_copy (length mmap_data) start stop (get_mmap_data s))

unfoldable pub scan : Option SegmentMeta → SegmentFile → Result ByteMap × SegmentFile
unfolding scan_in
scan none s = (err nil_segment, s)
scan (some m) s =
    if m.obsolete
    then (err obsolete_segment, s)
    else if m.length == 0
    then (err invalid_segment, s)
    else scan_in m (get_mmap_data s)
