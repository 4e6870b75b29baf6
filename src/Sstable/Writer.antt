-- ===== src/Sstable/Writer.antt =====
-- amethyst/internal/sstable/writer/writer.go: a sorted run of entries becomes the bytes of a segment
-- and its metadata. The segment's id (a uuid) and the time are arguments.
use amethyst.Base.{
  ℕ, ◌+◌, ◌-◌, false, Option, none, some, List, [], ◌∷◌, ◌++◌, Key, Bytes, bytes, put_uint32,
  put_uint64, ◌==◌, if◌then◌else◌, length, get_or,
}
use amethyst.File.{Result, ok, err}
use amethyst.Types.{CompactionType, tiered, leveled, KvEntry, SegmentMeta, update_last_rewrite_at}
use amethyst.SparseIndex.{SparseIndex, Builder, build}
use amethyst.SegmentFile.{SegmentFile, append}

-- The counters of bytes written, at level 0 and below it.
pub record WriteCounters : Type 0 where
  pub physical_write_bytes : ℕ
  pub compaction_write_bytes : ℕ

pub record Disk : Type 0 where
  pub segment_file : SegmentFile
  pub counters : WriteCounters

abbrev pub strategy_byte : CompactionType → ℕ
strategy_byte tiered = 0
strategy_byte leveled = 1

unfoldable pub write_string : Bytes → Bytes → Bytes
write_string buf s = buf ++ (put_uint32 (length s) ++ s)

-- the header and the metadata in front of the entries
unfoldable pub segment_header : Key → Key → Key → CompactionType → ℕ → Bytes
unfolding write_string
segment_header id min_key max_key strategy count =
    write_string (write_string (write_string [] id) min_key) max_key
    ++ (strategy_byte strategy ∷ put_uint64 count)

unfoldable pub entry_header : KvEntry → Bytes
entry_header e =
    put_uint32 (length e.key)
    ++ (put_uint32 (length (bytes e.value)) ++ ((if e.tombstone then 1 else 0) ∷ []))

-- The state of the loop over the entries.
pub record DataLoop : Type 0 where
  pub buf : Bytes
  pub keys : List Key
  pub offsets : List ℕ

unfoldable pub write_entries : ℕ → List KvEntry → DataLoop → DataLoop
unfolding entry_header
write_entries data_start [] s = s
write_entries data_start (e ∷ es) s = write_entries data_start es (record {
  buf = s.buf ++ (entry_header e ++ (e.key ++ bytes e.value));
  keys = s.keys ++ (e.key ∷ []);
  offsets = s.offsets ++ ((length s.buf - data_start) ∷ []);
})

-- `for i, k := range sparse.Keys`; the list `offsets` is read in step with the keys.
unfoldable pub write_index : List Key → List ℕ → Bytes → Bytes
write_index [] offsets buf = buf
write_index (k ∷ ks) offsets buf =
    write_index ks (elim offsets [ [] ↦ [] | o ∷ os ↦ os ])
      (buf ++ (put_uint32 (length k) ++ (k ++ put_uint64 (get_or offsets 0 0))))

-- The segment's bytes, its index, and the offsets of its entries and of its index.
pub record Layout : Type 0 where
  pub buf : Bytes
  pub sparse : SparseIndex
  pub data_start_offset : ℕ
  pub sparse_offset : ℕ

unfoldable pub last_key : KvEntry → List KvEntry → Key
last_key e [] = e.key
last_key e (x ∷ xs) = last_key x xs

-- Behind the loop over the entries: the index and the footer.
unfoldable pub finish_layout : Builder → ℕ → DataLoop → Layout
finish_layout b start out =
    let sparse = build b out.keys out.offsets in
    let sparse_offset = length out.buf in
    record {
      buf = write_index sparse.keys sparse.offsets out.buf ++ put_uint64 sparse_offset;
      sparse = sparse;
      data_start_offset = start;
      sparse_offset = sparse_offset;
    }

unfoldable pub lay_out_from : Builder → Bytes → List KvEntry → Layout
lay_out_from b head entries =
    finish_layout b (length head)
      (write_entries (length head) entries (record { buf = head; keys = []; offsets = [] }))

unfoldable pub lay_out : Builder → Key → CompactionType → KvEntry → List KvEntry → Layout
lay_out b id strategy e es =
    lay_out_from b (segment_header id e.key (last_key e es) strategy (length (e ∷ es))) (e ∷ es)

unfoldable pub count_bytes : ℕ → ℕ → WriteCounters → WriteCounters
count_bytes level n c =
    if level == 0
    then record c { physical_write_bytes = c.physical_write_bytes + n }
    else record c { compaction_write_bytes = c.compaction_write_bytes + n }

unfoldable pub new_meta :
    Key → ℕ → CompactionType → ℕ → KvEntry → List KvEntry → Layout → ℕ → ℕ → SegmentMeta
unfolding last_key update_last_rewrite_at
new_meta id now strategy level e es out offset size = update_last_rewrite_at now (record {
  id = id;
  level = level;
  offset = offset;
  length = size;
  min_key = e.key;
  max_key = last_key e es;
  strategy = strategy;
  read_count = 0;
  write_count = 0;
  overlap_count = 0;
  total_comparisons = 0;
  created_at = now;
  last_rewrite_at = 0;
  obsolete = false;
  in_compaction = false;
  sparse_index = some out.sparse;
  data_start_offset = out.data_start_offset;
  sparse_index_offset = out.sparse_offset;
})

-- What follows `Append`.
unfoldable pub appended :
    Key
    → ℕ
    → CompactionType
    → ℕ
    → KvEntry
    → List KvEntry
    → Layout
    → WriteCounters
    → Result (ℕ × ℕ) × SegmentFile
    → Result (Option SegmentMeta) × Disk
unfolding new_meta count_bytes
appended id now strategy level e es out c (err x, f) =
    (err x, record { segment_file = f; counters = c })
appended id now strategy level e es out c (ok (offset, size), f) = (
  ok (some (new_meta id now strategy level e es out offset size)),
  record { segment_file = f; counters = count_bytes level size c },
)

-- No entries, no segment: `nil, nil`.
unfoldable pub write_segment :
    Builder
    → Key
    → ℕ
    → List KvEntry
    → CompactionType
    → ℕ
    → Disk
    → Result (Option SegmentMeta) × Disk
unfolding appended
write_segment b id now [] strategy level d = (ok none, d)
write_segment b id now (e ∷ es) strategy level d =
    let out = lay_out b id strategy e es in
    appended id now strategy level e es out d.counters (append out.buf d.segment_file)
