-- ===== src/Types.antt =====
-- amethyst/internal/common/types.go: the entries and the metadata of a segment. The atomic counters
-- are natural numbers; sizes, offsets and times are never negative where the program sets them.
use amethyst.Base.{ℕ, ◌+◌, Bool, true, Option, Key, Slice, leb}
use amethyst.SparseIndex.{SparseIndex}

pub data CompactionType : Type 0 where
  tiered leveled : CompactionType

pub record WalEntry : Type 0 where
  pub key : Key
  pub value : Slice
  pub tombstone : Bool

pub record KvEntry : Type 0 where
  pub key : Key
  pub value : Slice
  pub tombstone : Bool

pub record SegmentMeta : Type 0 where
  pub id : Key
  pub level : ℕ
  pub offset : ℕ
  pub length : ℕ
  pub min_key : Key
  pub max_key : Key
  pub strategy : CompactionType
  pub read_count : ℕ
  pub write_count : ℕ
  pub overlap_count : ℕ
  pub total_comparisons : ℕ
  pub created_at : ℕ
  pub last_rewrite_at : ℕ
  pub obsolete : Bool
  pub in_compaction : Bool
  pub sparse_index : Option SparseIndex
  pub data_start_offset : ℕ
  pub sparse_index_offset : ℕ

unfoldable pub increment_reads : SegmentMeta → SegmentMeta
increment_reads s = record s { read_count = s.read_count + 1 }

unfoldable pub increment_writes : SegmentMeta → SegmentMeta
increment_writes s = record s { write_count = s.write_count + 1 }

unfoldable pub add_reads : ℕ → SegmentMeta → SegmentMeta
add_reads count s = record s { read_count = s.read_count + count }

unfoldable pub add_writes : ℕ → SegmentMeta → SegmentMeta
add_writes count s = record s { write_count = s.write_count + count }

abbrev pub get_read_count : SegmentMeta → ℕ
get_read_count s = s.read_count

abbrev pub get_write_count : SegmentMeta → ℕ
get_write_count s = s.write_count

unfoldable pub mark_obsolete : SegmentMeta → SegmentMeta
mark_obsolete s = record s { obsolete = true }

abbrev pub is_obsolete : SegmentMeta → Bool
is_obsolete s = s.obsolete

abbrev pub size : SegmentMeta → ℕ
size s = s.length

-- `now - lastRewriteAt >= minInterval`, on signed numbers
unfoldable pub cooldown_expired : ℕ → ℕ → SegmentMeta → Bool
cooldown_expired now min_interval s = leb (s.last_rewrite_at + min_interval) now

unfoldable pub update_last_rewrite_at : ℕ → SegmentMeta → SegmentMeta
update_last_rewrite_at timestamp s = record s { last_rewrite_at = timestamp }
