-- ===== src/Lib.antt =====
-- A verification library for Amethyst, a key-value store on a log-structured merge tree that switches
-- its segments between tiered and leveled compaction.
--
-- The program. A write goes to the write-ahead log and then to the memtable; a full memtable is
-- flushed into a segment, a sorted run of entries with a sparse index, which is appended to the one
-- segment file, and the log is emptied. A read asks the memtable and then the segments that the
-- metadata tracker gives for the key. Compaction is in three parts: the adaptive controller watches
-- the reads and writes of a segment and asks for a switch of its strategy, the director chooses the
-- segments to merge, and the executor scans them, merges them and writes one new segment.
--
-- The files:
--   Base, with Base/Tests, Lists, Keys and Words: Booleans, lists, strings as keys, and integers of 32
--     and 64 bits as bytes;
--   Search: sort.Search of Go's library, with the calls it makes of its predicate; Search/Boundary;
--   File: the calls of *os.File, each of which can fail; File/Reads;
--   Types: amethyst/internal/common/types.go (SegmentMeta, WALEntry, KVEntry and their methods);
--   Memtable: amethyst/internal/memtable/memtable.go (new_memtable, put, delete, get, should_flush,
--     flush); Position, Upsert, Lookup and Refinement relate it to a map;
--   Wal: amethyst/internal/wal/wal.go (log_put, log_delete, read_all, truncate_wal); Codec, History,
--     Torn and Total are about whole logs, damaged ones and any file;
--   SparseIndex: amethyst/internal/sparseindex/sparseindex.go (build, seek); Sample and Floor;
--   SegmentFile: amethyst/internal/segmentfile/segmentfile.go (append, read_at, get_mmap_data,
--     release_mmap, delete_file); Window;
--   Sstable/Writer: amethyst/internal/sstable/writer/writer.go (write_segment);
--   Sstable/Reader: amethyst/internal/sstable/reader/reader.go (get, scan), with the lemmas on one
--     entry, on the bytes between two offsets and on the loops below it; Sstable/RoundTrip relates
--     writer and reader;
--   Metadata: amethyst/internal/metadata/metadata.go (register_segment, get_overlapping_segments,
--     get_segments_for_key, get_all_segments, mark_obsolete_id, update_stats); Heap and Query;
--   Read: amethyst/internal/read/read.go (get); Held, Newest and Ordered;
--   Engine: amethyst/internal/engine/engine.go (put, execute_flush); Durable and Failure;
--   Adaptive: amethyst/internal/adaptive/controller.go (should_rewrite); Switch;
--   Compaction/Director: amethyst/internal/compaction/director.go (maybe_plan); Overlaps, Sound
--     and Complete;
--   Compaction/Executor: amethyst/internal/compaction/executor.go (execute); Merge,
--     Effects, Outcomes, Flags, Readable and Whole;
--   Driver: amethyst/cmd/amethystd/main.go, the state that the workloads share and their steps
--     (write_one, read_one, background_round, compact_once); Driver/Format is the key that is
--     printed for a number, Driver/Workloads has the workloads (run_shift to run_zipfian),
--     Driver/Metrics the Zipfian draw, the results and main. Store, Apart, Flush, Reads, Refinement and
--     Reach relate the state to the list of the writes; Order is about the keys, Populate, PureRead
--     and Main about a whole run, Sizes, Totals, Accounts, Loops, Reported and Steps about the
--     counters, Live about the live keys, Panics about a run with one key, and Zipf about the draw.
--
-- How the parts are composed. The driver's state holds the log, the memtable, the tracker and the
-- disk; a write calls log_put, put and, on a full memtable, flush, write_segment, register_segment
-- and truncate_wal. Its reads go through get_segments_for_key and the reader as the read handler's
-- do. Background compaction is a step between two steps of a workload.
--
-- How the code is modelled. A method that holds its lock throughout is one step on a state that is
-- passed on. An error is a value. A call on a file has an outcome taken from a list in the file's
-- state: it succeeds, or fails after a number of bytes; where the list is over, calls succeed.
-- Strings and byte slices are lists of natural numbers, and a nil slice is none. Lengths in records
-- wrap at 32 bits, offsets in the index at 64. Segments that the program shares by pointer are
-- numbers into a heap. Arguments stand for what the code takes from elsewhere: ids, readings of the
-- clock, random numbers, floating-point numbers, the order of a loop over a map, and sort.Slice. A
-- panic is an outcome of its own.
--
-- Bounds. The loop of ReadAll has fuel for each byte of the file and one round more, and a round
-- reads nine bytes at least (Wal/Total); the loops of the reader have fuel for each byte
-- (Sstable/Reader/Fuel). The digits of a number have fuel for the number and one more
-- (Driver/Order). The counters and the sizes are natural numbers without a bound; a value that the
-- code tests for being negative is never negative in the model.
--
-- Not modelled: what the driver prints and saves as JSON, and its pauses; log lines; threads that
-- run inside a method of another; SegmentMeta.ReadWriteRatio, which nothing calls; and
-- Director.UpdateMetrics, which does nothing.
pub mod Base
pub mod Search
pub mod SparseIndex
pub mod Types
pub mod File
pub mod Wal
pub mod SegmentFile
pub mod Sstable
pub mod Memtable
pub mod Metadata
pub mod Read
pub mod Engine
pub mod Adaptive
pub mod Compaction
pub mod Driver
