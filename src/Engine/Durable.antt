-- ===== src/Engine/Durable.antt =====
-- The log holds what the memtable holds, so nothing acknowledged depends on memory alone.
use mathlib.Core.Path.{subst}
use amethyst.Base.{
  ℕ, ◌<◌, ◌≡◌, refl, ◌∙◌, ap, sym, false, some, List, [], ◌∷◌, ◌++◌, Key, Slice, Bytes,
  if◌then◌else◌, All,
}
use amethyst.File.{File, ok, healthy}
use amethyst.File.Reads.{at_offset}
use amethyst.Types.{KvEntry, WalEntry, SegmentMeta, tiered}
use amethyst.Memtable
use amethyst.Memtable.{Memtable, new_memtable}
use amethyst.Memtable.Position.{IsSorted}
use amethyst.Memtable.Lookup.{find}
use amethyst.Memtable.Refinement.{Write, write_put, write_delete, step, run, flush-eq}
use amethyst.Wal.{log_put, truncate_wal}
use amethyst.Wal.Codec.{encode, encode_all, encode_all-append}
use amethyst.Wal.History.{op_put, perform_lem, perform, truncate_wal_lem}
use amethyst.Sstable.Writer.{Disk, write_segment}
use amethyst.Sstable.Reader.{look_up}
use amethyst.Sstable.Reader.Entry.{IsReadable}
use amethyst.Sstable.Reader.Found.{seen}
use amethyst.Sstable.RoundTrip.Written.{IsHealthy, write_segment-IsWritten}
use amethyst.Sstable.RoundTrip.Stored.{look_up-IsStored}
use amethyst.Engine.{Engine, done, put, execute_flush}

-- The write that a record of the log stands for.
abbrev pub write_of : WalEntry → Write
write_of e = if e.tombstone then write_delete e.key else write_put e.key e.value

unfoldable pub writes_of : List WalEntry → List Write
writes_of [] = []
writes_of (e ∷ es) = write_of e ∷ writes_of es

-- The log holds `records` and no call on it fails; the memtable is what they make of an empty one.
pub record IsDurable (e : Engine) (records : List WalEntry) : Type 0 where
  pub offset : ℕ
  pub log : e.wal ≡ at_offset (encode_all records) offset
  pub limit : ℕ
  pub table : e.mem ≡ run (writes_of records) (new_memtable limit)

run-append :
    (records : List WalEntry) (r : WalEntry) (m : Memtable)
    → run (writes_of (records ++ (r ∷ []))) m ≡ step (write_of r) (run (writes_of records) m)
unfolding run writes_of
run-append [] r m = refl
run-append (x ∷ xs) r m = run-append xs r (step (write_of x) m)

-- What Put does before the flush.
abbrev record_for : Key → Slice → WalEntry
record_for key value = record { key = key; value = value; tombstone = false }

put_logged :
    (id : Key) (now : ℕ) (key : Key) (value : Slice) (e : Engine) (records : List WalEntry)
    → (d : IsDurable e records)
    → (f : File) × (log_put key value e.wal ≡ (ok tt, f))
      × IsDurable
          (record e { wal = f; mem = Memtable.put key value e.mem })
          (records ++ (record_for key value ∷ []))
put_logged id now key value e records d =
    let (o, logs) = perform_lem (op_put key value) (encode_all records) d.offset in
    (
      at_offset (encode_all records ++ encode (record_for key value)) o,
      ap (log_put key value) d.log ∙ unfold perform in logs,
      record {
        offset = o;
        log = ap (λ c. at_offset c o) (sym (encode_all-append records (record_for key value)));
        limit = d.limit;
        table =
            ap (Memtable.put key value) d.table
            ∙ sym (run-append records (record_for key value) (new_memtable d.limit));
      },
    )

-- Where the limit is not reached, Put succeeds, leaves the disk alone, and keeps the log and the
-- memtable in step: the log has one record more, and the memtable is what the records make of an
-- empty one.
pub put-IsDurable :
    (id : Key) (now : ℕ) (key : Key) (value : Slice) (e : Engine) (records : List WalEntry)
    → IsDurable e records
    → Memtable.should_flush (Memtable.put key value e.mem) ≡ false
    → ((put id now key value e).0 ≡ done)
      × IsDurable (put id now key value e).1 (records ++ (record_for key value ∷ []))
      × ((put id now key value e).1.disk ≡ e.disk)
unfolding put
put-IsDurable id now key value e records d room =
    let (f, logs, durable) = put_logged id now key value e records d in
    rw (logs, room) (refl, durable, refl)

execute_flush_ok :
    (id : Key) (now : ℕ) (e : Engine) (m : SegmentMeta) (d : Disk) (f : File)
    → write_segment e.builder id now e.mem.entries tiered 0 e.disk ≡ (ok (some m), d)
    → truncate_wal e.wal ≡ (ok tt, f)
    → execute_flush id now e
      ≡ (done, record e { wal = f; mem = record e.mem { entries = [] }; disk = d })
unfolding execute_flush
execute_flush_ok id now e m d f wrote cleared = rw (flush-eq e.mem, wrote, cleared)

-- A flush of a memtable that is not empty.
module _ (id : Key) (now : ℕ) (e : Engine) (x : KvEntry) (xs : List KvEntry) (content : Bytes)
    (o : ℕ) (held : e.mem.entries ≡ x ∷ xs) (log : e.wal ≡ at_offset content o)
    (pos : 0 < e.builder.stride) (sorted : IsSorted (x ∷ xs)) (readable : All IsReadable (x ∷ xs))
    (fit : IsHealthy e.disk.segment_file) where
  abbrev flushed : Engine
  flushed = (execute_flush id now e).1

  -- With entries that the reader can read, a healthy segment file, a positive stride and a log on
  -- which no call fails, ExecuteFlush succeeds. It leaves an empty log and an empty memtable, and on
  -- disk a segment whose lookups return for every key the value of its entry (nil for an empty one)
  -- and true, or nil and false where it has a tombstone or no entry.
  pub execute_flush-kept :
      ((execute_flush id now e).0 ≡ done)
      × (flushed.wal ≡ healthy [])
      × (flushed.mem.entries ≡ [])
      × ((m : SegmentMeta) × ((key : Key)
            → (
              (look_up m key flushed.disk.segment_file).0.value,
              (look_up m key flushed.disk.segment_file).0.ok,
            )
              ≡ seen (find (x ∷ xs) key)))
  execute_flush-kept =
      let (m, wrote, w) =
        write_segment-IsWritten e.builder id now 0 tiered x xs e.disk pos sorted readable fit in
      let d = (write_segment e.builder id now (x ∷ xs) tiered 0 e.disk).1 in
      let whole : write_segment e.builder id now (x ∷ xs) tiered 0 e.disk ≡ (ok (some m), d) =
        λ i. (wrote i, d) in
      let cleared = ap truncate_wal log ∙ truncate_wal_lem content o in
      let same =
        execute_flush_ok id now e m d (healthy [])
          (ap (λ es. write_segment e.builder id now es tiered 0 e.disk) held ∙ whole) cleared in
      subst
        (λ r.
          (r.0 ≡ done)
          × (r.1.wal ≡ healthy [])
          × (r.1.mem.entries ≡ [])
          × ((m' : SegmentMeta) × ((key : Key)
                → (
                  (look_up m' key r.1.disk.segment_file).0.value,
                  (look_up m' key r.1.disk.segment_file).0.ok,
                )
                  ≡ seen (find (x ∷ xs) key))))
        (sym same)
        (
          refl,
          refl,
          refl,
          (
            m,
            λ key.
                look_up-IsStored e.builder m x xs d.segment_file key w.stored w.live
                  w.healthy.outcomes w.healthy.window,
          ),
        )
