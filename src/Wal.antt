-- ===== src/Wal.antt =====
-- amethyst/internal/wal/wal.go: the write-ahead log, a file of records. A method holds the lock
-- throughout, so it is one step on the file. `NewDiskWAL` is the only maker of a log, and never
-- makes one with a nil file.
pub mod Codec
pub mod History
pub mod Torn
pub mod Total
pub mod Tests
use amethyst.Base.{
  ℕ, zero, suc, ◌+◌, Bool, true, false, Option, none, some, List, [], ◌∷◌, ◌++◌, Key, Slice, Bytes,
  bytes, put_uint32, uint32, ◌==◌, if◌then◌else◌, length, get_or,
}
use amethyst.File.{
  Outcome, Error, eof, unexpected_eof, io_failure, Result, ok, err, File, Io, ◌>>=◌, ◌>>◌, pure,
  fail, write, seek, truncate, read_full,
}
use amethyst.Types.{WalEntry}

pub record DiskWal : Type 0 where
  pub file : File
  pub path : Key

-- `os.OpenFile` gives the file that is there, or a new one.
unfoldable pub new_disk_wal : Key → Result File → Result DiskWal
new_disk_wal path (ok f) = ok (record { file = f; path = path })
new_disk_wal path (err e) = err e

-- KeyLen(4) | ValLen(4) | Tombstone(1)
unfoldable pub header : WalEntry → Bytes
header e =
    put_uint32 (length e.key)
    ++ (put_uint32 (length (bytes e.value)) ++ ((if e.tombstone then 1 else 0) ∷ []))

-- Three writes; the first that fails ends the call.
unfoldable pub write_record : WalEntry → Io (Unit {0})
write_record e = do write (header e); write e.key; write (bytes e.value)

unfoldable pub log_put : Key → Slice → Io (Unit {0})
log_put key value = write_record (record { key = key; value = value; tombstone = false })

unfoldable pub log_delete : Key → Io (Unit {0})
log_delete key = write_record (record { key = key; value = none; tombstone = true })

-- One round of the loop of `ReadAll`: `none` at the end of the file.
unfoldable pub end_of_file : Result Bytes → Result (Option Bytes)
end_of_file (ok h) = ok (some h)
end_of_file (err eof) = ok none
end_of_file (err e) = err e

unfoldable pub read_header : Io (Option Bytes)
unfolding end_of_file
read_header f = let (r, f') = read_full 9 f in (end_of_file r, f')

unfoldable pub read_body : Bytes → Io WalEntry
read_body h = do
  key_buf ← read_full (uint32 (get_or h 0 0) (get_or h 1 0) (get_or h 2 0) (get_or h 3 0))
  val_buf ← read_full (uint32 (get_or h 4 0) (get_or h 5 0) (get_or h 6 0) (get_or h 7 0))
  pure (record { key = key_buf; value = some val_buf; tombstone = get_or h 8 0 == 1 })

-- What follows a record's body, and a header: `rest` is the loop from there on.
abbrev pub Rounds : Type 0
Rounds = List WalEntry → File → Option (Result (List WalEntry) × File)

unfoldable pub after_body :
    Rounds → List WalEntry → Result WalEntry × File → Option (Result (List WalEntry) × File)
after_body rest entries (ok entry, f) = rest (entries ++ (entry ∷ [])) f
after_body rest entries (err e, f) = some (err e, f)

unfoldable pub after_header :
    Rounds → List WalEntry → Result (Option Bytes) × File → Option (Result (List WalEntry) × File)
unfolding after_body
after_header rest entries (ok (some h), f) = after_body rest entries (read_body h f)
after_header rest entries (ok none, f) = some (ok entries, f)
after_header rest entries (err e, f) = some (err e, f)

-- The loop, on fuel; `none` means that the fuel ran out.
unfoldable pub read_loop : ℕ → Rounds
unfolding after_header
read_loop zero entries f = none
read_loop (suc fuel) entries f = after_header (read_loop fuel) entries (read_header f)

unfoldable pub read_from : Result (Unit {0}) × File → Option (Result (List WalEntry) × File)
unfolding read_loop
read_from (ok _, f) = read_loop (suc (length f.content)) [] f
read_from (err e, f) = some (err e, f)

-- A round consumes nine bytes at least, so a round for each byte and one more is enough.
unfoldable pub read_all : File → Option (Result (List WalEntry) × File)
unfolding read_from
read_all f = read_from (seek 0 f)

unfoldable pub truncate_wal : Io (Unit {0})
truncate_wal = do truncate; seek 0
