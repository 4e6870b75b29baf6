-- ===== src/Wal/History.antt =====
-- A client's operations on the log, and what a later ReadAll returns.
use amethyst.Base.{
  ℕ, ◌≡◌, refl, true, false, some, none, List, [], ◌∷◌, ◌++◌, append-nil, append_assoc, Key, Slice,
  Bytes, All,
}
use amethyst.File.{Result, ok, File, write, seek, truncate, healthy}
use amethyst.File.Reads.{at_offset}
use amethyst.Types.{WalEntry}
use amethyst.Wal.{write_record, log_put, log_delete, read_all, truncate_wal}
use amethyst.Wal.Codec.{encode, encode_all, Fits, restore, read_all-encode_all}

-- A log operation of a client.
pub data LogOp : Type 0 where
  op_put : Key → Slice → LogOp
  op_delete : Key → LogOp

abbrev pub entry_of : LogOp → WalEntry
entry_of (op_put key value) = record { key = key; value = value; tombstone = false }
entry_of (op_delete key) = record { key = key; value = none; tombstone = true }

unfoldable pub perform : LogOp → File → Result (Unit {0}) × File
perform (op_put key value) f = log_put key value f
perform (op_delete key) f = log_delete key f

unfoldable pub perform_all : List LogOp → File → File
perform_all [] f = f
perform_all (op ∷ ops) f = perform_all ops (perform op f).1

-- A write on a file that does not fail appends the whole record.
pub perform_lem :
    (op : LogOp) (content : Bytes) (o : ℕ)
    → (o' : ℕ) × (perform op (at_offset content o)
        ≡ (ok tt, at_offset (content ++ encode (entry_of op)) o'))
unfolding perform log_put log_delete write_record write encode
perform_lem (op_put key value) content o =
    ((perform (op_put key value) (at_offset content o)).1.offset, simp append_assoc)
perform_lem (op_delete key) content o =
    ((perform (op_delete key) (at_offset content o)).1.offset, simp append_assoc)

unfoldable pub entries_of : List LogOp → List WalEntry
entries_of [] = []
entries_of (op ∷ ops) = entry_of op ∷ entries_of ops

pub perform_all_lem :
    (ops : List LogOp) (content : Bytes) (o : ℕ)
    → (o' : ℕ) × (perform_all ops (at_offset content o)
        ≡ at_offset (content ++ encode_all (entries_of ops)) o')
unfolding perform_all entries_of encode_all
perform_all_lem [] content o = (o, rw append-nil)
perform_all_lem (op ∷ ops) content o =
    let (o1, first) = perform_lem op content o in
    let (o2, then_rest) = perform_all_lem ops (content ++ encode (entry_of op)) o1 in
    (o2, rw (first, then_rest, append_assoc))

pub truncate_wal_lem :
    (content : Bytes) (o : ℕ) → truncate_wal (at_offset content o) ≡ (ok tt, healthy [])
unfolding truncate_wal truncate seek
truncate_wal_lem content o = refl

-- On a file on which no call fails, and with lengths that fit 32 bits: after any operations, a
-- Truncate and further operations, ReadAll returns the entries of the further operations, in order
-- and no other, a nil value coming back empty.
pub read_all-truncate_wal :
    (before after : List LogOp)
    → All Fits (entries_of after)
    → (f : File) × (read_all (perform_all after (truncate_wal (perform_all before (healthy []))).1)
        ≡ some (ok (restore (entries_of after)), f))
read_all-truncate_wal before after fits =
    let (o1, logged) = perform_all_lem before [] 0 in
    let (o2, again) = perform_all_lem after [] 0 in
    let (f, read) = read_all-encode_all (entries_of after) o2 fits in
    (f, rw (logged, truncate_wal_lem, again) read)
