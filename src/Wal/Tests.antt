-- ===== src/Wal/Tests.antt =====
-- The log's theorems at concrete logs.
use amethyst.Base.{◌≡◌, true, false, some, none, List, [], ◌∷◌, ◌++◌, take, arith}
use amethyst.Wal.Total.{Ended, read_all-Ended}
use amethyst.File.{success, failure, ok, File, healthy}
use amethyst.File.Reads.{at_offset}
use amethyst.Types.{WalEntry}
use amethyst.Wal.{header, read_all, truncate_wal}
use amethyst.Wal.Codec.{encode, encode_all, restore}
use amethyst.Wal.History.{LogOp, op_put, op_delete, perform_all, entries_of, read_all-truncate_wal}
use amethyst.Wal.Torn.{Refused, read_all-torn}

abbrev before : List LogOp
before = op_put (1 ∷ []) (some (9 ∷ [])) ∷ []

abbrev after : List LogOp
after = op_put (2 ∷ []) none ∷ op_delete (1 ∷ []) ∷ []

read_all-truncate_wal_example :
    (f : File) × (read_all (perform_all after (truncate_wal (perform_all before (healthy []))).1)
      ≡ some (
        ok (
            record { key = 2 ∷ []; value = some []; tombstone = false }
            ∷ record { key = 1 ∷ []; value = some []; tombstone = true }
            ∷ []),
        f,
      ))
unfolding entries_of restore
read_all-truncate_wal_example = read_all-truncate_wal before after (
  record { key = omega arith; value = omega arith },
  (record { key = omega arith; value = omega arith }, tt),
)

abbrev whole : WalEntry
whole = record { key = 2 ∷ []; value = some (4 ∷ []); tombstone = false }

read_all-torn_example :
    Refused (read_all (at_offset (encode_all (whole ∷ []) ++ take 10 (encode whole)) 0))
unfolding encode header
read_all-torn_example =
    read_all-torn (whole ∷ []) whole 10 0 (record { key = omega arith; value = omega arith }, tt)
      (record { key = omega arith; value = omega arith }) (omega arith) (omega arith)

-- a file on which the second call fails
abbrev flaky : File
flaky = record { content = 0 ∷ 0 ∷ 1 ∷ []; offset = 3; outcomes = success ∷ failure 0 ∷ [] }

read_all-Ended_example : Ended (read_all flaky)
read_all-Ended_example = read_all-Ended flaky
