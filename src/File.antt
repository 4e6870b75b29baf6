-- ===== src/File.antt =====
-- An `os.File` of Go's standard library, as the write-ahead log and the segment file use it: opened
-- with O_APPEND, so a write goes to the end, while reads start at the offset. Each call consumes an
-- outcome: a call that fails does nothing, but for a write, which may store a part first. When the
-- list of outcomes is used up the calls succeed.
pub mod Reads
use amethyst.Base.{
  ℕ, zero, suc, ◌+◌, ◌-◌, List, [], ◌∷◌, ◌++◌, Bytes, ltb, ◌==◌, if◌then◌else◌, length, take, drop,
}

pub data Outcome : Type 0 where
  success : Outcome
  -- the bytes that a write stores before it fails
  failure : ℕ → Outcome

pub data Error : Type 0 where
  eof unexpected_eof io_failure obsolete_segment invalid_segment nil_segment : Error

pub data Result {ℓ} (A : Type ℓ) : Type ℓ where
  ok : A → Result A
  err : Error → Result A

pub record File : Type 0 where
  pub content : Bytes
  pub offset : ℕ
  pub outcomes : List Outcome

-- a file on which no call fails
abbrev pub healthy : Bytes → File
healthy content = record { content = content; offset = 0; outcomes = [] }

abbrev pub Io {ℓ} : Type ℓ → Type ℓ
Io A = File → Result A × File

module _ {ℓ κ} {A : Type ℓ} {B : Type κ} where
  abbrev continue : Result A → (A → File → Result B × File) → File → Result B × File
  continue (ok a) k f = k a f
  continue (err e) k f = (err e, f)

  infixl 5 ◌>>=◌ ◌>>◌
  abbrev pub ◌>>=◌ : Io A → (A → File → Result B × File) → File → Result B × File
  ◌>>=◌ m k f = continue (m f).0 k (m f).1

  abbrev pub ◌>>◌ : Io A → (File → Result B × File) → File → Result B × File
  m >> k = m >>= λ _. k

abbrev pub pure {ℓ} : {A : Type ℓ} → A → Io A
pure a f = (ok a, f)

abbrev pub fail {ℓ} : {A : Type ℓ} → Error → Io A
fail e f = (err e, f)

-- A call with no effect of its own that can fail.
call : List Outcome → Bytes → ℕ → Bytes → ℕ → Result (Unit {0}) × File
call [] content offset content' offset' =
    (ok tt, record { content = content'; offset = offset'; outcomes = [] })
call (success ∷ os) content offset content' offset' =
    (ok tt, record { content = content'; offset = offset'; outcomes = os })
call (failure n ∷ os) content offset content' offset' =
    (err io_failure, record { content = content; offset = offset; outcomes = os })

append_outcome : List Outcome → Bytes → ℕ → Bytes → Result (Unit {0}) × File
append_outcome [] content offset bytes = (
  ok tt,
  record { content = content ++ bytes; offset = length (content ++ bytes); outcomes = [] },
)
append_outcome (success ∷ os) content offset bytes = (
  ok tt,
  record { content = content ++ bytes; offset = length (content ++ bytes); outcomes = os },
)
append_outcome (failure n ∷ os) content offset bytes = (
  err io_failure,
  record {
    content = content ++ take n bytes;
    offset = length (content ++ take n bytes);
    outcomes = os;
  },
)

-- `Write`
unfoldable pub write : Bytes → Io (Unit {0})
unfolding append_outcome
write bytes f = append_outcome f.outcomes f.content f.offset bytes

-- `Seek(n, 0)`
unfoldable pub seek : ℕ → Io (Unit {0})
unfolding call
seek n f = call f.outcomes f.content f.offset f.content n

-- `Truncate(0)`, which leaves the offset where it is
unfoldable pub truncate : Io (Unit {0})
unfolding call
truncate f = call f.outcomes f.content f.offset [] f.offset

-- A call that looks at the file only: `Stat`, `Sync`, `Mmap`.
unfoldable pub probe : Io (Unit {0})
unfolding call
probe f = call f.outcomes f.content f.offset f.content f.offset

-- `io.ReadFull` with a buffer of `n` bytes: nothing is read for an empty one; otherwise all, or
-- EOF where no byte is left, or what is left and ErrUnexpectedEOF.
read_rest : ℕ → Bytes → File → Result Bytes × File
read_rest n rest f =
    if length rest == 0
    then (err eof, f)
    else if ltb (length rest) n
    then (err unexpected_eof, record f { offset = length f.content })
    else (ok (take n rest), record f { offset = f.offset + n })

read_outcome : ℕ → List Outcome → Bytes → ℕ → Result Bytes × File
unfolding read_rest
read_outcome n [] content offset =
    read_rest n (drop offset content) (record { content = content; offset = offset; outcomes = [] })
read_outcome n (success ∷ os) content offset =
    read_rest n (drop offset content) (record { content = content; offset = offset; outcomes = os })
read_outcome n (failure k ∷ os) content offset =
    (err io_failure, record { content = content; offset = offset; outcomes = os })

unfoldable pub read_full : ℕ → Io Bytes
unfolding read_outcome
read_full n f = if n == 0 then (ok [], f) else read_outcome n f.outcomes f.content f.offset

file_size : Io ℕ
file_size f = (ok (length f.content), f)

-- `Stat().Size()`
unfoldable pub stat : Io ℕ
unfolding probe file_size
stat = probe >> file_size
