-- ===== src/SegmentFile.antt =====
-- amethyst/internal/segmentfile/segmentfile.go: the append-only file of all segments, and its memory
-- map. A method is one step on the state. The map is shared and the file only grows, so the mapped
-- bytes are those of the file at the time of mapping. `Munmap` succeeds.
pub mod Window
pub mod Tests
use amethyst.Base.{
  ℕ, zero, suc, ◌+◌, ◌-◌, ◌≡◌, Bool, true, false, ◌&&◌, Option, none, some, List, [], ◌++◌, Key,
  Slice, Bytes, bytes, leb, ltb, ◌==◌, if◌then◌else◌, length, take, drop,
}
use amethyst.File.{Error, eof, Result, ok, err, File, Io, ◌>>=◌, ◌>>◌, pure, write, probe, stat}

pub record SegmentFile : Type 0 where
  pub file : File
  pub path : Key
  pub mmap_data : Slice
  pub mmapped_size : ℕ
  pub is_mmapped : Bool
  pub active_reads : ℕ

-- `NewSegmentFileManager`, with what `os.OpenFile` gave.
unfoldable pub new_segment_file : Key → Result File → Result SegmentFile
new_segment_file path (ok f) = ok (record {
  file = f;
  path = path;
  mmap_data = none;
  mmapped_size = 0;
  is_mmapped = false;
  active_reads = 0;
})
new_segment_file path (err e) = err e

abbrev pub State {ℓ} : Type ℓ → Type ℓ
State A = SegmentFile → Result A × SegmentFile

abbrev on_file {ℓ} : {A : Type ℓ} → Io A → State A
on_file m s = ((m s.file).0, record s { file = (m s.file).1 })

-- Stat, Write, Sync; the first that fails ends the call.
unfoldable pub append : Bytes → State (ℕ × ℕ)
append bytes = on_file (do offset ← stat; write bytes; probe; pure (offset, length bytes))

-- `ReadAt` of the standard library: all the bytes, or an error.
unfoldable pub read_at : ℕ → ℕ → State Bytes
read_at offset n = on_file (do
  probe
  λ f.
      if ltb (length f.content) (offset + n) && ltb 0 n
      then (err eof, f)
      else (ok (take n (drop offset f.content)), f))

abbrev is_some : Slice → Bool
is_some none = false
is_some (some b) = true

-- The test `s.isMMapped && s.mmapData != nil`.
unfoldable pub has_map : SegmentFile → Bool
has_map s = s.is_mmapped && is_some s.mmap_data

-- What follows `syscall.Mmap` of `size` bytes.
unfoldable pub mapped : ℕ → Result (Unit {0}) × SegmentFile → Result Bytes × SegmentFile
mapped size (ok _, s) = (
  ok (take size s.file.content),
  record s { mmap_data = some (take size s.file.content); mmapped_size = size; is_mmapped = true },
)
mapped size (err e, s) = (err e, s)

-- Behind `Stat` where a map is there. A map that fails leaves the old slice in its field.
unfoldable pub remap : Result ℕ × SegmentFile → Result Bytes × SegmentFile
unfolding mapped
remap (err e, s) = (err e, s)
remap (ok size, s) =
    if leb size s.mmapped_size then (ok (bytes s.mmap_data), s) else elim (probe s.file).0 [
      | ok _ ↦ mapped size (ok tt, record s { file = (probe s.file).1 })
      | err e ↦ (err e, record s { file = (probe s.file).1; is_mmapped = false })
    ]

-- Behind `Stat` where there is no map; an empty file is not mapped.
unfoldable pub first_map : Result ℕ × SegmentFile → Result Bytes × SegmentFile
unfolding mapped
first_map (err e, s) = (err e, s)
first_map (ok size, s) = if size == 0 then (ok [], s) else mapped size (on_file probe s)

-- The count of readers goes up at the start and down at the end of the call.
unfoldable pub get_mmap_data : State Bytes
unfolding remap first_map has_map
get_mmap_data s =
    let entered = record s { active_reads = s.active_reads + 1 } in
    let (r, s') =
      if has_map entered then remap (on_file stat entered) else first_map (on_file stat entered) in
    (r, record s' { active_reads = s'.active_reads - 1 })

-- Waits while readers are counted: `none` where no other thread takes the count down.
unfoldable pub release_mmap : SegmentFile → Option SegmentFile
unfolding has_map
release_mmap s =
    if ltb 0 s.active_reads
    then none
    else if has_map s
    then some (record s { is_mmapped = false; mmap_data = none; mmapped_size = 0 })
    else some s

-- Unmaps, then closes and removes the file; the outcome is that of Close and then of Remove.
unfoldable pub delete_file : State (Unit {0})
unfolding has_map
delete_file s =
    let unmapped =
      if has_map s
      then record s { is_mmapped = false; mmap_data = none; mmapped_size = 0 }
      else s in
    on_file (do probe; probe) unmapped
