-- ===== src/Read/Held.antt =====
-- What a lookup in a segment leaves as it is.
use mathlib.Core.Path.{subst}
use amethyst.Base.{
  ℕ, ◌≡◌, refl, ◌∙◌, ap, sym, inl, inr, Bool, false, ◌||◌, Option, none, some, List, [], ◌∷◌, Key,
  Slice, Bytes, if◌then◌else◌, Bool-cases, key_ltb,
}
use amethyst.Types.{KvEntry, SegmentMeta}
use amethyst.SparseIndex.{Builder, SparseIndex}
use amethyst.SegmentFile.{SegmentFile}
use amethyst.Memtable.Lookup.{find}
use amethyst.Metadata.{Tracker, Pointer, at, no_segment, modify}
use amethyst.Metadata.Heap.{CountsOnly, get_or-set}
use amethyst.Sstable.Reader.{look_up, get_indexed}
use amethyst.Sstable.Reader.Found.{seen}
use amethyst.Sstable.RoundTrip.Stored.{IsStored}
use amethyst.Sstable.RoundTrip.Written.{IsHealthy, IsStored-counters}
use amethyst.Sstable.RoundTrip.Rescanned.{get_mmap_data-IsMapped}

-- A segment whose entries stand in the file and that is not obsolete.
pub record IsHeld (b : Builder) (content : Bytes) (m : SegmentMeta) : Type 0 where
  pub first : KvEntry
  pub others : List KvEntry
  pub stored : IsStored b m first others content
  pub live : m.obsolete ≡ false

abbrev pub AllHeld : Builder → Bytes → Tracker → List Pointer → Type 0
AllHeld b content t [] = Unit
AllHeld b content t (p ∷ ps) = IsHeld b content (at t p) × AllHeld b content t ps

-- The specification: what the first segment that has a value for the key says of it. A tombstone
-- does not end the search.
unfoldable pub first_seen :
    (b : Builder) (content : Bytes) (t : Tracker) (ps : List Pointer)
    → AllHeld b content t ps
    → Key
    → Slice × Bool
first_seen b content t [] held key = (none, false)
first_seen b content t (p ∷ ps) (m, ms) key =
    let answer = seen (find (m.first ∷ m.others) key) in
    let rest = first_seen b content t ps ms key in if answer.1 then answer else rest

-- The two differ in their counters at most.
pub record CountersOnly (a b : SegmentMeta) : Type 0 where
  pub reads : ℕ
  pub writes : ℕ
  pub comparisons : ℕ
  pub same :
      a ≡ record b { read_count = reads; write_count = writes; total_comparisons = comparisons }

pub CountersOnly-refl : (a : SegmentMeta) → CountersOnly a a
CountersOnly-refl a = record {
  reads = a.read_count;
  writes = a.write_count;
  comparisons = a.total_comparisons;
  same = refl;
}

-- counts that change after a change of counters
pub CountersOnly-trans :
    (a b c : SegmentMeta) → CountsOnly a b → CountersOnly b c → CountersOnly a c
CountersOnly-trans a b c h k = record {
  reads = h.reads;
  writes = h.writes;
  comparisons = k.comparisons;
  same =
      h.same
      ∙ ap {B = SegmentMeta} (λ m. record m { read_count = h.reads; write_count = h.writes })
          k.same;
}

-- comparisons that are added after a change of counters
pub modify-CountersOnly :
    (p q : Pointer) (n : ℕ) (t t0 : Tracker)
    → ((q : Pointer) → CountersOnly (at t q) (at t0 q))
    → CountersOnly (at (modify p (λ m. record (at t p) { total_comparisons = n }) t) q) (at t0 q)
unfolding modify
modify-CountersOnly p q n t t0 k = elim (get_or-set t.heap p q _ no_segment) [
  | inl kept ↦ record {
    reads = (k q).reads;
    writes = (k q).writes;
    comparisons = (k q).comparisons;
    same = kept ∙ (k q).same;
  }
  | inr (same, written) ↦ record {
    reads = (k q).reads;
    writes = (k q).writes;
    comparisons = n;
    same =
        written
        ∙ ap (λ x. record (at t x) { total_comparisons = n }) same
        ∙ ap {B = SegmentMeta} (λ m. record m { total_comparisons = n }) (k q).same;
  }
]

pub IsHeld-CountersOnly :
    (b : Builder) (content : Bytes) (a m : SegmentMeta)
    → CountersOnly a m
    → (f : IsHeld b content m) → IsStored b a f.first f.others content × (a.obsolete ≡ false)
IsHeld-CountersOnly b content a m c f =
    subst (λ x. IsStored b x f.first f.others content × (x.obsolete ≡ false)) (sym c.same)
      (
        IsStored-counters b m f.first f.others content c.reads c.writes m.overlap_count
            c.comparisons m.in_compaction f.stored,
        f.live,
      )

-- A lookup leaves the file as it is.
abbrev pub IsKept : SegmentFile → SegmentFile → Type 0
IsKept s s' = IsHealthy s' × (s'.file ≡ s.file)

get_indexed-IsKept :
    (m : SegmentMeta) (idx : Option SparseIndex) (key : Key) (s : SegmentFile)
    → IsHealthy s
    → IsKept s (get_indexed m idx key s).1
unfolding get_indexed
get_indexed-IsKept m none key s h = (h, refl)
get_indexed-IsKept m (some idx) key s h =
    let w = get_mmap_data-IsMapped s h in (w.healthy, w.same_file)

pub look_up-IsKept :
    (m : SegmentMeta) (key : Key) (s : SegmentFile) → IsHealthy s → IsKept s (look_up m key s).1
unfolding look_up
look_up-IsKept m key s h = elim (Bool-cases m.obsolete) [
  | inl dead ↦ rw dead (h, refl)
  | inr live ↦ elim (Bool-cases (key_ltb key m.min_key || key_ltb m.max_key key)) [
    | inl outside ↦ rw (live, outside) (h, refl)
    | inr inside ↦ rw (live, inside) (get_indexed-IsKept m m.sparse_index key s h)
  ]
]
