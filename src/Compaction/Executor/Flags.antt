-- ===== src/Compaction/Executor/Flags.antt =====
-- The inputs of a plan under the flag that Execute sets on them.
use amethyst.Sstable.Reader.{max_scan_len}
use amethyst.Memtable.Lookup.{find}
use amethyst.Sstable.Reader.Found.{encode_all}
use amethyst.Sstable.RoundTrip.Written.{IsStored-counters}
use amethyst.Sstable.Reader.Scanned.{over}
use amethyst.Metadata.Heap.{get_or-set}
use amethyst.Sstable.RoundTrip.Stored.{IsStored, length-encode_all}
use amethyst.File.{ok}
use amethyst.Compaction.Executor.Effects.{IsFit, AllFit, merged_value}
use mathlib.Core.Path.{subst}
use amethyst.Metadata.{no_segment, at, Tracker, Pointer, modify}
use amethyst.SparseIndex.{Builder}
use amethyst.Types.{KvEntry, SegmentMeta}
use amethyst.Compaction.Executor.Merge.{newest}
use amethyst.Base.{
  ◌≤◌, none, sym, length, false, Slice, ◌==◌, Option, ◌⊎◌, true, arith, Key, ◌≡◌, ◌<◌, set, ap, ◌∙◌,
  get_or, Bytes, Bool, List, ℕ, [], ◌∷◌, refl, zero, suc, inl, inr,
}
use amethyst.Compaction.Executor.{set_in_compaction, flag, validate}

-- The two differ in the flag at most, and a flag that is set stays.
record IsMarked (a b : SegmentMeta) : Type 0 where
  flag_now : Bool
  same : a ≡ record b { in_compaction = flag_now }
  kept : b.in_compaction ≡ true → a.in_compaction ≡ true

IsMarked-refl : (a : SegmentMeta) → IsMarked a a
IsMarked-refl a = record { flag_now = a.in_compaction; same = refl; kept = λ e. e }

IsMarked-trans : (a b c : SegmentMeta) → IsMarked a b → IsMarked b c → IsMarked a c
IsMarked-trans a b c h k = record {
  flag_now = h.flag_now;
  same =
      h.same
      ∙ ap {A = SegmentMeta} {B = SegmentMeta} (λ x. record x { in_compaction = h.flag_now })
          k.same;
  kept = λ e. h.kept (k.kept e);
}

mark_one : (p q : Pointer) (t : Tracker) → IsMarked (at (modify p (flag true) t) q) (at t q)
unfolding modify
mark_one p q t =
    elim (get_or-set t.heap p q (record (at t p) { in_compaction = true }) no_segment) [
      | inl kept ↦ record {
        flag_now = (at t q).in_compaction;
        same = kept;
        kept = λ e. ap (λ m. m.in_compaction) kept ∙ e;
      }
      | inr (same, written) ↦ record {
        flag_now = true;
        same = written ∙ ap (λ x. record (at t x) { in_compaction = true }) same;
        kept = λ e. ap (λ m. m.in_compaction) written;
      }
    ]

mark_all :
    (ps : List Pointer) (q : Pointer) (t : Tracker)
    → IsMarked (at (set_in_compaction true ps t) q) (at t q)
unfolding set_in_compaction
mark_all [] q t = IsMarked-refl (at t q)
mark_all (p ∷ ps) q t =
    IsMarked-trans _ (at (modify p (flag true) t) q) _ (mark_all ps q (modify p (flag true) t))
      (mark_one p q t)

set_here :
    (xs : List SegmentMeta) (p : ℕ) (v d : SegmentMeta)
    → (get_or (set xs p v) p d ≡ v) ⊎ (get_or xs p d ≡ d)
set_here [] p v d = inr refl
set_here (x ∷ xs) zero v d = inl refl
set_here (x ∷ xs) (suc p) v d = set_here xs p v d

marked_here :
    (p : Pointer) (t : Tracker)
    → 0 < (at t p).length
    → (at (modify p (flag true) t) p).in_compaction ≡ true
unfolding modify
marked_here p t long =
    elim (set_here t.heap p (record (at t p) { in_compaction = true }) no_segment) [
      | inl written ↦ ap (λ m. m.in_compaction) written
      | inr absent ↦ absurd (omega (arith, long, ap (λ m. m.length) absent))
    ]

-- A segment that can be merged: its entries stand in the file, it is not obsolete, and its entries take
-- 500 MB at most.
pub record IsInput (b : Builder) (content : Bytes) (m : SegmentMeta) : Type 0 where
  pub first : KvEntry
  pub others : List KvEntry
  pub stored : IsStored b m first others content
  pub live : m.obsolete ≡ false
  pub small : length (encode_all (first ∷ others)) ≤ max_scan_len

abbrev pub AllInput : Builder → Bytes → Tracker → List Pointer → Type 0
AllInput b content t [] = Unit
AllInput b content t (p ∷ ps) = IsInput b content (at t p) × AllInput b content t ps

-- What the inputs, the last of the plan first, have for a key that is neither a tombstone nor empty.
unfoldable pub merged_input :
    (b : Builder) (content : Bytes) (t : Tracker) (ps : List Pointer)
    → AllInput b content t ps
    → Key
    → Option Slice
    → Option Slice
merged_input b content t [] h j before = before
merged_input b content t (p ∷ ps) (i, is) j before =
    merged_input b content t ps is j (newest (over (find (i.first ∷ i.others) j) none) before)

module _ (b : Builder) (content : Bytes) where
  marked_input : (a m : SegmentMeta) → IsMarked a m → IsInput b content m → IsInput b content a
  marked_input a m k i = record {
    first = i.first;
    others = i.others;
    stored =
        subst (λ x. IsStored b x i.first i.others content) (sym k.same)
          (IsStored-counters b m i.first i.others content m.read_count m.write_count m.overlap_count
            m.total_comparisons k.flag_now i.stored);
    live = ap (λ x. x.obsolete) k.same ∙ i.live;
    small = i.small;
  }

  fit_marked :
      (a m : SegmentMeta)
      → IsMarked a m
      → a.in_compaction ≡ true
      → IsInput b content m
      → IsFit b content a
  unfolding marked_input
  fit_marked a m k on i = record {
    first = i.first;
    others = i.others;
    stored = (marked_input a m k i).stored;
    live = (marked_input a m k i).live;
    flagged = on;
    small = i.small;
  }

  long_input : (m : SegmentMeta) → IsInput b content m → 0 < m.length
  long_input m i = omega (arith, i.stored.size, length-encode_all (i.first ∷ i.others))

  marked_inputs :
      (ps : List Pointer) (t t' : Tracker)
      → ((q : Pointer) → IsMarked (at t' q) (at t q))
      → AllInput b content t ps
      → AllInput b content t' ps
  marked_inputs [] t t' k h = tt
  marked_inputs (p ∷ ps) t t' k (i, is) =
      (marked_input (at t' p) (at t p) (k p) i, marked_inputs ps t t' k is)

  -- With the flags set the inputs are fit for the merge.
  pub flag_fit :
      (ps : List Pointer) (t : Tracker)
      → AllInput b content t ps
      → AllFit b content (set_in_compaction true ps t) ps
  unfolding set_in_compaction
  flag_fit [] t h = tt
  flag_fit (p ∷ ps) t (i, is) =
      let t1 = modify p (flag true) t in
      (
        fit_marked (at (set_in_compaction true ps t1) p) (at t p)
            (IsMarked-trans _ (at t1 p) _ (mark_all ps p t1) (mark_one p p t))
            ((mark_all ps p t1).kept (marked_here p t (long_input (at t p) i))) i,
        flag_fit ps t1 (marked_inputs ps t t1 (λ q. mark_one p q t) is),
      )

  marked_merged :
      (ps : List Pointer) (t t' : Tracker) (k : (q : Pointer) → IsMarked (at t' q) (at t q))
      (h : AllInput b content t ps) (j : Key) (before : Option Slice)
      → merged_input b content t' ps (marked_inputs ps t t' k h) j before
        ≡ merged_input b content t ps h j before
  unfolding merged_input marked_inputs marked_input
  marked_merged [] t t' k h j before = refl
  marked_merged (p ∷ ps) t t' k (i, is) j before = marked_merged ps t t' k is j _

  pub flag_merged :
      (ps : List Pointer) (t : Tracker) (h : AllInput b content t ps) (j : Key)
      (before : Option Slice)
      → merged_value b content (set_in_compaction true ps t) ps (flag_fit ps t h) j before
        ≡ merged_input b content t ps h j before
  unfolding flag_fit merged_value merged_input fit_marked set_in_compaction
  flag_merged [] t h j before = refl
  flag_merged (p ∷ ps) t (i, is) j before =
      flag_merged ps (modify p (flag true) t) (marked_inputs ps t _ (λ q. mark_one p q t) is) j _
      ∙ marked_merged ps t _ (λ q. mark_one p q t) is j _

  pub validate_inputs :
      (ps : List Pointer) (t : Tracker) → AllInput b content t ps → validate t ps ≡ ok tt
  unfolding validate
  validate_inputs [] t h = refl
  validate_inputs (p ∷ ps) t (i, is) =
      let long = long_input (at t p) i in
      let not_empty : ((at t p).length == 0) ≡ false = ground (arith, long) in
      rw (i.live, not_empty) (validate_inputs ps t is)
