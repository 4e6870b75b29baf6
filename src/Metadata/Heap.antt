-- ===== src/Metadata/Heap.antt =====
-- Writes through pointers.
use amethyst.Base.{
  ℕ, zero, suc, ◌+◌, ◌≡◌, refl, ◌∙◌, ap, ◌⊎◌, inl, inr, Option, none, some, List, [], ◌∷◌, Key,
  get_or, set,
}
use amethyst.Types.{SegmentMeta, add_reads, add_writes}
use amethyst.Metadata.{Tracker, Pointer, at, no_segment, modify, map_get, on_segment, update_stats}

pub get_or-set {ℓ} :
    {A : Type ℓ} (xs : List A) (p q : ℕ) (v d : A)
    → (get_or (set xs p v) q d ≡ get_or xs q d) ⊎ ((p ≡ q) × (get_or (set xs p v) q d ≡ v))
get_or-set [] p q v d = inl refl
get_or-set (x ∷ xs) zero zero v d = inr (refl, refl)
get_or-set (x ∷ xs) zero (suc q) v d = inl refl
get_or-set (x ∷ xs) (suc p) zero v d = inl refl
get_or-set (x ∷ xs) (suc p) (suc q) v d = elim (get_or-set xs p q v d) [
  | inl kept ↦ inl kept
  | inr (same, written) ↦ inr (ap suc same, written)
]

-- The two differ in their counts of reads and writes at most.
pub record CountsOnly (a b : SegmentMeta) : Type 0 where
  pub reads : ℕ
  pub writes : ℕ
  pub same : a ≡ record b { read_count = reads; write_count = writes }

pub CountsOnly-refl : (a : SegmentMeta) → CountsOnly a a
CountsOnly-refl a = record { reads = a.read_count; writes = a.write_count; same = refl }

pub CountsOnly-trans : (a b c : SegmentMeta) → CountsOnly a b → CountsOnly b c → CountsOnly a c
CountsOnly-trans a b c h k = record {
  reads = h.reads;
  writes = h.writes;
  same =
      h.same
      ∙ ap {B = SegmentMeta} (λ m. record m { read_count = h.reads; write_count = h.writes })
          k.same;
}

modify-CountsOnly :
    (p q : Pointer) (r w : ℕ) (t : Tracker)
    → CountsOnly (at (modify p (λ m. add_writes w (add_reads r m)) t) q) (at t q)
unfolding modify add_writes add_reads
modify-CountsOnly p q r w t = elim (get_or-set t.heap p q _ no_segment) [
  | inl kept ↦ record { reads = (at t q).read_count; writes = (at t q).write_count; same = kept }
  | inr (same, written) ↦ record {
    reads = (at t q).read_count + r;
    writes = (at t q).write_count + w;
    same =
        written
        ∙ ap
            (λ x. record (at t x) {
              read_count = (at t x).read_count + r;
              write_count = (at t x).write_count + w;
            })
            same;
  }
]

on_segment-CountsOnly :
    (found : Option Pointer) (q : Pointer) (r w : ℕ) (t : Tracker)
    → CountsOnly (at (on_segment found (λ m. add_writes w (add_reads r m)) t) q) (at t q)
unfolding on_segment
on_segment-CountsOnly none q r w t = CountsOnly-refl (at t q)
on_segment-CountsOnly (some p) q r w t = modify-CountsOnly p q r w t

-- UpdateStats changes nothing of any segment but its counts of reads and writes.
pub update_stats-CountsOnly :
    (id : Key) (r w : ℕ) (t : Tracker) (q : Pointer)
    → CountsOnly (at (update_stats id r w t) q) (at t q)
unfolding update_stats
update_stats-CountsOnly id r w t q = on_segment-CountsOnly (map_get id t.segments) q r w t
