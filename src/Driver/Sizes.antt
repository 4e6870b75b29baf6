-- ===== src/Driver/Sizes.antt =====
-- The levels and lengths of the segments that a tracker has had, and the steps that leave them.
use amethyst.SegmentFile.{SegmentFile}
use amethyst.Read.{Handler, read_segment}
use amethyst.Read.{read_segments}
use amethyst.Sstable.Reader.{scan, ByteMap}
use amethyst.Sstable.Reader.{get}
use amethyst.Base.{
  inr, inl, arith, Bool-cases, ◌==◌, not, get_or, ◌||◌, ◌+◌, set, if◌then◌else◌, ℕ, zero, suc, List,
  [], ◌∷◌, ◌++◌, ◌≡◌, refl, ap, ◌∙◌, Key, Bool, true, false, Option, none, some,
}
use amethyst.File.{Result, ok, err}
use amethyst.Types.{add_reads, mark_obsolete, add_writes, SegmentMeta}
use amethyst.Metadata.{
  map_get, Tracker, Pointer, at, no_segment, modify, on_segment, register_segment, update_stats,
  mark_obsolete_id,
}
use amethyst.Compaction.Executor.{set_in_compaction, Scanning, scanned, scan_inputs, retire}

-- The level and the length of each segment that was registered.
unfoldable pub sizes : List SegmentMeta → List (ℕ × ℕ)
sizes [] = []
sizes (m ∷ ms) = (m.level, m.length) ∷ sizes ms

-- The bytes on level 0, and those on the levels above.
unfoldable pub base_bytes : List (ℕ × ℕ) → ℕ
base_bytes [] = 0
base_bytes ((level, n) ∷ rest) = (if level == 0 then n else 0) + base_bytes rest

unfoldable pub upper_bytes : List (ℕ × ℕ) → ℕ
upper_bytes [] = 0
upper_bytes ((level, n) ∷ rest) = (if level == 0 then 0 else n) + upper_bytes rest

abbrev pub SameSizes : Tracker → Tracker → Type 0
SameSizes t t' = sizes t'.heap ≡ sizes t.heap

-- The two have the same level and length.
abbrev IsSized : SegmentMeta → SegmentMeta → Type 0
IsSized m m' = (m'.level ≡ m.level) × (m'.length ≡ m.length)

sizes-set :
    (xs : List SegmentMeta) (p : ℕ) (m : SegmentMeta)
    → IsSized (get_or xs p no_segment) m
    → sizes (set xs p m) ≡ sizes xs
unfolding sizes
sizes-set [] p m h = refl
sizes-set (x ∷ xs) zero m h = λ i. (h.0 i, h.1 i) ∷ sizes xs
sizes-set (x ∷ xs) (suc p) m h = ap (λ rest. (x.level, x.length) ∷ rest) (sizes-set xs p m h)

modify-SameSizes :
    (p : Pointer) (g : SegmentMeta → SegmentMeta) (t : Tracker)
    → IsSized (at t p) (g (at t p))
    → SameSizes t (modify p g t)
unfolding modify
modify-SameSizes p g t h = sizes-set t.heap p (g (at t p)) h

on_segment-SameSizes :
    (found : Option Pointer) (g : SegmentMeta → SegmentMeta) (t : Tracker)
    → ((m : SegmentMeta) → IsSized m (g m))
    → SameSizes t (on_segment found g t)
unfolding on_segment
on_segment-SameSizes none g t h = refl
on_segment-SameSizes (some p) g t h = modify-SameSizes p g t (h (at t p))

pub update_stats-SameSizes :
    (id : Key) (r w : ℕ) (t : Tracker) → SameSizes t (update_stats id r w t)
unfolding update_stats add_writes add_reads
update_stats-SameSizes id r w t =
    on_segment-SameSizes (map_get id t.segments) _ t (λ m. (refl, refl))

mark_obsolete_id-SameSizes : (id : Key) (t : Tracker) → SameSizes t (mark_obsolete_id id t)
unfolding mark_obsolete_id mark_obsolete
mark_obsolete_id-SameSizes id t =
    on_segment-SameSizes (map_get id t.segments) _ t (λ m. (refl, refl))

pub set_in_compaction-SameSizes :
    (b : Bool) (ps : List Pointer) (t : Tracker) → SameSizes t (set_in_compaction b ps t)
unfolding set_in_compaction
set_in_compaction-SameSizes b [] t = refl
set_in_compaction-SameSizes b (p ∷ ps) t =
    set_in_compaction-SameSizes b ps _ ∙ modify-SameSizes p _ t (refl, refl)

pub retire-SameSizes : (ps : List Pointer) (t : Tracker) → SameSizes t (retire ps t)
unfolding retire mark_obsolete
retire-SameSizes [] t = refl
retire-SameSizes (p ∷ ps) t =
    retire-SameSizes ps _ ∙ mark_obsolete_id-SameSizes _ _ ∙ modify-SameSizes p _ t (refl, refl)

scanned-SameSizes :
    (p : Pointer) (s : Scanning) (r : Result ByteMap × SegmentFile)
    → SameSizes s.tracker (scanned p s r).tracker
unfolding scanned
scanned-SameSizes p s (err e, f) = refl
scanned-SameSizes p s (ok found, f) = update_stats-SameSizes (at s.tracker p).id 0 1 s.tracker

one_round-SameSizes :
    (skip : Bool) (p : Pointer) (s : Scanning) (r : Result ByteMap × SegmentFile)
    → SameSizes s.tracker (if skip then s else scanned p s r).tracker
one_round-SameSizes true p s r = refl
one_round-SameSizes false p s r = scanned-SameSizes p s r

pub scan_inputs-SameSizes :
    (ps : List Pointer) (s : Scanning) → SameSizes s.tracker (scan_inputs ps s).tracker
unfolding scan_inputs
scan_inputs-SameSizes [] s = refl
scan_inputs-SameSizes (p ∷ ps) s =
    let m = at s.tracker p in
    scan_inputs-SameSizes ps _
    ∙ one_round-SameSizes (m.obsolete || not m.in_compaction) p s (scan (some m) s.segment_file)

sizes-append :
    (xs : List SegmentMeta) (m : SegmentMeta)
    → sizes (xs ++ (m ∷ [])) ≡ sizes xs ++ ((m.level, m.length) ∷ [])
unfolding sizes
sizes-append [] m = refl
sizes-append (x ∷ xs) m = ap (λ rest. (x.level, x.length) ∷ rest) (sizes-append xs m)

pub sizes-register_segment :
    (m : SegmentMeta) (t : Tracker)
    → sizes (register_segment m t).heap ≡ sizes t.heap ++ ((m.level, m.length) ∷ [])
unfolding register_segment
sizes-register_segment m t = sizes-append t.heap _

pub base_bytes-append :
    (xs : List (ℕ × ℕ)) (level n : ℕ)
    → base_bytes (xs ++ ((level, n) ∷ [])) ≡ base_bytes xs + (if level == 0 then n else 0)
unfolding base_bytes
base_bytes-append [] level n = grind arith
base_bytes-append ((k, m) ∷ xs) level n = omega (arith, base_bytes-append xs level n)

pub upper_bytes-append :
    (xs : List (ℕ × ℕ)) (level n : ℕ)
    → upper_bytes (xs ++ ((level, n) ∷ [])) ≡ upper_bytes xs + (if level == 0 then 0 else n)
unfolding upper_bytes
upper_bytes-append [] level n = grind arith
upper_bytes-append ((k, m) ∷ xs) level n = omega (arith, upper_bytes-append xs level n)

read_segment-SameSizes :
    (key : Key) (p : Pointer) (h : Handler) → SameSizes h.tracker (read_segment key p h).1.tracker
unfolding read_segment get
read_segment-SameSizes key p h =
    update_stats-SameSizes (at h.tracker p).id 1 0 _ ∙ modify-SameSizes p _ h.tracker (refl, refl)

pub read_segments-SameSizes :
    (key : Key) (ps : List Pointer) (h : Handler)
    → SameSizes h.tracker (read_segments key ps h).1.tracker
unfolding read_segments
read_segments-SameSizes key [] h = refl
read_segments-SameSizes key (p ∷ ps) h =
    let here = read_segment-SameSizes key p h in
    elim (Bool-cases (read_segment key p h).0.1) [
      | inl hit ↦ rw hit here
      | inr miss ↦ rw miss (read_segments-SameSizes key ps (read_segment key p h).1 ∙ here)
    ]
