-- ===== src/Compaction/Executor/Outcomes.antt =====
-- Which segments are obsolete after a compaction.
use amethyst.Base.{
  ℕ, zero, suc, ◌≡◌, refl, ◌∙◌, ap, inl, inr, Bool, true, false, ◌||◌, not, Option, none, some,
  List, [], ◌∷◌, Key, if◌then◌else◌, All, get_or, set,
}
use amethyst.File.{Result, ok, err}
use amethyst.Types.{SegmentMeta, mark_obsolete}
use amethyst.SparseIndex.{Builder}
use amethyst.SegmentFile.{SegmentFile}
use amethyst.Metadata.{
  Tracker, Pointer, at, no_segment, modify, map_get, on_segment, register_segment, mark_obsolete_id,
}
use amethyst.Metadata.Heap.{get_or-set, update_stats-CountsOnly}
use amethyst.Sstable.Writer.{Disk}
use amethyst.Sstable.Reader.{ByteMap, scan}
use amethyst.Compaction.Director.{Plan}
use amethyst.Compaction.Executor.{
  Executor, Executed, compacted, failed, panicked, Scanning, scanned, scan_inputs,
  set_in_compaction, retire, finish, validate, run, execute,
}

-- the two trackers agree on what is obsolete
abbrev pub SameObsolete : Tracker → Tracker → Type 0
SameObsolete t t' = (q : Pointer) → (at t' q).obsolete ≡ (at t q).obsolete

set_in_compaction-SameObsolete :
    (b : Bool) (ps : List Pointer) (t : Tracker) → SameObsolete t (set_in_compaction b ps t)
unfolding set_in_compaction modify
set_in_compaction-SameObsolete b [] t q = refl
set_in_compaction-SameObsolete b (p ∷ ps) t q =
    set_in_compaction-SameObsolete b ps _ q
    ∙ elim (get_or-set t.heap p q (record (at t p) { in_compaction = b }) no_segment) [
      | inl kept ↦ ap (λ m. m.obsolete) kept
      | inr (same, written) ↦ ap (λ m. m.obsolete) written ∙ ap (λ x. (at t x).obsolete) same
    ]

scanned-SameObsolete :
    (p : Pointer) (s : Scanning) (r : Result ByteMap × SegmentFile)
    → SameObsolete s.tracker (scanned p s r).tracker
unfolding scanned
scanned-SameObsolete p s (err e, f) q = refl
scanned-SameObsolete p s (ok found, f) q =
    ap (λ m. m.obsolete) (update_stats-CountsOnly (at s.tracker p).id 0 1 s.tracker q).same

one_round-SameObsolete :
    (skip : Bool) (p : Pointer) (s : Scanning) (r : Result ByteMap × SegmentFile)
    → SameObsolete s.tracker (if skip then s else scanned p s r).tracker
one_round-SameObsolete true p s r q = refl
one_round-SameObsolete false p s r q = scanned-SameObsolete p s r q

scan_inputs-SameObsolete :
    (ps : List Pointer) (s : Scanning) → SameObsolete s.tracker (scan_inputs ps s).tracker
unfolding scan_inputs
scan_inputs-SameObsolete [] s q = refl
scan_inputs-SameObsolete (p ∷ ps) s q =
    let m = at s.tracker p in
    scan_inputs-SameObsolete ps _ q
    ∙ one_round-SameObsolete (m.obsolete || not m.in_compaction) p s (scan (some m) s.segment_file)
        q

set_obsolete :
    (heap : List SegmentMeta) (p : Pointer) (m : SegmentMeta)
    → (get_or (set heap p (mark_obsolete m)) p no_segment).obsolete ≡ true
unfolding mark_obsolete
set_obsolete [] p m = refl
set_obsolete (x ∷ xs) zero m = refl
set_obsolete (x ∷ xs) (suc p) m = set_obsolete xs p m

modify_same-obsolete :
    (p : Pointer) (t : Tracker) → (at (modify p mark_obsolete t) p).obsolete ≡ true
unfolding modify
modify_same-obsolete p t = set_obsolete t.heap p (at t p)

modify-obsolete :
    (p q : Pointer) (t : Tracker)
    → (at t q).obsolete ≡ true
    → (at (modify p mark_obsolete t) q).obsolete ≡ true
unfolding modify mark_obsolete
modify-obsolete p q t h = elim (get_or-set t.heap p q (mark_obsolete (at t p)) no_segment) [
  | inl kept ↦ ap (λ m. m.obsolete) kept ∙ h
  | inr (same, written) ↦ ap (λ m. m.obsolete) written
]

on_segment-obsolete :
    (found : Option Pointer) (q : Pointer) (t : Tracker)
    → (at t q).obsolete ≡ true
    → (at (on_segment found mark_obsolete t) q).obsolete ≡ true
unfolding on_segment
on_segment-obsolete none q t h = h
on_segment-obsolete (some p) q t h = modify-obsolete p q t h

mark_obsolete_id-obsolete :
    (id : Key) (q : Pointer) (t : Tracker)
    → (at t q).obsolete ≡ true
    → (at (mark_obsolete_id id t) q).obsolete ≡ true
unfolding mark_obsolete_id
mark_obsolete_id-obsolete id q t h = on_segment-obsolete (map_get id t.segments) q t h

retire-obsolete :
    (ps : List Pointer) (q : Pointer) (t : Tracker)
    → (at t q).obsolete ≡ true
    → (at (retire ps t) q).obsolete ≡ true
unfolding retire
retire-obsolete [] q t h = h
retire-obsolete (p ∷ ps) q t h =
    retire-obsolete ps q _ (mark_obsolete_id-obsolete (at t p).id q _ (modify-obsolete p q t h))

retired : (ps : List Pointer) (t : Tracker) → All (λ p. (at (retire ps t) p).obsolete ≡ true) ps
unfolding retire
retired [] t = tt
retired (p ∷ ps) t = (
  retire-obsolete ps p _ (mark_obsolete_id-obsolete (at t p).id p _ (modify_same-obsolete p t)),
  retired ps _,
)

All-reset :
    (b : Bool) (qs ps : List Pointer) (t : Tracker)
    → All (λ p. (at t p).obsolete ≡ true) ps
    → All (λ p. (at (set_in_compaction b qs t) p).obsolete ≡ true) ps
All-reset b qs [] t h = tt
All-reset b qs (p ∷ ps) t h =
    (set_in_compaction-SameObsolete b qs t p ∙ h.0, All-reset b qs ps t h.1)

-- A call that fails makes nothing obsolete; any other makes all the inputs obsolete.
abbrev pub Settled : List Pointer → Tracker → Executed → Tracker → Type 0
Settled inputs t (failed e) t' = SameObsolete t t'
Settled inputs t (compacted m) t' = All (λ p. (at t' p).obsolete ≡ true) inputs
Settled inputs t panicked t' = All (λ p. (at t' p).obsolete ≡ true) inputs

finish-Settled :
    (inputs : List Pointer) (t t0 : Tracker) (r : Result (Option SegmentMeta)) (d : Disk)
    → SameObsolete t0 t
    → Settled inputs t0 (finish inputs t (r, d)).0 (finish inputs t (r, d)).1.tracker
unfolding finish
finish-Settled inputs t t0 (err e) d h = λ q. set_in_compaction-SameObsolete false inputs t q ∙ h q
finish-Settled inputs t t0 (ok none) d h = All-reset false inputs inputs _ (retired inputs t)
finish-Settled inputs t t0 (ok (some m)) d h =
    All-reset false inputs inputs _ (retired inputs (register_segment m t))

run-Settled :
    (b : Builder) (id : Key) (now : ℕ) (plan : Plan) (x : Executor)
    → Settled plan.inputs x.tracker (run b id now plan x).0 (run b id now plan x).1.tracker
unfolding run
run-Settled b id now plan x =
    let flagged = set_in_compaction true plan.inputs x.tracker in
    finish-Settled plan.inputs _ x.tracker _ _ (λ q.
      scan_inputs-SameObsolete plan.inputs
        (record { tracker = flagged; segment_file = x.disk.segment_file; merged = [] }) q
      ∙ set_in_compaction-SameObsolete true plan.inputs x.tracker q)

validated :
    (b : Builder) (id : Key) (now : ℕ) (plan : Plan) (x : Executor) (r : Result (Unit {0}))
    → let out : Executed × Executor = elim r [
      | ok _ ↦ run b id now plan x
      | err e ↦ (failed e, x)
    ] in
      Settled plan.inputs x.tracker out.0 out.1.tracker
validated b id now plan x (ok _) = run-Settled b id now plan x
validated b id now plan x (err _) = λ q. refl

-- Whatever the calls on the file do: where Execute returns an error no segment has become obsolete, and
-- where it does not, which includes the panic of an empty merge, all its inputs are obsolete.
pub execute-Settled :
    (b : Builder) (id : Key) (now : ℕ) (plan : Plan) (x : Executor)
    → Settled plan.inputs x.tracker (execute b id now plan x).0 (execute b id now plan x).1.tracker
unfolding execute
execute-Settled b id now plan x = validated b id now plan x (validate x.tracker plan.inputs)
