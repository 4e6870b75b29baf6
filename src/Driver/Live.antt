-- ===== src/Driver/Live.antt =====
-- The live keys that the driver keeps for the space amplification.
use amethyst.File.{ok}
use amethyst.Sstable.Writer.{write_segment, Disk}
use amethyst.Types.{SegmentMeta}
use mathlib.Core.Path.{subst}
use amethyst.Metadata.{Sort}
use amethyst.Base.{
  true, ◌∙◌, key_eqb_comm, length, key_eqb-eq, if◌then◌else◌, false, ◌≡◌, key_eqb, Option, Bytes,
  Bool-cases, Bool, All, Key, ℕ, [], ◌∷◌, refl, none, some, inl, inr,
}
use amethyst.Driver.{
  tiered, err, read_one, Result, flush_full, Driver, write_one, registered, Run, LiveKeys, set_live,
  running, crashed, Accounting,
}
use amethyst.Memtable
use amethyst.Compaction.Executor.Merge.{differ}
use amethyst.Driver.Reach.{final_flush, Reach, start, wrote, looked}
use amethyst.Driver.Store.{before_flush, Writes, last_value}

unfoldable pub live_length : Key → LiveKeys → Option ℕ
live_length key [] = none
live_length key ((k, n) ∷ rest) = if key_eqb k key then some n else live_length key rest

abbrev IsWithout : Key → LiveKeys → Type 0
IsWithout key live = All (λ e. key_eqb e.0 key ≡ false) live

-- No key stands twice.
abbrev pub IsDistinct : LiveKeys → Type 0
IsDistinct [] = Unit
IsDistinct ((k, n) ∷ rest) = IsWithout k rest × IsDistinct rest

abbrev length_of : Option Bytes → Option ℕ
length_of none = none
length_of (some v) = some (length v)

-- The lengths of the last values, by key.
abbrev pub HasLengths : Writes → LiveKeys → Type 0
HasLengths ws live =
    IsDistinct live × ((key : Key) → live_length key live ≡ length_of (last_value ws key))

shadowed :
    (b : Bool) (n m : ℕ) (rest : Option ℕ)
    → (if b then some n else rest) ≡ (if b then some n else if b then some m else rest)
shadowed true n m rest = refl
shadowed false n m rest = refl

swapped :
    (a b : Bool) (n m : ℕ) (rest : Option ℕ)
    → (b ≡ true → a ≡ true → ⊥)
    → (if b then some m else if a then some n else rest)
      ≡ (if a then some n else if b then some m else rest)
swapped true true n m rest h = absurd (h refl refl)
swapped true false n m rest h = refl
swapped false b n m rest h = refl

live_length-set_live :
    (k key : Key) (n : ℕ) (live : LiveKeys)
    → live_length key (set_live k n live) ≡ (if key_eqb k key then some n else live_length key live)
unfolding live_length set_live
live_length-set_live k key n [] = refl
live_length-set_live k key n ((x, m) ∷ rest) = elim (Bool-cases (key_eqb x k)) [
  | inl same ↦ rw (same, key_eqb-eq x k same) (shadowed (key_eqb k key) n m (live_length key rest))
  | inr other ↦
      rw (other, live_length-set_live k key n rest)
        (swapped (key_eqb k key) (key_eqb x key) n m (live_length key rest) (differ x k key other))
]

set_live-IsWithout :
    (x k : Key) (n : ℕ) (live : LiveKeys)
    → key_eqb k x ≡ false
    → IsWithout x live
    → IsWithout x (set_live k n live)
unfolding set_live
set_live-IsWithout x k n [] other h = (other, tt)
set_live-IsWithout x k n ((y, m) ∷ rest) other h = elim (Bool-cases (key_eqb y k)) [
  | inl same ↦ rw same (other, h.1)
  | inr differs ↦ rw differs (h.0, set_live-IsWithout x k n rest other h.1)
]

set_live-IsDistinct :
    (k : Key) (n : ℕ) (live : LiveKeys) → IsDistinct live → IsDistinct (set_live k n live)
unfolding set_live
set_live-IsDistinct k n [] h = (tt, tt)
set_live-IsDistinct k n ((y, m) ∷ rest) h = elim (Bool-cases (key_eqb y k)) [
  | inl same ↦ rw same (rw (← key_eqb-eq y k same) h.0, h.1)
  | inr differs ↦ rw differs (
    set_live-IsWithout y k n rest (key_eqb_comm k y ∙ differs) h.0,
    set_live-IsDistinct k n rest h.1,
  )
]

set_live-HasLengths :
    (k : Key) (v : Bytes) (ws : Writes) (live : LiveKeys)
    → HasLengths ws live
    → HasLengths ((k, v) ∷ ws) (set_live k (length v) live)
unfolding last_value
set_live-HasLengths k v ws live h = (
  set_live-IsDistinct k (length v) live h.0,
  λ key. live_length-set_live k key (length v) live ∙ after key,
)
  where
    after :
        (key : Key)
        → (if key_eqb k key then some (length v) else live_length key live)
          ≡ length_of (if key_eqb k key then some v else last_value ws key)
    after key = elim (Bool-cases (key_eqb k key)) [
      | inl same ↦ rw same refl
      | inr other ↦ rw other (h.1 key)
    ]

-- A write sets the key's length, and only a write does.
abbrev HasLive : LiveKeys → Run Driver → Type 0
HasLive live (running u) = u.live_keys ≡ live
HasLive live crashed = Unit

registered-HasLive :
    (how : Accounting) (cut : Bool) (s : Driver) (r : Result (Option SegmentMeta) × Disk)
    → HasLive s.live_keys (registered how cut s r)
unfolding registered
registered-HasLive how cut s (ok (some m), d) = refl
registered-HasLive how cut s (ok none, d) = tt
registered-HasLive how cut s (err e, d) = tt

flush_full-HasLive :
    (how : Accounting) (cut : Bool) (id : Key) (now : ℕ) (s : Driver)
    → HasLive s.live_keys (flush_full how cut id now s)
unfolding flush_full
flush_full-HasLive how cut id now s = elim (Bool-cases (Memtable.should_flush s.mem)) [
  | inl full ↦ rw full (
      registered-HasLive how cut (record s { mem = (Memtable.flush s.mem).1 })
        (write_segment s.builder id now (Memtable.flush s.mem).0 tiered 0 s.disk))
  | inr room ↦ rw room refl
]

write_one-HasLive :
    (how : Accounting) (value_size : ℕ) (key : Key) (val : Bytes) (id : Key) (now : ℕ) (s : Driver)
    → HasLive (set_live key (length val) s.live_keys) (write_one how value_size key val id now s)
unfolding write_one
write_one-HasLive how n key val id now s =
    flush_full-HasLive how true id now (before_flush how n key val s)

read_one-live_keys :
    (sort : Sort) (key : Key) (s : Driver) → (read_one sort key s).1.live_keys ≡ s.live_keys
unfolding read_one
read_one-live_keys sort key s = refl

-- After any writes, final flushes and reads of the workloads from a state without live keys, each
-- write within the reader's limits and each flush at a later time than the flushes before it,
-- whatever the calls on the files do: the live keys are the keys that were written, each once, with
-- the length of the last value that was written to it.
pub live_keys-Reach :
    {sort : Sort} {s0 : Driver} {ws : Writes} {s : Driver}
    → s0.live_keys ≡ []
    → Reach sort s0 ws s
    → HasLengths ws s.live_keys
unfolding live_length last_value
live_keys-Reach none_there start = rw none_there (tt, λ key. refl)
live_keys-Reach none_there (wrote {ws} {s} {u} r how n key val id now w clock e) =
    let live =
      subst (HasLive (set_live key (length val) s.live_keys)) e
        (write_one-HasLive how n key val id now s) in
    rw live (set_live-HasLengths key val ws s.live_keys (live_keys-Reach none_there r))
live_keys-Reach none_there (final_flush {ws} {s} r how cut id now clock e) =
    rw (subst (HasLive s.live_keys) e (flush_full-HasLive how cut id now s))
      (live_keys-Reach none_there r)
live_keys-Reach {sort} none_there (looked {ws} {s} r key e) =
    rw (e, read_one-live_keys sort key s) (live_keys-Reach none_there r)
