-- ===== src/Adaptive.antt =====
-- amethyst/internal/adaptive/controller.go: the controller that decides, segment by segment, on a
-- switch of the compaction strategy. Floating-point numbers are an argument, as are the readings of
-- the clock. Of a reason only its kind and its count are kept.
pub mod Switch
pub mod Tests
use amethyst.Base.{
  ℕ, zero, suc, ◌+◌, ◌-◌, ◌*◌, Bool, true, false, ◌&&◌, Option, none, some, List, [], ◌∷◌, ◌++◌,
  Key, ltb, ◌==◌, if◌then◌else◌, length, drop, get_or, key_eqb,
}
use amethyst.Types.{
  CompactionType, tiered, leveled, SegmentMeta, cooldown_expired, size, get_read_count,
  get_write_count,
}

-- `float64`, as far as the program uses it. `literal a b` is the constant a / b.
pub record Float64 : Type 1 where
  pub Num : Type 0
  pub from_int : ℕ → Num
  pub literal : ℕ → ℕ → Num
  pub add : Num → Num → Num
  pub sub : Num → Num → Num
  pub mul : Num → Num → Num
  pub div : Num → Num → Num
  pub lt : Num → Num → Bool
  pub eq : Num → Num → Bool

abbrev pub min_segment_size : ℕ
min_segment_size = 4 * 1024

abbrev pub min_rewrite_interval : ℕ
min_rewrite_interval = 2

-- two seconds in nanoseconds
abbrev pub min_switch_interval : ℕ
min_switch_interval = 2 * 1_000_000_000

abbrev pub window_size : ℕ
window_size = 5

pub record MetricSnapshot : Type 0 where
  pub timestamp : ℕ
  pub read_count : ℕ
  pub write_count : ℕ

abbrev pub History : Type 0
History = List (Key × List MetricSnapshot)

pub record FsmController : Type 0 where
  pub segment_history : History
  pub last_switch : ℕ

abbrev pub new_fsm_controller : ℕ → FsmController
new_fsm_controller now = record { segment_history = []; last_switch = now }

-- The clock's readings in one call: seconds at its start and in the snapshot, nanoseconds at the
-- test of the switch and at the switch.
pub record Times : Type 0 where
  pub start : ℕ
  pub snapshot : ℕ
  pub check : ℕ
  pub switch : ℕ

pub data Reason : Type 0 where
  no_reason : Reason
  sustained_read sustained_write : ℕ → Reason

pub record Decision : Type 0 where
  pub rewrite : Bool
  pub strategy : CompactionType
  pub reason : Reason

unfoldable pub history_of : Key → History → List MetricSnapshot
history_of id [] = []
history_of id ((k, h) ∷ rest) = if key_eqb k id then h else history_of id rest

unfoldable pub set_history : Key → List MetricSnapshot → History → History
set_history id h [] = (id, h) ∷ []
set_history id h ((k, g) ∷ rest) =
    if key_eqb k id then (id, h) ∷ rest else (k, g) ∷ set_history id h rest

-- the newest `WindowSize` snapshots
unfoldable pub window : List MetricSnapshot → List MetricSnapshot
window h = if ltb window_size (length h) then drop (length h - window_size) h else h

unfoldable pub update_segment_history : ℕ → SegmentMeta → FsmController → FsmController
unfolding window set_history history_of
update_segment_history now m c = record c {
  segment_history =
      set_history m.id
        (window (
          history_of m.id c.segment_history
          ++ (record {
            timestamp = now;
            read_count = get_read_count m;
            write_count = get_write_count m;
          }
              ∷ [])))
        c.segment_history;
}

abbrev pub Metric : Type 0
Metric = MetricSnapshot → ℕ

module _ (f : Float64) where
  -- The loop from the second snapshot on: the moving average and the latest value.
  unfoldable pub average : Metric → List MetricSnapshot → f.Num → f.Num → f.Num × f.Num
  average metric [] ema latest = (ema, latest)
  average metric (s ∷ ss) ema latest =
      let value = f.from_int (metric s) in
      average metric ss
        (f.add (f.mul (f.literal 2 10) value) (f.mul (f.sub (f.from_int 1) (f.literal 2 10)) ema))
        value

  unfoldable pub trend_of : f.Num × f.Num → f.Num
  trend_of (ema, latest) =
      if f.eq latest (f.from_int 0)
      then f.from_int 0
      else (let trend = f.div (f.sub latest ema) latest in
          if f.lt trend (f.from_int 0) then f.from_int 0 else trend)

  unfoldable pub calculate_trend : List MetricSnapshot → Metric → f.Num
  unfolding average trend_of
  calculate_trend [] metric = f.from_int 0
  calculate_trend (s ∷ ss) metric =
      trend_of (average metric ss (f.from_int (metric s)) (f.from_int 0))

abbrev stay : SegmentMeta → Decision
stay m = record { rewrite = false; strategy = m.strategy; reason = no_reason }

module _ (f : Float64) where
  -- The test of a trend above 0.3.
  unfoldable pub rises : List MetricSnapshot → Metric → Bool
  rises h metric = f.lt (f.literal 3 10) (calculate_trend f h metric)

  -- The switch statement on the segment's strategy.
  unfoldable pub choose :
      CompactionType
      → ℕ
      → SegmentMeta
      → List MetricSnapshot
      → FsmController
      → Decision × FsmController
  choose tiered now m h c =
      if rises h (λ s. s.read_count) && ltb 500 (get_read_count m)
      then (
        record { rewrite = true; strategy = leveled; reason = sustained_read (get_read_count m) },
        record c { last_switch = now },
      )
      else (stay m, c)
  choose leveled now m h c =
      if rises h (λ s. s.write_count) && ltb 10 (get_write_count m)
      then (
        record { rewrite = true; strategy = tiered; reason = sustained_write (get_write_count m) },
        record c { last_switch = now },
      )
      else (stay m, c)

  unfoldable pub should_rewrite : Times → SegmentMeta → FsmController → Decision × FsmController
  unfolding choose
  should_rewrite t m c =
      if cooldown_expired t.start min_rewrite_interval m
      then (if ltb (size m) min_segment_size
          then (stay m, c)
          else (let c' = update_segment_history t.snapshot m c in
              let h = history_of m.id c'.segment_history in
              if ltb (length h) 3
              then (stay m, c')
              else if ltb t.check (c'.last_switch + min_switch_interval)
              then (stay m, c')
              else choose m.strategy t.switch m h c'))
      else (stay m, c)
