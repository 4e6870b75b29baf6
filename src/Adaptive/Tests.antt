-- ===== src/Adaptive/Tests.antt =====
-- The controller's theorems at a concrete segment, with fractions for the floating-point numbers.
use amethyst.Base.{
  ℕ, ◌+◌, ◌-◌, ◌*◌, ◌≤◌, ◌≡◌, refl, true, false, none, [], ◌∷◌, ltb, ◌==◌, length, key_eqb,
}
use amethyst.Types.{SegmentMeta, tiered, cooldown_expired}
use amethyst.Adaptive.{
  Float64, FsmController, Times, history_of, set_history, window, update_segment_history, average,
  trend_of, calculate_trend, rises, choose, should_rewrite, window_size,
}
use amethyst.Adaptive.Switch.{IsSwitch, should_rewrite-IsSwitch, update_segment_history-bounded}

-- Fractions that are never negative, which is enough for a rising trend.
abbrev pub fractions : Float64
fractions = record {
  Num = ℕ × ℕ;
  from_int = λ n. (n, 1);
  literal = λ a b. (a, b);
  add = λ x y. (x.0 * y.1 + y.0 * x.1, x.1 * y.1);
  sub = λ x y. (x.0 * y.1 - y.0 * x.1, x.1 * y.1);
  mul = λ x y. (x.0 * y.0, x.1 * y.1);
  div = λ x y. (x.0 * y.1, x.1 * y.0);
  lt = λ x y. ltb (x.0 * y.1) (y.0 * x.1);
  eq = λ x y. x.0 * y.1 == y.0 * x.1;
}

-- 600 reads, on a tiered segment of 8 KB
abbrev segment : SegmentMeta
segment = record {
  id = 7 ∷ [];
  level = 0;
  offset = 0;
  length = 8192;
  min_key = [];
  max_key = [];
  strategy = tiered;
  read_count = 600;
  write_count = 0;
  overlap_count = 0;
  total_comparisons = 0;
  created_at = 0;
  last_rewrite_at = 0;
  obsolete = false;
  in_compaction = false;
  sparse_index = none;
  data_start_offset = 0;
  sparse_index_offset = 0;
}

abbrev controller : FsmController
controller = record {
  segment_history =
      (
        7 ∷ [],
        record { timestamp = 1; read_count = 100; write_count = 0 }
            ∷ record { timestamp = 2; read_count = 200; write_count = 0 }
            ∷ [],
      )
      ∷ [];
  last_switch = 0;
}

abbrev pub times : Times
times = record { start = 5; snapshot = 5; check = 5_000_000_000; switch = 5_000_000_001 }

asked : (should_rewrite fractions times segment controller).0.rewrite ≡ true
unfolding should_rewrite cooldown_expired update_segment_history history_of set_history window rises
    choose calculate_trend average trend_of key_eqb
asked = refl

should_rewrite-IsSwitch_example :
    IsSwitch fractions times segment controller (should_rewrite fractions times segment controller)
should_rewrite-IsSwitch_example = should_rewrite-IsSwitch fractions times segment controller asked

update_segment_history-bounded_example :
    (length (history_of (7 ∷ []) (update_segment_history 5 segment controller).segment_history)
      ≤ window_size)
    × (history_of (8 ∷ []) (update_segment_history 5 segment controller).segment_history
        ≡ history_of (8 ∷ []) controller.segment_history)
unfolding key_eqb
update_segment_history-bounded_example =
    update_segment_history-bounded 5 segment controller (8 ∷ [])
