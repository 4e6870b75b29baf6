-- ===== src/Adaptive/Switch.antt =====
-- When the controller asks for a switch.
use mathlib.Core.Bool.{false≢true}
use amethyst.Base.{
  ℕ, ◌+◌, ◌-◌, ◌≤◌, ◌<◌, ◌≡◌, refl, ap, true, List, [], ◌∷◌, ◌++◌, Key, ltb, leb, if◌then◌else◌,
  length, arith, length-drop, Bool-cases, key_eqb, key_eqb_refl, key_eqb-eq, inl, inr, ltb→le,
}
use amethyst.Types.{CompactionType, tiered, leveled, SegmentMeta, cooldown_expired}
use amethyst.Adaptive.{
  Float64, FsmController, Times, Decision, MetricSnapshot, History, window, history_of, set_history,
  update_segment_history, rises, choose, should_rewrite, window_size, min_segment_size,
  min_rewrite_interval, min_switch_interval,
}

-- The other strategy.
abbrev pub opposite : CompactionType → CompactionType
opposite tiered = leveled
opposite leveled = tiered

-- The access count that the strategy's switch looks at, and the least value that it passes.
abbrev pub pressure : CompactionType → SegmentMeta → ℕ
pressure tiered m = m.read_count
pressure leveled m = m.write_count

abbrev pub threshold : CompactionType → ℕ
threshold tiered = 500
threshold leveled = 10

abbrev pub metric : CompactionType → MetricSnapshot → ℕ
metric tiered s = s.read_count
metric leveled s = s.write_count

-- What a switch took: the time since the last rewrite and since the last switch, the segment's
-- size, three snapshots, a rising trend, and enough accesses of the kind that the strategy is bad at.
pub record IsSwitch (f : Float64) (t : Times) (m : SegmentMeta) (c : FsmController)
    (out : Decision × FsmController) : Type 0 where
  pub rested : m.last_rewrite_at + min_rewrite_interval ≤ t.start
  pub large : min_segment_size ≤ m.length
  pub snapshots : 3 ≤ length (history_of m.id out.1.segment_history)
  pub waited : c.last_switch + min_switch_interval ≤ t.check
  pub rising : rises f (history_of m.id out.1.segment_history) (metric m.strategy) ≡ true
  pub pressed : threshold m.strategy < pressure m.strategy m
  pub switched : out.0.strategy ≡ opposite m.strategy
  pub stamped : out.1.last_switch ≡ t.switch

choose_tiered :
    (f : Float64) (now : ℕ) (m : SegmentMeta) (h : List MetricSnapshot) (c : FsmController)
    → (choose f tiered now m h c).0.rewrite ≡ true
    → (rises f h (λ s. s.read_count) ≡ true)
      × (500 < m.read_count)
      × ((choose f tiered now m h c).0.strategy ≡ leveled)
      × ((choose f tiered now m h c).1 ≡ record c { last_switch = now })
unfolding choose
choose_tiered f now m h c e = ground arith

choose_leveled :
    (f : Float64) (now : ℕ) (m : SegmentMeta) (h : List MetricSnapshot) (c : FsmController)
    → (choose f leveled now m h c).0.rewrite ≡ true
    → (rises f h (λ s. s.write_count) ≡ true)
      × (10 < m.write_count)
      × ((choose f leveled now m h c).0.strategy ≡ tiered)
      × ((choose f leveled now m h c).1 ≡ record c { last_switch = now })
unfolding choose
choose_leveled f now m h c e = ground arith

choose_lem :
    (f : Float64) (s : CompactionType) (now : ℕ) (m : SegmentMeta) (h : List MetricSnapshot)
    (c : FsmController)
    → (choose f s now m h c).0.rewrite ≡ true
    → (rises f h (metric s) ≡ true)
      × (threshold s < pressure s m)
      × ((choose f s now m h c).0.strategy ≡ opposite s)
      × ((choose f s now m h c).1 ≡ record c { last_switch = now })
choose_lem f tiered now m h c e = choose_tiered f now m h c e
choose_lem f leveled now m h c e = choose_leveled f now m h c e

update_segment_history-last_switch :
    (now : ℕ) (m : SegmentMeta) (c : FsmController)
    → (update_segment_history now m c).last_switch ≡ c.last_switch
unfolding update_segment_history
update_segment_history-last_switch now m c = refl

-- What follows the tests of the cooldown and of the size.
history_kept :
    (f : Float64) (s : CompactionType) (now : ℕ) (m : SegmentMeta) (h : List MetricSnapshot)
    (c c' : FsmController)
    → (choose f s now m h c).1 ≡ record c' { last_switch = now }
    → ((choose f s now m h c).1.segment_history ≡ c'.segment_history)
      × ((choose f s now m h c).1.last_switch ≡ now)
history_kept f s now m h c c' e = (ap (λ x. x.segment_history) e, ap (λ x. x.last_switch) e)

-- ShouldRewrite asks for a switch only when two seconds have passed since the segment's last rewrite
-- and since the last switch, the segment has 4 KB at least and three snapshots at least, the trend of
-- the accesses that its strategy is bad at is above 0.3, and their count is above 500 reads for tiered
-- and 10 writes for leveled. The strategy asked for is the other one, and the switch is stamped.
pub should_rewrite-IsSwitch :
    (f : Float64) (t : Times) (m : SegmentMeta) (c : FsmController)
    → (should_rewrite f t m c).0.rewrite ≡ true
    → IsSwitch f t m c (should_rewrite f t m c)
unfolding should_rewrite cooldown_expired
should_rewrite-IsSwitch f t m c e =
    let c' = update_segment_history t.snapshot m c in
    let h = history_of m.id c'.segment_history in
    let stamp = update_segment_history-last_switch t.snapshot m c in
    elim (Bool-cases (leb (m.last_rewrite_at + min_rewrite_interval) t.start)) [
      | inr fresh ↦ absurd (false≢true (rw fresh at e))
      | inl rested ↦ elim (Bool-cases (ltb m.length min_segment_size)) [
        | inl small ↦ absurd (false≢true (rw (rested, small) at e))
        | inr large ↦ elim (Bool-cases (ltb (length h) 3)) [
          | inl few ↦ absurd (false≢true (rw (rested, large, few) at e))
          | inr many ↦ elim (Bool-cases (ltb t.check (c'.last_switch + min_switch_interval))) [
            | inl early ↦ absurd (false≢true (rw (rested, large, many, early) at e))
            | inr waited ↦
                let asked = rw (rested, large, many, waited) at e in
                let (rising, pressed, switched, changed) =
                  choose_lem f m.strategy t.switch m h c' asked in
                let (kept, stamped) = history_kept f m.strategy t.switch m h c' c' changed in
                rw (rested, large, many, waited)
                  (record {
                    rested = ground arith;
                    large = ground arith;
                    snapshots = rw kept (ground arith);
                    waited = omega (arith, stamp, ltb→le _ _ waited);
                    rising = rw kept rising;
                    pressed = pressed;
                    switched = switched;
                    stamped = stamped;
                  })
          ]
        ]
      ]
    ]

length-window : (h : List MetricSnapshot) → length (window h) ≤ window_size
unfolding window
length-window h = ground (arith, length-drop (length h - window_size) h)

history_of-set_history :
    (id j : Key) (h : List MetricSnapshot) (m : History)
    → history_of j (set_history id h m) ≡ (if key_eqb id j then h else history_of j m)
unfolding history_of set_history
history_of-set_history id j h [] = refl
history_of-set_history id j h ((k, g) ∷ m) = ground (
  arith,
  history_of-set_history id j h m,
  key_eqb-eq k id,
  key_eqb-eq id j,
  key_eqb-eq k j,
  key_eqb_refl j,
)

-- After a snapshot of a segment its history has five snapshots at most, and no other segment's history has changed.
pub update_segment_history-bounded :
    (now : ℕ) (m : SegmentMeta) (c : FsmController) (j : Key)
    → (length (history_of m.id (update_segment_history now m c).segment_history) ≤ window_size)
      × (history_of j (update_segment_history now m c).segment_history ≡ (
          if key_eqb m.id j
          then history_of m.id (update_segment_history now m c).segment_history
          else history_of j c.segment_history))
unfolding update_segment_history
update_segment_history-bounded now m c j = (
  rw (history_of-set_history m.id m.id, key_eqb_refl m.id)
      (length-window (
        history_of m.id c.segment_history
        ++ (record { timestamp = now; read_count = m.read_count; write_count = m.write_count }
            ∷ []))),
  rw (history_of-set_history m.id m.id, history_of-set_history m.id j, key_eqb_refl m.id) refl,
)
