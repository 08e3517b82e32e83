-- ===== src/Threshold/Persistence.antt =====
-- The threshold of adaptive_threshold.py across restarts, through the table of database.py.
use oanda_trader.Base.{
  ℕ, ◌≡◌, refl, Bool, true, Option, none, some, List, [], ◌∷◌, arith, Bool-cases, inl, inr, ltb,
  leb, lt, Option-cases, ◌+◌, Float, Num, ◌⊕◌, ◌⊖◌, ◌⊗◌, ◌≼◌, ◌≃◌, dec, max, min, is_some,
}
use oanda_trader.Base.NumberLaws.{≼_refl}
use oanda_trader.Database.{
  ThresholdRow, get_last_threshold-store, no_signals, strong_performance, poor_performance,
  marginal_performance, manual_reset,
}
use oanda_trader.Volatility.{VolatilityDetector}
use oanda_trader.Threshold.{
  ThresholdManager, Performance, new_manager, starting_threshold, log_adjustment, frequency_step,
  lower_for_signal_frequency, update_on_cycle, raise_for_performance, raise_for_poor_performance,
  lower_for_marginal_performance, update_on_trade_result, reset_to_base, judge, decide, Verdict,
  strong, poor, marginal, neutral, get_default, performance_row,
}
use oanda_trader.Threshold.Bounds.{
  IsValid, Event, cycle, trade, reset, volatility, handle, handle_all, handle-IsValid,
  new_manager-IsValid,
}

module _ ⦃F : Float⦄ where
  -- With a database, a new manager over the same table and settings starts where this one stands.
  pub record IsSaved (base lo hi : Num) (m : ThresholdManager) : Type 0 where
    pub base_same : m.base_threshold ≡ base
    pub low_same : m.min_threshold ≡ lo
    pub high_same : m.max_threshold ≡ hi
    pub stored : is_some m.db ≡ true
    pub restart_low : starting_threshold base m.db lo hi ≼ m.current_threshold
    pub restart_high : m.current_threshold ≼ starting_threshold base m.db lo hi

  -- A decision is saved if its row holds the threshold.
  log_adjustment-IsSaved :
      (base lo hi : Num) (m : ThresholdManager) (row : ThresholdRow) (rows : List ThresholdRow)
      → m.db ≡ some rows
      → m.base_threshold ≡ base
      → m.min_threshold ≡ lo
      → m.max_threshold ≡ hi
      → m.current_threshold ≡ row.new_threshold
      → lo ≼ row.new_threshold
      → row.new_threshold ≼ hi
      → IsSaved base lo hi (log_adjustment m row)
  unfolding log_adjustment starting_threshold
  log_adjustment-IsSaved base lo hi m row rows d b l h c p q =
      ground (arith, get_last_threshold-store rows row)

  module _ (base lo hi : Num) (m : ThresholdManager) (v : IsValid m)
      (s : IsSaved base lo hi m) where
    kept : (n : ℕ) → IsSaved base lo hi (record m { cycles_without_signal = n })
    kept n = record {
      base_same = s.base_same;
      low_same = s.low_same;
      high_same = s.high_same;
      stored = s.stored;
      restart_low = s.restart_low;
      restart_high = s.restart_high;
    }

    moved :
        (n : ℕ) (row : ThresholdRow)
        → m.min_threshold ≼ row.new_threshold
        → row.new_threshold ≼ m.max_threshold
        → IsSaved base lo hi (
            log_adjustment
              (record m { current_threshold = row.new_threshold; cycles_without_signal = n })
              row)
    moved n row p q = elim (Option-cases m.db) [
      | inl e ↦ absurd (ground (arith, s.stored))
      | inr (rows, e) ↦
          log_adjustment-IsSaved base lo hi
            (record m { current_threshold = row.new_threshold; cycles_without_signal = n }) row rows
            e s.base_same s.low_same s.high_same refl (ground (arith, s.low_same))
            (ground (arith, s.high_same))
    ]

    lower_for_signal_frequency-IsSaved :
        (n : ℕ)
        → IsSaved base lo hi (lower_for_signal_frequency (record m { cycles_without_signal = n })).0
    unfolding lower_for_signal_frequency
    lower_for_signal_frequency-IsSaved n =
        let old = m.current_threshold in
        let new =
          max m.min_threshold (old ⊖ frequency_step (record m { cycles_without_signal = n })) in
        elim (Bool-cases (lt new old)) [
          | inl e ↦ rw e (
              moved 0
                (record {
                  old_threshold = old;
                  new_threshold = new;
                  adjustment_reason = no_signals;
                  cycles_without_signal = m.no_signal_cycles_trigger;
                  recent_win_rate = none;
                  recent_profit_factor = none;
                  total_trades_analyzed = 0;
                })
                (ground arith) (ground (arith, v.current_high)))
          | inr e ↦ rw e (kept n)
        ]

    update_on_cycle-IsSaved : (n : ℕ) → IsSaved base lo hi (update_on_cycle m n).0
    unfolding update_on_cycle
    update_on_cycle-IsSaved n =
        let lowered = lower_for_signal_frequency-IsSaved (m.cycles_without_signal + 1) in
        elim (Bool-cases (ltb 0 n)) [
          | inl e ↦ rw e (kept 0)
          | inr e ↦
              elim (Bool-cases (leb m.no_signal_cycles_trigger (m.cycles_without_signal + 1))) [
                | inl f ↦ rw (e, f) lowered
                | inr f ↦ rw (e, f) (kept (m.cycles_without_signal + 1))
              ]
        ]

    decide-IsSaved : (d : Verdict) (w p : Num) (n : ℕ) → IsSaved base lo hi (decide d m w p n).0
    unfolding raise_for_performance raise_for_poor_performance lower_for_marginal_performance
    decide-IsSaved strong w p n =
        let old = m.current_threshold in
        let new = min m.max_threshold (old ⊕ m.adjustment_step) in
        elim (Bool-cases (lt old new)) [
          | inl e ↦ rw e (
              moved m.cycles_without_signal (performance_row old new strong_performance w p n)
                (ground (arith, v.current_low)) (ground arith))
          | inr e ↦ rw e s
        ]
    decide-IsSaved poor w p n =
        let old = m.current_threshold in
        let new = min m.max_threshold (old ⊕ m.adjustment_step ⊗ dec 15 1) in
        elim (Bool-cases (lt old new)) [
          | inl e ↦ rw e (
              moved m.cycles_without_signal (performance_row old new poor_performance w p n)
                (ground (arith, v.current_low)) (ground arith))
          | inr e ↦ rw e s
        ]
    decide-IsSaved marginal w p n =
        let old = m.current_threshold in
        let new = max m.min_threshold (old ⊖ m.adjustment_step) in
        elim (Bool-cases (lt new old)) [
          | inl e ↦ rw e (
              moved m.cycles_without_signal (performance_row old new marginal_performance w p n)
                (ground arith) (ground (arith, v.current_high)))
          | inr e ↦ rw e s
        ]
    decide-IsSaved neutral w p n = s

    update_on_trade_result-IsSaved :
        (won : Bool) (p : Option Performance)
        → IsSaved base lo hi (update_on_trade_result m won p).0
    unfolding update_on_trade_result
    update_on_trade_result-IsSaved won none = s
    update_on_trade_result-IsSaved won (some p) =
        let win_rate = get_default p.win_rate (dec 5 1) in
        let profit_factor = get_default p.profit_factor (dec 10 1) in
        let trades = get_default p.total_trades 0 in
        let decided = decide-IsSaved (judge win_rate profit_factor) win_rate profit_factor trades in
        elim (Bool-cases (ltb trades 5)) [ inl e ↦ rw e s | inr e ↦ rw e decided ]

    reset_to_base-IsSaved : IsSaved base lo hi (reset_to_base m)
    unfolding reset_to_base
    reset_to_base-IsSaved =
        moved 0
          (record {
            old_threshold = m.current_threshold;
            new_threshold = m.base_threshold;
            adjustment_reason = manual_reset;
            cycles_without_signal = 0;
            recent_win_rate = none;
            recent_profit_factor = none;
            total_trades_analyzed = 0;
          })
          v.base_low v.base_high

  handle-IsSaved :
      (base lo hi : Num) (m : ThresholdManager) (e : Event)
      → IsValid m
      → IsSaved base lo hi m
      → IsSaved base lo hi (handle m e)
  unfolding handle
  handle-IsSaved base lo hi m (cycle n) v s = update_on_cycle-IsSaved base lo hi m v s n
  handle-IsSaved base lo hi m (trade won p) v s =
      update_on_trade_result-IsSaved base lo hi m v s won p
  handle-IsSaved base lo hi m reset v s = reset_to_base-IsSaved base lo hi m v s
  handle-IsSaved base lo hi m (volatility d) v s = ground arith

  pub handle_all-IsSaved :
      (base lo hi : Num) (m : ThresholdManager) (es : List Event)
      → IsValid m
      → IsSaved base lo hi m
      → IsSaved base lo hi (handle_all m es)
  unfolding handle_all
  handle_all-IsSaved base lo hi m [] v s = s
  handle_all-IsSaved base lo hi m (e ∷ es) v s =
      handle_all-IsSaved base lo hi (handle m e) es (handle-IsValid m e v)
        (handle-IsSaved base lo hi m e v s)

  pub new_manager-IsSaved :
      (base : Num) (rows : List ThresholdRow) (lo hi : Num) (trigger : ℕ) (step : Num)
      (detector : Option VolatilityDetector)
      → IsSaved base lo hi (new_manager base (some rows) lo hi trigger step detector)
  unfolding new_manager
  new_manager-IsSaved base rows lo hi trigger step detector = record {
    base_same = refl;
    low_same = refl;
    high_same = refl;
    stored = refl;
    restart_low = ≼_refl _;
    restart_high = ≼_refl _;
  }

  -- The threshold survives restarts: if the base lies between the bounds, then after any events on
  -- a manager with a database, whatever its table held at first, a new manager over the table left
  -- behind, with the same base and bounds, starts at a threshold equal in value to the last one.
  pub restart_same :
      (base : Num) (rows : List ThresholdRow) (lo hi : Num) (trigger trigger' : ℕ)
      (step step' : Num) (detector detector' : Option VolatilityDetector) (es : List Event)
      → lo ≼ base
      → base ≼ hi
      → let m = handle_all (new_manager base (some rows) lo hi trigger step detector) es in
        (new_manager base m.db lo hi trigger' step' detector').current_threshold
        ≃ m.current_threshold
  unfolding new_manager
  restart_same base rows lo hi trigger trigger' step step' detector detector' es h k =
      let saved =
        handle_all-IsSaved base lo hi (new_manager base (some rows) lo hi trigger step detector) es
          (new_manager-IsValid base (some rows) lo hi trigger step detector h k)
          (new_manager-IsSaved base rows lo hi trigger step detector) in
      (saved.restart_low, saved.restart_high)
