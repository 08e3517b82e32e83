-- ===== src/Threshold.antt =====
-- adaptive_threshold.py: the class `AdaptiveThresholdManager`. The database is the table of its
-- adjustments, and the volatility detector a field that an event of the bot may replace.
use oanda_trader.Base.{
  ℕ, suc, ◌+◌, Bool, true, false, ◌&&◌, ◌||◌, Option, none, some, List, [], ◌∷◌, ltb, leb,
  if◌then◌else◌, Float, Num, ◌⊕◌, ◌⊖◌, ◌⊗◌, dec, nought, lt, le, max, min,
}
use oanda_trader.Database.{
  ThresholdRow, AdjustmentReason, no_signals, strong_performance, poor_performance,
  marginal_performance, manual_reset, store_threshold_adjustment, get_last_threshold,
}
use oanda_trader.Volatility.{VolatilityDetector, get_threshold_adjustment}
pub mod Bounds
pub mod Persistence
pub mod Cycles
pub mod Direction
pub mod Status

module _ ⦃F : Float⦄ where
  pub record ThresholdManager : Type 0 where
    pub base_threshold : Num
    pub min_threshold : Num
    pub max_threshold : Num
    pub no_signal_cycles_trigger : ℕ
    pub adjustment_step : Num
    pub db : Option (List ThresholdRow)
    pub volatility_detector : Option VolatilityDetector
    pub current_threshold : Num
    pub cycles_without_signal : ℕ

  -- The dictionary `recent_performance`, whose keys may be missing.
  pub record Performance : Type 0 where
    pub win_rate : Option Num
    pub profit_factor : Option Num
    pub total_trades : Option ℕ

  -- `.get(key, default)`
  abbrev pub get_default : {A : Type 0} → Option A → A → A
  get_default none d = d
  get_default (some a) d = a

  -- The threshold that the constructor starts with.
  unfoldable pub starting_threshold : Num → Option (List ThresholdRow) → Num → Num → Num
  starting_threshold base none lo hi = base
  starting_threshold base (some rows) lo hi = elim (get_last_threshold rows) [
    | none ↦ base
    | some last ↦ max lo (min hi last)
  ]

  unfoldable pub new_manager :
      Num
      → Option (List ThresholdRow)
      → Num
      → Num
      → ℕ
      → Num
      → Option VolatilityDetector
      → ThresholdManager
  unfolding starting_threshold
  new_manager base db lo hi trigger step detector = record {
    base_threshold = base;
    min_threshold = lo;
    max_threshold = hi;
    no_signal_cycles_trigger = trigger;
    adjustment_step = step;
    db = db;
    volatility_detector = detector;
    current_threshold = starting_threshold base db lo hi;
    cycles_without_signal = 0;
  }

  -- `_log_adjustment`: a row for the database, if there is one.
  unfoldable pub log_adjustment : ThresholdManager → ThresholdRow → ThresholdManager
  log_adjustment m row = elim m.db [
    | none ↦ m
    | some rows ↦ record m { db = some (store_threshold_adjustment rows row) }
  ]

  -- The step of `_lower_threshold_for_signal_frequency`, by the volatility where it is known.
  unfoldable pub frequency_step : ThresholdManager → Num
  frequency_step m = elim m.volatility_detector [
    | none ↦ m.adjustment_step
    | some d ↦ (get_threshold_adjustment d m.current_threshold m.adjustment_step).adjusted_step
  ]

  unfoldable pub lower_for_signal_frequency : ThresholdManager → ThresholdManager × Bool
  unfolding frequency_step log_adjustment
  lower_for_signal_frequency m =
      let old = m.current_threshold in
      let new = max m.min_threshold (old ⊖ frequency_step m) in
      if lt new old
      then (
        log_adjustment (record m { current_threshold = new; cycles_without_signal = 0 })
            (record {
              old_threshold = old;
              new_threshold = new;
              adjustment_reason = no_signals;
              cycles_without_signal = m.no_signal_cycles_trigger;
              recent_win_rate = none;
              recent_profit_factor = none;
              total_trades_analyzed = 0;
            }),
        true,
      )
      else (m, false)

  unfoldable pub update_on_cycle : ThresholdManager → ℕ → ThresholdManager × Bool
  unfolding lower_for_signal_frequency
  update_on_cycle m signals_found =
      let counted = record m { cycles_without_signal = m.cycles_without_signal + 1 } in
      if ltb 0 signals_found
      then (record m { cycles_without_signal = 0 }, false)
      else (if leb m.no_signal_cycles_trigger (m.cycles_without_signal + 1)
          then lower_for_signal_frequency counted
          else (counted, false))

  -- The row of a decision by performance.
  abbrev pub performance_row : Num → Num → AdjustmentReason → Num → Num → ℕ → ThresholdRow
  performance_row old new reason win_rate profit_factor trades = record {
    old_threshold = old;
    new_threshold = new;
    adjustment_reason = reason;
    cycles_without_signal = 0;
    recent_win_rate = some win_rate;
    recent_profit_factor = some profit_factor;
    total_trades_analyzed = trades;
  }

  unfoldable pub raise_for_performance : ThresholdManager → Num → Num → ℕ → ThresholdManager × Bool
  unfolding log_adjustment
  raise_for_performance m win_rate profit_factor trades =
      let old = m.current_threshold in
      let new = min m.max_threshold (old ⊕ m.adjustment_step) in
      if lt old new
      then (
        log_adjustment (record m { current_threshold = new })
            (performance_row old new strong_performance win_rate profit_factor trades),
        true,
      )
      else (m, false)

  unfoldable pub raise_for_poor_performance :
      ThresholdManager → Num → Num → ℕ → ThresholdManager × Bool
  unfolding log_adjustment
  raise_for_poor_performance m win_rate profit_factor trades =
      let old = m.current_threshold in
      let new = min m.max_threshold (old ⊕ m.adjustment_step ⊗ dec 15 1) in
      if lt old new
      then (
        log_adjustment (record m { current_threshold = new })
            (performance_row old new poor_performance win_rate profit_factor trades),
        true,
      )
      else (m, false)

  unfoldable pub lower_for_marginal_performance :
      ThresholdManager → Num → Num → ℕ → ThresholdManager × Bool
  unfolding log_adjustment
  lower_for_marginal_performance m win_rate profit_factor trades =
      let old = m.current_threshold in
      let new = max m.min_threshold (old ⊖ m.adjustment_step) in
      if lt new old
      then (
        log_adjustment (record m { current_threshold = new })
            (performance_row old new marginal_performance win_rate profit_factor trades),
        true,
      )
      else (m, false)

  -- The three tests on performance, in their order.
  pub data Verdict : Type 0 where
    strong poor marginal neutral : Verdict

  unfoldable pub judge : Num → Num → Verdict
  judge win_rate profit_factor =
      if le (dec 65 2) win_rate && le (dec 15 1) profit_factor
      then strong
      else (if lt win_rate (dec 45 2) || lt profit_factor (dec 8 1)
          then poor
          else (if le (dec 50 2) win_rate && lt win_rate (dec 55 2) && lt profit_factor (dec 11 1)
              then marginal
              else neutral))

  abbrev pub decide : Verdict → ThresholdManager → Num → Num → ℕ → ThresholdManager × Bool
  decide strong m w p n = raise_for_performance m w p n
  decide poor m w p n = raise_for_poor_performance m w p n
  decide marginal m w p n = lower_for_marginal_performance m w p n
  decide neutral m w p n = (m, false)

  -- The outcome of the trade is not used.
  unfoldable pub update_on_trade_result :
      ThresholdManager → Bool → Option Performance → ThresholdManager × Bool
  unfolding judge raise_for_performance raise_for_poor_performance lower_for_marginal_performance
  update_on_trade_result m trade_profitable none = (m, false)
  update_on_trade_result m trade_profitable (some p) =
      let win_rate = get_default p.win_rate (dec 5 1) in
      let profit_factor = get_default p.profit_factor (dec 10 1) in
      let trades = get_default p.total_trades 0 in
      if ltb trades 5
      then (m, false)
      else decide (judge win_rate profit_factor) m win_rate profit_factor trades

  unfoldable pub reset_to_base : ThresholdManager → ThresholdManager
  unfolding log_adjustment
  reset_to_base m =
      log_adjustment (record m { current_threshold = m.base_threshold; cycles_without_signal = 0 })
        (record {
          old_threshold = m.current_threshold;
          new_threshold = m.base_threshold;
          adjustment_reason = manual_reset;
          cycles_without_signal = 0;
          recent_win_rate = none;
          recent_profit_factor = none;
          total_trades_analyzed = 0;
        })
