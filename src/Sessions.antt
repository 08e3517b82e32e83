-- ===== src/Sessions.antt =====
-- demo_threshold_persistence.py: the three sessions of a bot on one database, whose tables pass from
-- a session to the next. Of what is printed, the figures that the checks use are in the report; the
-- file of the database is new at the start and is removed at the end.
use oanda_trader.Base.{
  ℕ, zero, suc, ◌+◌, ◌*◌, Bool, true, false, not, Option, none, some, List, [], ◌∷◌, ltb,
  if◌then◌else◌, String, Float, Num, Numpy, ◌⊕◌, ◌⊖◌, ◌⊗◌, dec, of_ℕ, nought, eq,
}
use oanda_trader.Database.{ThresholdRow}
use oanda_trader.Database.Trades.{
  TradeData, TradeRow, TradeTable, new_table, TradeMetrics, store_trade, update_trade,
  get_performance_metrics, get_recent_threshold_adjustments,
}
use oanda_trader.Threshold.{
  ThresholdManager, Performance, new_manager, update_on_cycle, update_on_trade_result,
}
pub mod Restarts
pub mod Verdicts

module _ ⦃F : Float⦄ where
  -- The dictionary of `get_performance_metrics`, as `update_on_trade_result` reads it.
  abbrev pub as_performance : TradeMetrics → Performance
  as_performance m = record {
    win_rate = some m.win_rate;
    profit_factor = some m.profit_factor;
    total_trades = some m.total_trades;
  }

  -- The manager over the table of adjustments that is in the file.
  unfoldable pub demo_manager : List ThresholdRow → ThresholdManager
  demo_manager rows = new_manager (dec 8 1) (some rows) (dec 5 1) (dec 95 2) 3 (dec 5 2) none

  -- The cycles of the first session, none of which finds a signal; with each, whether it adjusted
  -- the threshold.
  unfoldable pub quiet_cycles : ℕ → ThresholdManager → ThresholdManager × List Bool
  quiet_cycles zero m = (m, [])
  quiet_cycles (suc left) m =
      let (m', adjusted) = update_on_cycle m 0 in
      let (last, flags) = quiet_cycles left m' in (last, adjusted ∷ flags)

  -- The trade number `i`.
  unfoldable pub demo_trade : ℕ → TradeData
  demo_trade i = record {
    instrument = "EUR_USD";
    signal = "BUY";
    confidence = dec 85 2;
    entry_price = dec 11000 4 ⊕ of_ℕ i ⊗ dec 1 4;
    stop_loss = some (dec 1 3);
    take_profit = some (dec 2 3);
    units = of_ℕ 1000;
    atr = some (dec 1 4);
    ml_prediction = some (dec 7 1);
    position_size_pct = some (dec 2 2);
  }

  -- The rows of the adjustments in the file, which a manager with a database always has.
  abbrev pub stored_rows : ThresholdManager → List ThresholdRow
  stored_rows m = elim m.db [ none ↦ [] | some rows ↦ rows ]

  -- `opened i` and `ended i` are the clock at the two writes of the trade `i`.
  module _ (upper : String → String) (opened ended : ℕ → Num) where
    -- The trade is stored, and closed with a profit if it is one of the first six.
    unfoldable pub demo_round : TradeTable → ℕ → TradeTable
    demo_round t i =
        let (t', trade_id) = store_trade t (demo_trade i) (opened i) in
        if ltb i 6
        then update_trade upper t' trade_id (dec 11010 4) (of_ℕ 20) "closed" (ended i)
        else update_trade upper t' trade_id (dec 10995 4) (nought ⊖ of_ℕ 10) "closed" (ended i)

    -- The trades from the number `i` on.
    unfoldable pub demo_rounds : ℕ → ℕ → TradeTable → TradeTable
    demo_rounds zero i t = t
    demo_rounds (suc left) i t = demo_rounds left (suc i) (demo_round t i)

  -- The figures that the demonstration prints and compares.
  pub record DemoReport : Type 0 where
    pub fresh_threshold : Num
    pub cycle_flags : List Bool
    pub final_threshold_session1 : Num
    pub loaded_threshold : Num
    pub recent_performance : TradeMetrics
    pub adjusted : Bool
    pub final_threshold_session2 : Num
    pub final_loaded_threshold : Num
    pub adjustments : List ThresholdRow

  -- The first session: a fresh table, and three cycles.
  unfoldable pub session1 : ThresholdManager × List Bool
  session1 = quiet_cycles 3 (demo_manager [])

  -- The manager of the second session after its decision, from the table of the first.
  unfoldable pub session2 : ThresholdManager → TradeMetrics → ThresholdManager × Bool
  session2 manager2 performance =
      update_on_trade_result manager2 true (some (as_performance performance))

  unfoldable pub demo_persistence :
      (series : Numpy) (upper : String → String) (opened ended : ℕ → Num)
      (latest_first : List TradeRow → List TradeRow)
      (newest_first : List ThresholdRow → List ThresholdRow) (now : Num) (days : Num)
      → DemoReport
  demo_persistence series upper opened ended latest_first newest_first now days =
      let (manager1, flags) = session1 in
      let manager2 = demo_manager (stored_rows manager1) in
      let trades = demo_rounds upper opened ended 8 0 new_table in
      let performance = get_performance_metrics series latest_first trades now days in
      let (last2, adjusted) = session2 manager2 performance in
      let manager3 = demo_manager (stored_rows last2) in
      record {
        fresh_threshold = (demo_manager []).current_threshold;
        cycle_flags = flags;
        final_threshold_session1 = manager1.current_threshold;
        loaded_threshold = manager2.current_threshold;
        recent_performance = performance;
        adjusted = adjusted;
        final_threshold_session2 = last2.current_threshold;
        final_loaded_threshold = manager3.current_threshold;
        adjustments = get_recent_threshold_adjustments newest_first (stored_rows last2) 10;
      }

  -- The two checks that print SUCCESS.
  abbrev pub loads_saved : DemoReport → Bool × Bool
  loads_saved r = (
    eq r.loaded_threshold r.final_threshold_session1,
    eq r.final_loaded_threshold r.final_threshold_session2,
  )
