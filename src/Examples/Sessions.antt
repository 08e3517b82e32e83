-- ===== src/Examples/Sessions.antt =====
-- Runs of demo_threshold_persistence.py with the clock at the number of the trade, and a judgement of
-- six losses.
use oanda_trader.Base.{
  ℕ, zero, suc, ◌≡◌, refl, true, some, [], arith, String, same_text, length, filter, if◌then◌else◌,
  Numpy, ◌⊖◌, ◌⊘◌, dec, of_ℕ, nought,
}
use oanda_trader.Base.Fixed.{fixed, plus, minus, times, over, whole}
use oanda_trader.Analytics.{sum, sum_from, present}
use oanda_trader.Database.{store_threshold_adjustment, get_last_threshold}
use oanda_trader.Database.Trades.{
  TradeTable, new_table, trade_row, store_trade, update_rows, update_trade, average,
  profit_factor_of, sharpe_of, metrics_of, get_performance_metrics,
  get_recent_threshold_adjustments,
}
use oanda_trader.Threshold.{
  ThresholdManager, new_manager, starting_threshold, log_adjustment, frequency_step,
  lower_for_signal_frequency, update_on_cycle, raise_for_performance, raise_for_poor_performance,
  lower_for_marginal_performance, update_on_trade_result, judge,
}
use oanda_trader.Sessions.{
  DemoReport, as_performance, demo_manager, quiet_cycles, demo_trade, demo_round, demo_rounds,
  session1, session2, demo_persistence,
}
use oanda_trader.Sessions.Restarts.{IsRemembered, demo_persistence-IsRemembered}
use oanda_trader.Sessions.Verdicts.{
  all_lost, response, update_on_trade_result-get_performance_metrics,
}

program : Unit {0}
unfolding sum_from present filter store_threshold_adjustment get_last_threshold trade_row
    store_trade update_rows update_trade average profit_factor_of sharpe_of metrics_of
    get_performance_metrics get_recent_threshold_adjustments new_manager starting_threshold
    log_adjustment frequency_step lower_for_signal_frequency update_on_cycle raise_for_performance
    raise_for_poor_performance lower_for_marginal_performance update_on_trade_result judge
    demo_manager quiet_cycles demo_trade demo_round demo_rounds session1 session2 demo_persistence
    plus minus times over whole
program = tt

abbrev numpy : Numpy
numpy = record { mean = λ xs. sum xs ⊘ of_ℕ (length xs); std = λ xs. nought; sqrt = λ x. x }

abbrev upper : String → String
upper s = if same_text s "closed" then "CLOSED" else s

abbrev demo : DemoReport
demo =
    demo_persistence numpy upper (λ i. of_ℕ i) (λ i. of_ℕ i) (λ rs. rs) (λ rs. rs) (of_ℕ 10)
      (of_ℕ 30)

lowered_run : demo.final_threshold_session1 ≡ dec 75 2
unfolding program
lowered_run = refl

rate_run : demo.recent_performance.win_rate ≡ dec 75 2
unfolding program
rate_run = refl

raised_run : demo.final_loaded_threshold ≡ dec 80 2
unfolding program
raised_run = refl

demo_persistence-IsRemembered_example : IsRemembered demo
demo_persistence-IsRemembered_example =
    demo_persistence-IsRemembered numpy upper (λ i. of_ℕ i) (λ i. of_ℕ i) (λ rs. rs) (λ rs. rs)
      (of_ℕ 10) (of_ℕ 30)

-- A trade that loses 1.
abbrev losing_round : TradeTable → TradeTable
losing_round t =
    let (t', trade_id) = store_trade t (demo_trade 0) (of_ℕ 5) in
    update_trade upper t' trade_id (dec 1 0) (nought ⊖ of_ℕ 1) "closed" (of_ℕ 6)

abbrev rounds : ℕ → TradeTable
rounds zero = new_table
rounds (suc n) = losing_round (rounds n)

abbrev manager : ThresholdManager
manager = demo_manager []

update_on_trade_result-get_performance_metrics_example :
    let r = get_performance_metrics numpy (λ rs. rs) (rounds 6) (of_ℕ 10) (of_ℕ 30) in
    update_on_trade_result manager true (some (as_performance r)) ≡ response all_lost manager r
unfolding program
update_on_trade_result-get_performance_metrics_example =
    update_on_trade_result-get_performance_metrics numpy (λ rs. rs) (rounds 6) (of_ℕ 10) (of_ℕ 30)
      manager true all_lost (omega arith, ground arith)
