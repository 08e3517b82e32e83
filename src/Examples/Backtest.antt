-- ===== src/Examples/Backtest.antt =====
-- Runs of backtest.py: walks over 260 rows, and the orders of a bar.
use oanda_trader.Base.{
  ℕ, zero, suc, ◌≡◌, refl, false, Option, none, some, List, [], ◌∷◌, arith, length, Numpy, ◌⊘◌, dec,
  of_ℕ, nought, one, Result, ok, zero_division, map,
}
use oanda_trader.Base.Fixed.{fixed, plus, minus, times, over, whole}
use oanda_trader.Analytics.{sum, sum_from, least}
use oanda_trader.Timeframe.{buy, sell}
use oanda_trader.Strategies.{
  calculate_indicators, confidence_of, read_table, advanced_scalp, get_signal,
  get_signal_with_confidence,
}
use oanda_trader.Examples.Strategies.{library, repeat}
use oanda_trader.Backtest.{
  market, stop, limit, Params, bracket, orders_for, scalp_next, ma_next, drawdowns_from,
  calculate_max_drawdown, calculate_sharpe_ratio, calculate_performance_metrics, RunReport,
  backtest, trades_of, Window, window, WalkForward, sufficient_test_period, walks_from,
  walk_forward_analysis,
}
use oanda_trader.Backtest.Walks.{IsAnalysis, walk_forward_analysis-IsAnalysis}
use oanda_trader.Backtest.Orders.{IsEntry, scalp_next-IsEntry}

program : Unit {0}
unfolding sum_from least calculate_indicators confidence_of read_table advanced_scalp get_signal
    get_signal_with_confidence bracket orders_for scalp_next ma_next drawdowns_from
    calculate_max_drawdown calculate_sharpe_ratio calculate_performance_metrics backtest trades_of
    walks_from walk_forward_analysis plus minus times over whole
program = tt

abbrev numpy : Numpy
numpy = record { mean = λ xs. sum xs ⊘ of_ℕ (length xs); std = λ xs. nought; sqrt = λ x. x }

abbrev report : List ℕ → RunReport
report xs = record {
  starting_value = of_ℕ 100;
  final_value = of_ℕ 110;
  sharperatio = none;
  max_drawdown = some (of_ℕ 5);
  total = some 4;
  won = some 3;
  lost = some 1;
}

abbrev rows_of : ℕ → List ℕ
rows_of zero = []
rows_of (suc n) = n ∷ rows_of n

abbrev walks_of : Result (Option WalkForward) → List Window
walks_of zero_division = []
walks_of (ok none) = []
walks_of (ok (some f)) = map (λ w. w.rows) f.walks

walks_run :
    walks_of (walk_forward_analysis numpy report (rows_of 260) 150 20)
    ≡ window 150 50 0 ∷ window 150 50 1 ∷ []
unfolding program
walks_run = refl

drawdown_run : calculate_max_drawdown (of_ℕ 4 ∷ of_ℕ 8 ∷ of_ℕ 6 ∷ of_ℕ 9 ∷ []) ≡ dec 25 2
unfolding program
drawdown_run = refl

abbrev params : Params
params = record {
  atr_stop_mult = dec 5 1;
  atr_profit_mult = of_ℕ 1;
  confidence_threshold = dec 7 1;
}

bar_run :
    scalp_next library params 60 (repeat 50) false (of_ℕ 2)
    ≡ market buy ∷ stop sell (dec 19995 4) ∷ limit sell (dec 2001 3) ∷ []
unfolding program
bar_run = refl

entry_run :
    orders_for params false (of_ℕ 2) (record { signal = some buy; confidence = one; atr = dec 2 1 })
    ≡ market buy ∷ stop sell (dec 19 1) ∷ limit sell (dec 22 1) ∷ []
unfolding program
entry_run = refl

walk_forward_analysis-IsAnalysis_example :
    IsAnalysis report
      (rows_of 260)
      150
      (sufficient_test_period 20)
      (walk_forward_analysis numpy report (rows_of 260) 150 20)
walk_forward_analysis-IsAnalysis_example =
    walk_forward_analysis-IsAnalysis numpy report (rows_of 260) 150 20 (λ xs. refl)

scalp_next-IsEntry_example :
    IsEntry params 60 false one
      (get_signal_with_confidence library (repeat 50) "advanced_scalp")
      (scalp_next library params 60 (repeat 50) false one)
scalp_next-IsEntry_example =
    scalp_next-IsEntry params (omega arith) (omega arith) library 60 (repeat 50) false one
