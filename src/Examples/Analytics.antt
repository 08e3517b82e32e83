-- ===== src/Examples/Analytics.antt =====
-- Runs of analytics.py on five trades: two wins, two losses, and one without a result.
use oanda_trader.Base.{
  ◌≡◌, refl, false, none, some, List, [], ◌∷◌, length, lookup, insert, filter, String, Num, Option,
  Numpy, ◌⊖◌, ◌⊘◌, dec, of_ℕ, nought, one,
}
use oanda_trader.Base.Fixed.{fixed, plus, minus, times, over, whole}
use oanda_trader.Analytics.{
  Trade, pnls_of, present, sum, sum_from, streak_loop, calculate_max_streak, annual_sharpe,
  summarize, calculate_summary_metrics, greatest, least, analyze_win_loss, cumulative_from,
  drawdown_loop, last_of, drawdown_of, analyze_drawdown,
}
use oanda_trader.Analytics.Streaks.{leading, longest_run}
use oanda_trader.Analytics.Drawdowns.{IsAnalysis, analyze_drawdown-IsDrawdown}
use oanda_trader.Analytics.Groups.{
  group_from, performance, performances, range_of_confidence, ml_range, period,
  analyze_by_instrument, analyze_by_signal, analyze_by_confidence, analyze_ml_effectiveness,
  analyze_by_time,
}
use oanda_trader.Analytics.Groups.Laws.{results_of, performance_of, analyses_lem}
use oanda_trader.Analytics.Suggestions.{
  poor_risk_reward, drawdown_alert, best_instrument, best_time, max_by, min_by,
  win_rate_suggestions, risk_reward_suggestions, drawdown_suggestions, instrument_suggestions,
  signal_suggestions, ml_suggestions, time_suggestions, suggestions_from, generate_suggestions,
  generate_comprehensive_report,
}
use oanda_trader.Analytics.Suggestions.Founded.{
  AreFounded, grounds_of, generate_suggestions-AreFounded,
}
use oanda_trader.Base.{map, Dict}
use oanda_trader.Analytics.Groups.{GroupPerformance}
use oanda_trader.Analytics.Printing.{
  insert_down, sorted_down, top_instruments, print_report, no_analytics,
}
use oanda_trader.Analytics.Printing.Top.{AreTop, top_instruments-AreTop}

program : Unit {0}
unfolding present sum_from streak_loop calculate_max_streak annual_sharpe summarize
    calculate_summary_metrics greatest least analyze_win_loss cumulative_from drawdown_loop last_of
    drawdown_of analyze_drawdown group_from performance performances analyze_by_instrument
    analyze_by_signal analyze_by_confidence analyze_ml_effectiveness analyze_by_time max_by min_by
    win_rate_suggestions risk_reward_suggestions drawdown_suggestions instrument_suggestions
    signal_suggestions ml_suggestions time_suggestions suggestions_from generate_suggestions
    generate_comprehensive_report leading longest_run results_of lookup insert filter plus minus
    times over whole
program = tt

abbrev numpy : Numpy
numpy = record { mean = λ xs. sum xs ⊘ of_ℕ (length xs); std = λ xs. nought; sqrt = λ x. x }

abbrev trade : String → Option Num → Trade
trade instrument pnl = record {
  instrument = instrument;
  signal = "BUY";
  confidence = some (dec 8 1);
  ml_prediction = none;
  pnl = pnl;
  entry_hour = some 9;
  duration = some one;
}

abbrev loss : Num
loss = nought ⊖ of_ℕ 3

abbrev trades : List Trade
trades =
    trade "EUR_USD" (some (of_ℕ 2))
    ∷ trade "EUR_USD" (some loss)
    ∷ trade "USD_JPY" (some loss)
    ∷ trade "USD_JPY" none
    ∷ trade "EUR_USD" (some (of_ℕ 2))
    ∷ []

streak_run : calculate_max_streak (pnls_of trades) false ≡ 2
unfolding program
streak_run = refl

suggestions_run :
    generate_suggestions numpy 5 (dec 1 1) trades (some (of_ℕ 10))
    ≡ poor_risk_reward (dec 666666 6)
      ∷ drawdown_alert (dec 4 1)
      ∷ best_instrument "EUR_USD" one (dec 666666 6)
      ∷ best_time "morning (06:00-12:00)" (nought ⊖ dec 5 1) (dec 5 1)
      ∷ []
unfolding program
suggestions_run = refl

analyze_drawdown-IsDrawdown_example :
    IsAnalysis
      (dec 1 1)
      (some (of_ℕ 10))
      (pnls_of trades)
      (analyze_drawdown (dec 1 1) trades (some (of_ℕ 10)))
analyze_drawdown-IsDrawdown_example = analyze_drawdown-IsDrawdown (dec 1 1) trades (some (of_ℕ 10))

analyses_lem_example :
    let k : String = "EUR_USD" in
    (lookup k (analyze_by_instrument numpy trades)
      ≡ performance_of numpy (results_of (λ t. some t.instrument) k trades))
    × (lookup k (analyze_by_signal numpy trades)
        ≡ performance_of numpy (results_of (λ t. some t.signal) k trades))
    × (lookup k (analyze_by_confidence numpy trades)
        ≡ performance_of numpy (results_of range_of_confidence k trades))
    × (lookup k (analyze_ml_effectiveness numpy trades)
        ≡ performance_of numpy (results_of ml_range k trades))
    × (lookup k (analyze_by_time numpy trades) ≡ performance_of numpy (results_of period k trades))
analyses_lem_example = analyses_lem numpy "EUR_USD" trades

generate_suggestions-AreFounded_example :
    AreFounded numpy
      (grounds_of numpy 5 (dec 1 1) trades (some (of_ℕ 10)) (pnls_of trades))
      (generate_suggestions numpy 5 (dec 1 1) trades (some (of_ℕ 10)))
generate_suggestions-AreFounded_example =
    generate_suggestions-AreFounded numpy 5 (dec 1 1) trades (some (of_ℕ 10))

abbrev with_total : Num → GroupPerformance
with_total a = record { total_trades = 1; win_rate = one; total_pnl = a; avg_pnl = a }

-- Six instruments, of which two have the same result.
abbrev six : Dict GroupPerformance
six =
    ("A", with_total (of_ℕ 2))
    ∷ ("B", with_total (of_ℕ 5))
    ∷ ("C", with_total (of_ℕ 2))
    ∷ ("D", with_total (nought ⊖ of_ℕ 1))
    ∷ ("E", with_total (of_ℕ 7))
    ∷ ("F", with_total (of_ℕ 3))
    ∷ []

top_run : map (λ e. e.0) (top_instruments six) ≡ "E" ∷ "B" ∷ "F" ∷ "A" ∷ "C" ∷ []
unfolding program insert_down sorted_down top_instruments
top_run = refl

print_run : print_report none ≡ no_analytics ∷ []
unfolding print_report
print_run = refl

top_instruments-AreTop_example : AreTop six (top_instruments six)
top_instruments-AreTop_example = top_instruments-AreTop six
