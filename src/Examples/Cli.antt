-- ===== src/Examples/Cli.antt =====
-- Runs of cli.py: statistics of one trade, and a database with the method that `train_ml` calls.
use oanda_trader.Base.{
  ℕ, ◌≡◌, refl, none, some, [], ◌∷◌, lookup, filter, Numpy, dec, of_ℕ, nought, one,
}
use oanda_trader.Base.Fixed.{fixed, plus, minus, times, over, whole}
use oanda_trader.Analytics.{sum_from, present}
use oanda_trader.Database.Trades.{
  TradeRow, TradeTable, is_recent, average, profit_factor_of, sharpe_of, metrics_of,
  get_performance_metrics,
}
use oanda_trader.Backtest.{RunReport, calculate_performance_metrics, backtest}
use oanda_trader.Predictor.{save_model, finish_training, train}
use oanda_trader.Cli.{
  done, failed, key_error, missing_attribute, division_error, default_settings, starting_bot,
  running_backtest, training_model, statistics_title, figure, echo, start, backtest_command,
  train_ml, metrics_dict, stats,
}
use oanda_trader.Cli.Commands.{AreStatistics, stats-get_performance_metrics}

program : Unit {0}
unfolding sum_from present average profit_factor_of sharpe_of metrics_of get_performance_metrics
    calculate_performance_metrics backtest save_model finish_training train start backtest_command
    train_ml stats lookup filter plus minus times over whole
program = tt

abbrev numpy : Numpy
numpy = record { mean = λ xs. nought; std = λ xs. nought; sqrt = λ x. x }

abbrev table : TradeTable
table = record {
  rows =
      record {
        id = 1;
        instrument = "EUR_USD";
        signal = "BUY";
        confidence = dec 8 1;
        entry_price = dec 11 1;
        stop_loss = one;
        take_profit = one;
        units = of_ℕ 100;
        atr = one;
        ml_prediction = one;
        position_size_pct = one;
        entry_time = of_ℕ 20;
        exit_price = some one;
        exit_time = some (of_ℕ 25);
        pnl = some (of_ℕ 5);
        status = "CLOSED";
      }
      ∷ [];
  next_id = 2;
}

stats_run :
    stats (metrics_dict (get_performance_metrics numpy (λ rs. rs) table (of_ℕ 30) (of_ℕ 15))) 15 []
    ≡ (
      failed (key_error "winning_trades"),
      statistics_title 15 ∷ figure "Total Trades" (of_ℕ 1) ∷ [],
    )
unfolding program
stats_run = refl

start_run :
    start (λ s. echo training_model) default_settings []
    ≡ (done tt, starting_bot default_settings ∷ training_model ∷ [])
unfolding program
start_run = refl

-- A run that starts with the cash.
abbrev broke : RunReport
broke = record {
  starting_value = nought;
  final_value = nought;
  sharperatio = none;
  max_drawdown = none;
  total = none;
  won = none;
  lost = none;
}

backtest_run :
    backtest_command (λ n. nought ∷ []) (λ rows cash. broke) "EUR_USD" "advanced_scalp" nought []
    ≡ (failed division_error, running_backtest "EUR_USD" "advanced_scalp" ∷ [])
unfolding program
backtest_run = refl

stats-get_performance_metrics_example :
    AreStatistics
      (present (λ (r : TradeRow). r.pnl) (filter (is_recent (of_ℕ 30) (of_ℕ 15)) table.rows))
      15
      (stats
        (metrics_dict (get_performance_metrics numpy (λ rs. rs) table (of_ℕ 30) (of_ℕ 15)))
        15
        [])
stats-get_performance_metrics_example =
    stats-get_performance_metrics numpy (λ rs. rs) table (of_ℕ 30) (of_ℕ 15) 15

-- The rows are their number. The database of the program has no method `get_training_data`; if it
-- had, a training on enough rows would end at `store_model_training`.
abbrev same : ℕ → ℕ
same n = n

no_data_run :
    train_ml none same same none 200 []
    ≡ (failed (missing_attribute "get_training_data"), training_model ∷ [])
unfolding program
no_data_run = refl

no_storing_run :
    train_ml (some same) same same none 200 []
    ≡ (failed (missing_attribute "store_model_training"), training_model ∷ [])
unfolding program
no_storing_run = refl
