-- ===== src/Examples/Database.antt =====
-- Runs of database.py: two trades, of which the first is closed.
use oanda_trader.Base.{
  ℕ, ◌≡◌, ◌≢◌, refl, none, some, List, [], ◌∷◌, length, filter, Numpy, ◌⊖◌, ◌⊘◌, dec, of_ℕ, nought,
  one,
}
use oanda_trader.Base.Fixed.{fixed, plus, minus, times, over, whole}
use oanda_trader.Analytics.{sum, sum_from, present}
use oanda_trader.Database.Trades.{
  TradeData, TradeTable, new_table, trade_row, store_trade, exited, update_rows, update_trade_exit,
  get_recent_trades, average, profit_factor_of, sharpe_of, metrics_of, get_performance_metrics,
}
use oanda_trader.Database.Trades.Rows.{
  find_row, store, exit, Event, handle, handle_all, update_trade_exit-store_trade,
}
use mathlib.Core.List.{reverse, reverse_perm}
use oanda_trader.Database.Trades.{is_recent}
use oanda_trader.Database.Trades.Order.{total, rate, get_performance_metrics_counts}

program : Unit {0}
unfolding sum_from present trade_row store_trade update_rows update_trade_exit get_recent_trades
    average profit_factor_of sharpe_of metrics_of get_performance_metrics find_row handle handle_all
    filter plus minus times over whole
program = tt

abbrev numpy : Numpy
numpy = record { mean = λ xs. sum xs ⊘ of_ℕ (length xs); std = λ xs. nought; sqrt = λ x. x }

abbrev trade_data : TradeData
trade_data = record {
  instrument = "EUR_USD";
  signal = "BUY";
  confidence = dec 8 1;
  entry_price = dec 11 1;
  stop_loss = some one;
  take_profit = none;
  units = of_ℕ 100;
  atr = none;
  ml_prediction = none;
  position_size_pct = none;
}

abbrev events : List Event
events = store trade_data (of_ℕ 10) ∷ exit 1 (dec 12 1) (of_ℕ 5) (of_ℕ 20) ∷ []

abbrev table : TradeTable
table = handle_all new_table events

metrics_run :
    (get_performance_metrics numpy (λ rs. rs) table (of_ℕ 30) (of_ℕ 25)).profit_factor ≡ of_ℕ 2
unfolding program
metrics_run = refl

update_trade_exit-store_trade_example :
    let (t, id) = store_trade table trade_data (of_ℕ 30) in
    let rows = (update_trade_exit t id one (of_ℕ 3) (of_ℕ 40)).rows in
    (find_row id rows
      ≡ some (exited one (of_ℕ 3) (of_ℕ 40) "CLOSED" (trade_row id trade_data (of_ℕ 30))))
    × ((other : ℕ) → other ≢ id → find_row other rows ≡ find_row other table.rows)
update_trade_exit-store_trade_example =
    update_trade_exit-store_trade events trade_data (of_ℕ 30) one (of_ℕ 3) (of_ℕ 40)

abbrev two_events : List Event
two_events =
    store trade_data (of_ℕ 10)
    ∷ store trade_data (of_ℕ 11)
    ∷ exit 1 (dec 12 1) (of_ℕ 5) (of_ℕ 20)
    ∷ exit 2 (dec 12 1) (nought ⊖ of_ℕ 3) (of_ℕ 21)
    ∷ []

get_performance_metrics_counts_example :
    let t = handle_all new_table two_events in
    let m = get_performance_metrics numpy (λ rs. reverse rs) t (of_ℕ 30) (of_ℕ 25) in
    (m.total_trades ≡ 2) × (m.win_rate ≡ rate 2 1)
unfolding program total
get_performance_metrics_counts_example =
    get_performance_metrics_counts numpy (λ rs. reverse rs) (handle_all new_table two_events)
      (of_ℕ 30) (of_ℕ 25)
      (reverse_perm (filter (is_recent (of_ℕ 30) (of_ℕ 25)) (handle_all new_table two_events).rows))
