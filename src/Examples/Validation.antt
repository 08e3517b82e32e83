-- ===== src/Examples/Validation.antt =====
-- Runs of validation.py: the hours around the weekend, an order, two candles, and a manager's limits.
use oanda_trader.Base.{
  ◌≡◌, ◌≢◌, ◌≤◌, ◌↔◌, refl, true, false, none, some, List, [], ◌∷◌, All, contains, length, filter,
  lookup, insert, Num, dec, of_ℕ, one,
}
use oanda_trader.Base.Fixed.{fixed, plus, minus, times, over, whole}
use oanda_trader.Strategies.{Candle}
use oanda_trader.Risk.{group, RiskManager, new_risk_manager, can_open_position}
use oanda_trader.Validation.Orders.{
  bad_stop_loss, out_of_range, check_pips, validate_units, validate_order_params, validate_atr,
  detect_price_gap,
}
use oanda_trader.Validation.Candles.{
  valid_candles, invalid_ohlc, required_columns, least_candles, check_nan, check_positive,
  check_prices, validate_candle_data,
}
use oanda_trader.Validation.Candles.Rows.{IsSound}
use oanda_trader.Validation.Candles.Soundness.{validate_candle_data_iff}
use oanda_trader.Validation.Limits.{
  can_open_new_position, validate_position_risk, validate_total_exposure, validate_slippage,
}
use oanda_trader.Validation.{is_market_closed}

program : Unit {0}
unfolding group is_market_closed check_pips validate_units validate_order_params validate_atr
    detect_price_gap check_nan check_positive check_prices validate_candle_data
    can_open_new_position validate_position_risk validate_total_exposure validate_slippage
    can_open_position new_risk_manager filter contains lookup insert plus minus times over whole
program = tt

friday_run : (is_market_closed true 4 17).0 ≡ true
unfolding program
friday_run = refl

sunday_run : (is_market_closed true 6 17).0 ≡ false
unfolding program
sunday_run = refl

order_run :
    validate_order_params (some "EUR_USD") (some (of_ℕ 100)) (some (of_ℕ 2000)) none (of_ℕ 1000) one
    ≡ bad_stop_loss out_of_range
unfolding program
order_run = refl

abbrev candle : Num → Num → Candle
candle low high = record {
  open_price = some low;
  high = some high;
  low = some low;
  close = some high;
  volume = none;
}

abbrev candles : List Candle
candles = candle (of_ℕ 1) (of_ℕ 2) ∷ candle (of_ℕ 2) (of_ℕ 3) ∷ []

candles_run : validate_candle_data required_columns candles "EUR_USD" 2 ≡ valid_candles
unfolding program
candles_run = refl

invalid_run :
    validate_candle_data required_columns (candle (of_ℕ 3) (of_ℕ 2) ∷ []) "USB10Y_USD" 5
    ≡ invalid_ohlc 1
unfolding program
invalid_run = refl

validate_candle_data_iff_example :
    (validate_candle_data required_columns candles "EUR_USD" 2 ≡ valid_candles) ↔ (
      (candles ≢ [])
      × (least_candles "EUR_USD" 2 ≤ length candles)
      × All (λ col. contains col required_columns ≡ true) required_columns
      × All IsSound candles)
validate_candle_data_iff_example = validate_candle_data_iff required_columns candles "EUR_USD" 2

abbrev manager : RiskManager
manager = new_risk_manager 3 (dec 2 2) (dec 1 1) 2 (of_ℕ 100_000)
