-- ===== src/Validation/Candles.antt =====
-- validation.py: `validate_candle_data` of `DataValidator`. The frame is its columns' names and its rows;
-- a cell is `none` where pandas has NaN. Duplicate times are only logged.
use oanda_trader.Base.{
  ℕ, suc, ◌+◌, ◌≤◌, ◌≡◌, ◌≢◌, ◌↔◌, ◌∙◌, ◌⊎◌, refl, Bool, true, false, not, ◌||◌, Option, none, some,
  List, [], ◌∷◌, arith, length, All-map, not-ltb→le, filter, ltb, if◌then◌else◌, String, contains,
  All, is_some, Float, Num, ◌≼◌, ◌≺◌, nought, lt, le, Bool-cases, inl, inr,
}
use oanda_trader.Strategies.{Cell, Candle, below}
use oanda_trader.Validation.Orders.{in_text}
pub mod Rows
pub mod Soundness

module _ ⦃F : Float⦄ where
  pub data CandleVerdict : Type 0 where
    no_candles : CandleVerdict
    insufficient : CandleVerdict
    missing_columns : CandleVerdict
    nan_values : String → ℕ → CandleVerdict
    invalid_ohlc : ℕ → CandleVerdict
    bad_price : String → CandleVerdict
    valid_candles : CandleVerdict

  abbrev pub Field : Type 0
  Field = String × (Candle → Cell)

  -- `['open', 'high', 'low', 'close']`
  abbrev pub price_columns : List Field
  price_columns =
      ("open", λ c. c.open_price)
      ∷ ("high", λ c. c.high)
      ∷ ("low", λ c. c.low)
      ∷ ("close", λ c. c.close)
      ∷ []

  abbrev pub required_columns : List String
  required_columns = "time" ∷ "open" ∷ "high" ∷ "low" ∷ "close" ∷ "volume" ∷ []

  -- How many rows pass a test.
  abbrev pub count_of : (Candle → Bool) → List Candle → ℕ
  count_of test df = length (filter test df)

  -- The rows whose prices are out of order.
  abbrev pub is_invalid : Candle → Bool
  is_invalid c =
      below c.high c.low
      || (below c.high c.open_price
          || (below c.high c.close || (below c.open_price c.low || below c.close c.low)))

  -- `cell <= 0`
  abbrev pub at_most_zero : Cell → Bool
  at_most_zero none = false
  at_most_zero (some a) = le a nought

  -- The columns one after another; `rest` is the verdict if none is refused.
  unfoldable pub check_nan : List Field → List Candle → CandleVerdict → CandleVerdict
  unfolding filter
  check_nan [] df rest = rest
  check_nan ((name, cell) ∷ fields) df rest =
      let nan_count = count_of (λ c. not (is_some (cell c))) df in
      let later = check_nan fields df rest in
      if ltb 0 nan_count then nan_values name nan_count else later

  unfoldable pub check_positive : List Field → List Candle → CandleVerdict
  unfolding filter
  check_positive [] df = valid_candles
  check_positive ((name, cell) ∷ fields) df =
      let later = check_positive fields df in
      if ltb 0 (count_of (λ c. at_most_zero (cell c)) df) then bad_price name else later

  unfoldable pub check_prices : List Candle → CandleVerdict
  unfolding check_positive filter
  check_prices df =
      let invalid_rows = count_of is_invalid df in
      if ltb 0 invalid_rows then invalid_ohlc invalid_rows else check_positive price_columns df

  -- The least number of candles.
  abbrev pub least_candles : String → ℕ → ℕ
  least_candles instrument min_candles = if in_text "10Y" instrument then 1 else min_candles

  unfoldable pub validate_candle_data : List String → List Candle → String → ℕ → CandleVerdict
  unfolding check_nan check_prices filter contains
  validate_candle_data columns [] instrument min_candles = no_candles
  validate_candle_data columns (c ∷ cs) instrument min_candles =
      let df = c ∷ cs in
      if ltb (length df) (least_candles instrument min_candles)
      then insufficient
      else (if ltb 0 (length (filter (λ col. not (contains col columns)) required_columns))
          then missing_columns
          else check_nan price_columns df (check_prices df))
