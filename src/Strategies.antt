-- ===== src/Strategies.antt =====
-- strategies.py. A value of an indicator is `none` where pandas has NaN, with which every comparison
-- is false. pandas and the library `ta` are parameters: what they compute, they compute here too from
-- the candles, and the tables, the tests and the confidence are the code's.
use oanda_trader.Base.{
  ℕ, zero, suc, Bool, true, false, ◌&&◌, ◌||◌, Option, none, some, List, [], ◌∷◌, ◌++◌, length, ltb,
  if◌then◌else◌, String, same_text, is_some, Float, Num, ◌⊖◌, ◌⊗◌, ◌⊘◌, dec, of_ℕ, nought, one, lt,
  min,
}
use oanda_trader.Analytics.{sum, sum_from}
use oanda_trader.Timeframe.{Signal, buy, sell}
pub mod Confidence
pub mod Conditions
pub mod Choice
pub mod Frames

-- `max(26, a, b)`
abbrev pub rows_needed : ℕ → ℕ → ℕ
rows_needed a b = let m = if ltb 26 a then a else 26 in if ltb m b then b else m

module _ ⦃F : Float⦄ where
  -- A cell of a table.
  abbrev pub Cell : Type 0
  Cell = Option Num

  -- A column, read from the last row back: 0 is `iloc[-1]` and 1 is `iloc[-2]`.
  abbrev pub Column : Type 0
  Column = ℕ → Cell

  -- `a < b`
  abbrev pub below : Cell → Cell → Bool
  below (some a) (some b) = lt a b
  below _ _ = false

  -- An operation of pandas on two cells.
  abbrev pub both : (Num → Num → Num) → Cell → Cell → Cell
  both f (some a) (some b) = some (f a b)
  both f _ _ = none

  pub record Candle : Type 0 where
    pub open_price : Cell
    pub high : Cell
    pub low : Cell
    pub close : Cell
    pub volume : Cell

  -- The columns that `ta` and pandas compute; of the parameters, the first are the windows.
  pub record Library : Type 0 where
    pub rsi : ℕ → List Candle → Column
    pub macd : List Candle → Column
    pub macd_signal : List Candle → Column
    pub macd_diff : List Candle → Column
    pub bollinger_lband : ℕ → ℕ → List Candle → Column
    pub bollinger_mavg : ℕ → ℕ → List Candle → Column
    pub bollinger_hband : ℕ → ℕ → List Candle → Column
    pub average_true_range : ℕ → List Candle → Column
    -- the candles' own columns
    pub close : List Candle → Column
    pub volume : List Candle → Column
    -- `rolling(n).mean()`
    pub rolling_mean : ℕ → Column → Column
    -- a quotient of floats, `none` also for infinities
    pub quotient : Num → Num → Cell

  -- `a / b` of two columns
  abbrev pub divide_cells : Library → Cell → Cell → Cell
  divide_cells lib (some a) (some b) = lib.quotient a b
  divide_cells lib _ _ = none

  -- The table with the indicators.
  pub record Table : Type 0 where
    pub close : Column
    pub rsi : Column
    pub macd : Column
    pub macd_signal : Column
    pub macd_hist : Column
    pub bb_lower : Column
    pub bb_middle : Column
    pub bb_upper : Column
    pub bb_width : Column
    pub atr : Column
    pub volume_ma : Column
    pub volume_ratio : Column

  -- What a strategy finds: a signal, its confidence, and the average true range.
  pub record Reading : Type 0 where
    pub signal : Option Signal
    pub confidence : Num
    pub atr : Num

  abbrev pub no_reading : Reading
  no_reading = record { signal = none; confidence = nought; atr = nought }

  module _ (lib : Library) where
    unfoldable pub scalping_rsi : List Candle → Option Signal
    scalping_rsi df =
        let rsi = lib.rsi 14 df in
        if ltb (length df) 14
        then none
        else (if below (rsi 0) (some (of_ℕ 30))
            then some buy
            else (if below (some (of_ℕ 70)) (rsi 0) then some sell else none))

    unfoldable pub ma_crossover : List Candle → Option Signal
    ma_crossover df =
        let short = lib.rolling_mean 5 (lib.close df) in
        let long = lib.rolling_mean 10 (lib.close df) in
        if ltb (length df) 10
        then none
        else (if below (short 1) (long 1) && below (long 0) (short 0)
            then some buy
            else (if below (long 1) (short 1) && below (short 0) (long 0) then some sell else none))

    -- The columns.
    abbrev pub indicator_table : List Candle → ℕ → ℕ → Table
    indicator_table df atr_period volume_ma_period =
        let lower = lib.bollinger_lband 20 2 df in
        let middle = lib.bollinger_mavg 20 2 df in
        let upper = lib.bollinger_hband 20 2 df in
        let volume_ma = lib.rolling_mean volume_ma_period (lib.volume df) in
        record {
          close = lib.close df;
          rsi = lib.rsi 14 df;
          macd = lib.macd df;
          macd_signal = lib.macd_signal df;
          macd_hist = lib.macd_diff df;
          bb_lower = lower;
          bb_middle = middle;
          bb_upper = upper;
          bb_width = λ i. divide_cells lib (both (λ a b. a ⊖ b) (upper i) (lower i)) (middle i);
          atr = lib.average_true_range atr_period df;
          volume_ma = volume_ma;
          volume_ratio = λ i. divide_cells lib (lib.volume df i) (volume_ma i);
        }

    unfoldable pub calculate_indicators : List Candle → ℕ → ℕ → Option Table
    calculate_indicators df atr_period volume_ma_period =
        if ltb (length df) (rows_needed atr_period volume_ma_period)
        then none
        else some (indicator_table df atr_period volume_ma_period)

  abbrev pub rsi_oversold : Table → Bool
  rsi_oversold t = below (t.rsi 0) (some (of_ℕ 30))

  abbrev pub rsi_overbought : Table → Bool
  rsi_overbought t = below (some (of_ℕ 70)) (t.rsi 0)

  abbrev pub macd_bullish_cross : Table → Bool
  macd_bullish_cross t = below (t.macd 1) (t.macd_signal 1) && below (t.macd_signal 0) (t.macd 0)

  abbrev pub macd_bearish_cross : Table → Bool
  macd_bearish_cross t = below (t.macd_signal 1) (t.macd 1) && below (t.macd 0) (t.macd_signal 0)

  abbrev pub price_near_lower : Table → Bool
  price_near_lower t = below (t.close 0) (both (λ a b. a ⊗ b) (t.bb_lower 0) (some (dec 101 2)))

  abbrev pub price_near_upper : Table → Bool
  price_near_upper t = below (both (λ a b. a ⊗ b) (t.bb_upper 0) (some (dec 99 2))) (t.close 0)

  -- The confidence factors: `extreme` and `near` are the tests on RSI and price, one of which holds.
  abbrev pub confidence_factors : (extreme near squeeze volume histogram : Bool) → List Num
  confidence_factors extreme near squeeze volume histogram =
      (if extreme then dec 3 1 ∷ [] else (if near then dec 2 1 ∷ [] else []))
      ++ (dec 3 1
          ∷ ((if squeeze then dec 1 1 ∷ [] else [])
              ++ ((if volume then dec 2 1 ∷ [] else [])
                  ++ (if histogram then dec 1 1 ∷ [] else []))))

  unfoldable pub confidence_of : List Num → Num
  unfolding sum_from
  confidence_of factors = min (sum factors) one

  module _ (lib : Library) where
    abbrev pub bb_squeeze : Table → Bool
    bb_squeeze t = below (t.bb_width 0) (lib.rolling_mean 20 t.bb_width 0)

    -- The reading of a table whose last row has the indicators, `atr` among them.
    unfoldable pub read_table : Table → Num → Num → Reading
    unfolding confidence_of
    read_table t min_volume_ratio atr =
        let volume_confirmed = below (some min_volume_ratio) (t.volume_ratio 0) in
        if (rsi_oversold t || price_near_lower t) && macd_bullish_cross t
        then record {
          signal = some buy;
          confidence = confidence_of (
              confidence_factors (rsi_oversold t) (price_near_lower t) (bb_squeeze t)
                volume_confirmed (below (t.macd_hist 1) (t.macd_hist 0)));
          atr = atr;
        }
        else (if (rsi_overbought t || price_near_upper t) && macd_bearish_cross t
            then record {
              signal = some sell;
              confidence = confidence_of (
                  confidence_factors (rsi_overbought t) (price_near_upper t) (bb_squeeze t)
                    volume_confirmed (below (t.macd_hist 0) (t.macd_hist 1)));
              atr = atr;
            }
            else record { signal = none; confidence = nought; atr = atr })

    -- The reading of a table, which is void where RSI, MACD or ATR are not there.
    abbrev pub checked_table : Table → Num → Cell → Cell → Cell → Reading
    checked_table t ratio (some rsi) (some macd) (some atr) = read_table t ratio atr
    checked_table t ratio _ _ _ = no_reading

    unfoldable pub advanced_scalp : List Candle → ℕ → ℕ → Num → Reading
    unfolding calculate_indicators read_table
    advanced_scalp df atr_period volume_ma_period min_volume_ratio =
        elim (calculate_indicators lib df atr_period volume_ma_period) [
          | none ↦ no_reading
          | some t ↦ checked_table t min_volume_ratio (t.rsi 0) (t.macd 0) (t.atr 0)
        ]

    unfoldable pub get_signal : List Candle → String → Option Signal
    unfolding scalping_rsi ma_crossover advanced_scalp
    get_signal df strategy =
        if same_text strategy "scalping_rsi"
        then scalping_rsi lib df
        else (if same_text strategy "ma_crossover"
            then ma_crossover lib df
            else (if same_text strategy "advanced_scalp"
                then (advanced_scalp df 14 20 (dec 12 1)).signal
                else none))

    -- With the keyword arguments at their defaults.
    unfoldable pub get_signal_with_confidence : List Candle → String → Reading
    unfolding advanced_scalp get_signal
    get_signal_with_confidence df strategy =
        let signal = get_signal df strategy in
        if same_text strategy "advanced_scalp" then advanced_scalp df 14 20 (dec 12 1) else record {
          signal = signal;
          confidence = if is_some signal then one else nought;
          atr = nought;
        }
