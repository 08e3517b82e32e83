-- ===== src/Examples/Strategies.antt =====
-- Runs of strategies.py on a table in which MACD crosses its signal line upwards at a low RSI.
use oanda_trader.Base.{
  ℕ, zero, suc, ◌≡◌, refl, none, some, List, [], ◌∷◌, Num, ◌⊘◌, dec, of_ℕ, nought,
}
use oanda_trader.Base.Fixed.{fixed, plus, minus, times, over, whole}
use oanda_trader.Analytics.{sum_from}
use oanda_trader.Timeframe.{buy, analyze_multi_timeframe}
use oanda_trader.Timeframe.Confirmation.{IsAnalysis}
use oanda_trader.Strategies.Frames.{frame_of, analyze_multi_timeframe-frame_of}
use oanda_trader.Strategies.{
  Column, Candle, Library, calculate_indicators, confidence_of, read_table, scalping_rsi,
  ma_crossover, advanced_scalp, get_signal, get_signal_with_confidence,
}
use oanda_trader.Strategies.Conditions.{IsScalp, advanced_scalp-IsScalp}

program : Unit {0}
unfolding sum_from calculate_indicators confidence_of read_table scalping_rsi ma_crossover
    advanced_scalp get_signal get_signal_with_confidence plus minus times over whole
program = tt

abbrev pub constant : Num → Column
constant a i = some a

-- The last value, and the value before.
abbrev pub last_two : Num → Num → Column
last_two a b zero = some a
last_two a b (suc i) = some b

abbrev pub library : Library
library = record {
  rsi = λ n df. constant (of_ℕ 25);
  macd = λ df. last_two (of_ℕ 3) (of_ℕ 1);
  macd_signal = λ df. constant (of_ℕ 2);
  macd_diff = λ df. last_two (of_ℕ 1) nought;
  bollinger_lband = λ n d df. constant (of_ℕ 1);
  bollinger_mavg = λ n d df. constant (of_ℕ 2);
  bollinger_hband = λ n d df. constant (of_ℕ 3);
  average_true_range = λ n df. constant (dec 1 3);
  close = λ df. constant (of_ℕ 2);
  volume = λ df. constant (of_ℕ 100);
  rolling_mean = λ n c. c;
  quotient = λ a b. some (a ⊘ b);
}

abbrev pub candle : Candle
candle = record {
  open_price = some (of_ℕ 2);
  high = some (of_ℕ 2);
  low = some (of_ℕ 2);
  close = some (of_ℕ 2);
  volume = some (of_ℕ 100);
}

abbrev pub repeat : ℕ → List Candle
repeat zero = []
repeat (suc n) = candle ∷ repeat n

advanced_scalp_run :
    get_signal_with_confidence library (repeat 26) "advanced_scalp"
    ≡ record { signal = some buy; confidence = dec 7 1; atr = dec 1 3 }
unfolding program
advanced_scalp_run = refl

too_few_run : get_signal library (repeat 25) "advanced_scalp" ≡ none
unfolding program
too_few_run = refl

rsi_run : get_signal library (repeat 14) "scalping_rsi" ≡ some buy
unfolding program
rsi_run = refl

advanced_scalp-IsScalp_example :
    IsScalp library (repeat 26) 14 20 (advanced_scalp library (repeat 26) 14 20 (dec 12 1))
advanced_scalp-IsScalp_example = advanced_scalp-IsScalp library (repeat 26) 14 20 (dec 12 1)

analyze_multi_timeframe-frame_of_example :
    let p = frame_of library (repeat 26) "advanced_scalp" none in
    let h = frame_of library (repeat 60) "advanced_scalp" none in
    IsAnalysis (get_signal library (repeat 26) "advanced_scalp") p h (analyze_multi_timeframe p h)
analyze_multi_timeframe-frame_of_example =
    analyze_multi_timeframe-frame_of library (repeat 26) (repeat 60) "advanced_scalp" none none
