-- ===== src/Examples/Timeframe.antt =====
-- Runs of multi_timeframe.py: a buy signal at 0.7 on a frame whose trend is up.
use oanda_trader.Base.{◌≡◌, refl, none, some, dec, of_ℕ, nought}
use oanda_trader.Base.Fixed.{fixed, plus, minus, times, over, whole}
use oanda_trader.Timeframe.{
  buy, Indicators, Frame, count, support, vote, trend_signals, majority, get_trend_direction,
  adjusted_confidence, confirm_signal, analyze_multi_timeframe,
}

program : Unit {0}
unfolding count support vote trend_signals majority get_trend_direction adjusted_confidence
    confirm_signal analyze_multi_timeframe plus minus times over whole
program = tt

abbrev indicators : Indicators
indicators = record {
  macd = dec 2 4;
  macd_signal = dec 1 4;
  close = dec 11 1;
  bb_middle = dec 12 1;
  rsi = of_ℕ 61;
}

abbrev higher : Frame
higher = record {
  rows = 60;
  latest = some indicators;
  signal = none;
  confidence = nought;
  atr = nought;
}

abbrev primary : Frame
primary = record higher { signal = some buy; confidence = dec 7 1; atr = dec 12 4 }

analysis_run : analyze_multi_timeframe primary higher ≡ (some buy, dec 8 1, dec 12 4)
unfolding program
analysis_run = refl
