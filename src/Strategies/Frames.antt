-- ===== src/Strategies/Frames.antt =====
-- The frames of multi_timeframe.py, with the signals that strategies.py finds in them.
use oanda_trader.Base.{Option, none, some, List, length, String, Float, Num, ◌≼◌, dec, nought, one}
use mathlib.Core.Path.{subst}
use oanda_trader.Base.NumberLaws.{≼_refl, ≼_trans, dec_nonneg}
use oanda_trader.Timeframe.{Signal, Indicators, Frame, analyze_multi_timeframe}
use oanda_trader.Timeframe.Confirmation.{IsAnalysis, analyze_multi_timeframe-IsAnalysis}
use oanda_trader.Strategies.{Candle, Library, get_signal, get_signal_with_confidence}
use oanda_trader.Strategies.Confidence.{IsRated}
use oanda_trader.Strategies.Choice.{get_signal_with_confidence_lem}

module _ ⦃F : Float⦄ where
  rated_range :
      (o : Option Signal) (c atr : Num)
      → IsRated (record { signal = o; confidence = c; atr = atr })
      → (nought ≼ c) × (c ≼ one)
  rated_range none c atr e = rw e (≼_refl nought, dec_nonneg 1 0)
  rated_range (some s) c atr (h, k) = (≼_trans nought (dec 3 1) c (dec_nonneg 3 1) h, k)

  module _ (lib : Library) where
    -- `analyze_timeframe`: the frame of a table of candles, with the last row of its indicators.
    unfoldable pub frame_of : List Candle → String → Option Indicators → Frame
    unfolding get_signal_with_confidence
    frame_of df strategy latest =
        let r = get_signal_with_confidence lib df strategy in
        record {
          rows = length df;
          latest = latest;
          signal = r.signal;
          confidence = r.confidence;
          atr = r.atr;
        }

    -- On frames whose signals a strategy finds, the analysis of two timeframes has no condition: its
    -- answer is none, with confidence 0, where the strategy finds no signal in the primary frame, and
    -- otherwise it is that signal as the higher timeframe confirms it, with a confidence between 0
    -- and 1.
    pub analyze_multi_timeframe-frame_of :
        (primary higher : List Candle) (strategy : String) (last upper : Option Indicators)
        → let p = frame_of primary strategy last in
          let h = frame_of higher strategy upper in
          IsAnalysis (get_signal lib primary strategy) p h (analyze_multi_timeframe p h)
    unfolding frame_of
    analyze_multi_timeframe-frame_of primary higher strategy last upper =
        let p = frame_of primary strategy last in
        let h = frame_of higher strategy upper in
        let (same, rated) = get_signal_with_confidence_lem lib primary strategy in
        let range = rated_range p.signal p.confidence p.atr rated in
        subst (λ s. IsAnalysis s p h (analyze_multi_timeframe p h)) same
          (analyze_multi_timeframe-IsAnalysis p h range.0 range.1)
