-- ===== src/Usage.antt =====
-- example_usage.py: what `demonstrate_strategy` shows for a table of candles, with the settings of
-- config.py. The sample that numpy draws is the argument.
use oanda_trader.Base.{Option, none, some, List, if◌then◌else◌, Float, Num, ◌⊕◌, ◌⊖◌, ◌⊗◌, dec, le}
use oanda_trader.Timeframe.{Signal, buy, sell}
use oanda_trader.Strategies.{
  Cell, Candle, Library, Reading, Table, both, calculate_indicators, advanced_scalp,
}
use oanda_trader.Config.{confidence_threshold, atr_stop_multiplier, atr_profit_multiplier}
pub mod Orders

module _ ⦃F : Float⦄ where
  -- The outcomes; a generated trade has its entry, its stop loss and its take profit.
  pub data Shown : Type 0 where
    no_indicators : Shown
    no_trade_signal : Shown
    signal_rejected : Num → Shown
    trade_generated : Signal → Cell → Cell → Cell → Shown

  abbrev pub add_to : Num → Cell → Cell
  add_to a cell = both (λ x y. x ⊕ y) cell (some a)

  abbrev pub take_from : Num → Cell → Cell
  take_from a cell = both (λ x y. x ⊖ y) cell (some a)

  unfoldable pub generated : Signal → Cell → Num → Shown
  generated buy close atr =
      trade_generated buy close (take_from (atr ⊗ atr_stop_multiplier) close)
        (add_to (atr ⊗ atr_profit_multiplier) close)
  generated sell close atr =
      trade_generated sell close (add_to (atr ⊗ atr_stop_multiplier) close)
        (take_from (atr ⊗ atr_profit_multiplier) close)

  -- What is shown of a reading at a close.
  unfoldable pub show_reading : Cell → Reading → Shown
  unfolding generated
  show_reading close r = elim r.signal [
    | none ↦ no_trade_signal
    | some s ↦
        if le confidence_threshold r.confidence
        then generated s close r.atr
        else signal_rejected r.confidence
  ]

  unfoldable pub demonstrate_strategy : Library → List Candle → Shown
  unfolding show_reading
  demonstrate_strategy lib df = elim (calculate_indicators lib df 14 20) [
    | none ↦ no_indicators
    | some table ↦ show_reading (table.close 0) (advanced_scalp lib df 14 20 (dec 12 1))
  ]
