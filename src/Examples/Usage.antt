-- ===== src/Examples/Usage.antt =====
-- A run of example_usage.py, on the table of the runs of strategies.py.
use oanda_trader.Base.{◌≡◌, refl, some, arith, false, dec, of_ℕ}
use oanda_trader.Base.Fixed.{fixed, plus, minus, times, over, whole}
use oanda_trader.Analytics.{sum_from}
use oanda_trader.Timeframe.{buy}
use oanda_trader.Strategies.{calculate_indicators, confidence_of, read_table, advanced_scalp}
use oanda_trader.Examples.Strategies.{library, repeat}
use oanda_trader.Backtest.{scalp_next}
use oanda_trader.Usage.{trade_generated, generated, show_reading, demonstrate_strategy}
use oanda_trader.Usage.Orders.{AreOrders, scalp_params, demonstrate_strategy-scalp_next}

program : Unit {0}
unfolding sum_from calculate_indicators confidence_of read_table advanced_scalp generated
    show_reading demonstrate_strategy plus minus times over whole
program = tt

shown_run :
    demonstrate_strategy library (repeat 50)
    ≡ trade_generated buy (some (of_ℕ 2)) (some (dec 19992 4)) (some (dec 2002 3))
unfolding program
shown_run = refl

demonstrate_strategy-scalp_next_example :
    AreOrders
      (demonstrate_strategy library (repeat 50))
      (scalp_next library scalp_params 60 (repeat 50) false (of_ℕ 2))
unfolding program
demonstrate_strategy-scalp_next_example =
    demonstrate_strategy-scalp_next library (repeat 50) 60 (of_ℕ 2) (omega arith) refl (omega arith)
