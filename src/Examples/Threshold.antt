-- ===== src/Examples/Threshold.antt =====
-- Runs of adaptive_threshold.py: a manager with an empty table, at base 0.8 between 0.5 and 0.95.
use oanda_trader.Base.{◌≡◌, refl, true, none, some, List, [], ◌∷◌, arith, dec, ◌≃◌}
use oanda_trader.Base.Fixed.{fixed, plus, minus, times, over, whole}
use oanda_trader.Database.{store_threshold_adjustment, get_last_threshold}
use oanda_trader.Threshold.{
  ThresholdManager, Performance, new_manager, starting_threshold, log_adjustment, frequency_step,
  lower_for_signal_frequency, update_on_cycle, raise_for_performance, raise_for_poor_performance,
  lower_for_marginal_performance, update_on_trade_result, reset_to_base, judge,
}
use oanda_trader.Threshold.Bounds.{
  IsValid, Event, cycle, trade, handle, handle_all, handle_all-new_manager,
}
use oanda_trader.Threshold.Persistence.{restart_same}
use oanda_trader.Threshold.Cycles.{quiet}
use oanda_trader.Threshold.Direction.{IsDecision, update_on_trade_result-IsDecision}

program : Unit {0}
unfolding new_manager starting_threshold log_adjustment frequency_step lower_for_signal_frequency
    update_on_cycle raise_for_performance raise_for_poor_performance lower_for_marginal_performance
    update_on_trade_result reset_to_base judge store_threshold_adjustment get_last_threshold handle
    handle_all quiet plus minus times over whole
program = tt

abbrev initial : ThresholdManager
initial = new_manager (dec 8 1) (some []) (dec 5 1) (dec 95 2) 3 (dec 2 2) none

abbrev won_most : Performance
won_most = record {
  win_rate = some (dec 7 1);
  profit_factor = some (dec 18 1);
  total_trades = some 10;
}

abbrev events : List Event
events = cycle 0 ∷ cycle 0 ∷ cycle 0 ∷ trade true (some won_most) ∷ trade true (some won_most) ∷ []

events_run : (handle_all initial events).current_threshold ≡ dec 82 2
unfolding program
events_run = refl

handle_all-new_manager_example : IsValid (handle_all initial events)
handle_all-new_manager_example =
    handle_all-new_manager (dec 8 1) (some []) (dec 5 1) (dec 95 2) 3 (dec 2 2) none events
      (omega arith) (omega arith)

restart_same_example :
    (new_manager
      (dec 8 1)
      (handle_all initial events).db
      (dec 5 1)
      (dec 95 2)
      9
      (dec 1 1)
      none).current_threshold
    ≃ (handle_all initial events).current_threshold
restart_same_example =
    restart_same (dec 8 1) [] (dec 5 1) (dec 95 2) 3 9 (dec 2 2) (dec 1 1) none none events
      (omega arith) (omega arith)

abbrev few_trades : Performance
few_trades = record { win_rate = some (dec 2 1); profit_factor = none; total_trades = some 4 }

update_on_trade_result-IsDecision_example :
    IsDecision
      (judge (dec 7 1) (dec 18 1))
      initial
      (update_on_trade_result initial true (some won_most))
update_on_trade_result-IsDecision_example =
    update_on_trade_result-IsDecision initial true won_most (omega arith)
