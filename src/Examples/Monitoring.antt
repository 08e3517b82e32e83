-- ===== src/Examples/Monitoring.antt =====
-- Runs of monitoring.py: a monitor with a window of two.
use oanda_trader.Base.{
  ◌≡◌, nought, refl, true, false, none, some, List, [], ◌∷◌, lookup, insert, dec, of_ℕ,
}
use oanda_trader.Base.Fixed.{fixed, plus, minus, times, over, whole}
use oanda_trader.Monitoring.{
  new_monitor, push_recent, increment, record_api_call, record_trade_attempt, record_cycle, reset,
}
use oanda_trader.Monitoring.Counts.{
  Agrees, Event, api_call, trade, cycle, clear, handle, handle_all, calls_since, trades_since,
  total, handle_all-new_monitor,
}
use oanda_trader.Analytics.{sum_from}
use oanda_trader.Monitoring.Metrics.{
  percentage, average_of, get_api_metrics, get_trade_metrics, get_cycle_metrics,
}
use oanda_trader.Monitoring.Summary.{degraded, error_rate_of, get_health_status}
use oanda_trader.Monitoring.Health.{perform_full_health_check}
use oanda_trader.Monitoring.Logging.{
  warning, new_logger, update, set_context, clear_context, all_context, context_str, format_message,
  clashes, log, log_risk_check, log_validation_error,
}
use oanda_trader.Monitoring.Logging.Contexts.{
  sets, clears, or_else, last_set, all_context-handle_all,
}
use oanda_trader.Monitoring.Logging.Contexts.{Event as ContextEvent, handle_all as run_context}
use oanda_trader.Base.Dicts.{IsUnique}
use oanda_trader.Monitoring.Logging.Contexts

program : Unit {0}
unfolding sum_from percentage average_of get_api_metrics get_trade_metrics get_cycle_metrics
    perform_full_health_check new_monitor push_recent increment record_api_call record_trade_attempt
    record_cycle reset error_rate_of get_health_status handle handle_all calls_since trades_since
    total lookup insert plus minus times over whole
program = tt

abbrev events : List Event
events =
    api_call true (dec 2 1) none (of_ℕ 1)
    ∷ clear (of_ℕ 2)
    ∷ api_call false (dec 3 1) (some (record { error_type = "IOError"; message = "lost" })) (of_ℕ 3)
    ∷ api_call true (dec 2 1) none (of_ℕ 4)
    ∷ api_call true (dec 2 1) none (of_ℕ 5)
    ∷ trade false (some (record { mentions_risk = true; mentions_validation = true })) (of_ℕ 6)
    ∷ cycle (of_ℕ 60) 3 (of_ℕ 7)
    ∷ []

monitor_run : (handle_all (new_monitor 2 (of_ℕ 0)) events).api_call_times ≡ dec 2 1 ∷ dec 2 1 ∷ []
unfolding program
monitor_run = refl

health_run :
    (get_health_status (handle_all (new_monitor 2 (of_ℕ 0)) events) (of_ℕ 8)).status ≡ degraded
unfolding program
health_run = refl

rate_run :
    (get_trade_metrics (handle_all (new_monitor 2 (of_ℕ 0)) events)).success_rate_pct ≡ of_ℕ 0
unfolding program
rate_run = refl

check_run : (perform_full_health_check none (some nought) (of_ℕ 200) (of_ℕ 100)).overall ≡ false
unfolding program
check_run = refl

handle_all-new_monitor_example : Agrees 2 3 1 (handle_all (new_monitor 2 (of_ℕ 0)) events)
unfolding program
handle_all-new_monitor_example = handle_all-new_monitor 2 (of_ℕ 0) events

abbrev context_events : List ContextEvent
context_events =
    sets (("pair", "EUR_USD") ∷ ("cycle", "1") ∷ []) ∷ clears ∷ sets (("cycle", "2") ∷ []) ∷ []

logging : Unit {0}
unfolding update set_context clear_context all_context context_str format_message clashes log
    log_risk_check log_validation_error Contexts.handle Contexts.handle_all last_set lookup insert
logging = tt

risk_check_run :
    log_risk_check (run_context (new_logger "bot") context_events) "units" false "too many" []
    ≡ some
        (record { level = warning; text = "Risk Check: units - FAILED | cycle=2 reason=too many" })
unfolding logging
risk_check_run = refl

clash_run :
    log_validation_error (new_logger "bot") "candles" "no rows" (("error", "twice") ∷ []) ≡ none
unfolding logging
clash_run = refl

all_context-handle_all_example :
    let shown = all_context (run_context (new_logger "bot") context_events) (("pair", "x") ∷ []) in
    IsUnique shown
    × (lookup "cycle" shown
        ≡ or_else (lookup "cycle" (("pair", "x") ∷ [])) (last_set "cycle" none context_events))
unfolding logging
all_context-handle_all_example =
    all_context-handle_all "bot" "cycle" context_events (("pair", "x") ∷ [])
      ((refl, (refl, tt)), (tt, ((refl, tt), tt))) (refl, tt)
