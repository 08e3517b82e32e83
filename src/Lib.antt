-- ===== src/Lib.antt =====
-- A verification library for the trading bot: its decisions on risk, size, stops, thresholds and
-- signals, and its protection against failures of the API.
--
-- The program. The bot runs in cycles. In each it takes the pairs to scan (persistent_pairs.py),
-- asks the strategies for signals with a confidence, confirms them on a higher timeframe
-- (multi_timeframe.py), and compares the confidence with a threshold that adapts to signals and
-- results (adaptive_threshold.py), which is kept in a table (database.py) and moves in steps that
-- depend on the volatility (volatility_detector.py). A trade is sized (position_sizing.py), tried
-- against the limits of the risk manager, and sent; the answer is parsed (risk_manager.py); the
-- stop of an open position follows the price (trailing_stops.py). Calls of the API go through a
-- retry loop and a circuit breaker (error_recovery.py). The file bot.py, which ties these together,
-- holds no code here, so each part is modelled with its callers' data as arguments, and runs are
-- lists of events.
--
-- The modules.
--
-- Base: shared names; lists, tests and dictionaries; the numbers of the program (Numbers, with laws
-- in NumberLaws and one instance in Fixed); division that may fail (Results).
--
-- Recovery for error_recovery.py: `execute_with_retry` of `ExponentialBackoff` as a loop over the
-- calls that are left, and `call` of `CircuitBreaker` as a step; the outcome of the protected
-- function is an argument. Backoff has the theorems on retries, Breaker those on runs of the
-- breaker, and Automaton the specification that the breaker refines.
--
-- Volatility for volatility_detector.py: `detect_volatility`, the adjustments and
-- `should_skip_cycle` of `VolatilityDetector`. Window compares the memory with the whole history,
-- Adjustment bounds what is proposed, and Status is what the detector shows.
--
-- Database for database.py: `store_threshold_adjustment` and `get_last_threshold` on the list of
-- rows; Trades has the table of trades and its figures, with runs of stores and exits in
-- Trades/Rows, bounds in Trades/Metrics, and the counts in any order of the rows in Trades/Order,
-- and Readings the table of volatility readings.
--
-- Threshold for adaptive_threshold.py: the operations of `AdaptiveThresholdManager`. Bounds has the
-- invariant, Persistence the restarts, Cycles the cycles without signals, Direction the decisions
-- by performance, and Status what the manager shows.
--
-- Risk for risk_manager.py: the operations of `RiskManager`, and in Orders `parse_order_response`
-- and `handle_partial_fill` of `OrderResponseHandler`. Limits has the permission test over runs,
-- Positions the synchronisation and the closing of trades, Groups the lists of instruments by base
-- currency.
--
-- Sizing for position_sizing.py: `calculate_position_size` and the methods it calls; Scaling has
-- `calculate_auto_scaled_units`. Kelly, Units and Fits have the theorems on the Kelly share, the
-- least and largest sizes, and the limits of an auto-scaled size, and Permitted puts such a size
-- before the risk manager.
--
-- Trailing for trailing_stops.py: `calculate_new_stop_loss` of `TrailingStopManager`; Stops has one
-- call, and Runs all the calls for a position.
--
-- Timeframe for multi_timeframe.py: `get_trend_direction`, `confirm_signal` and
-- `analyze_multi_timeframe`; Confirmation has the theorems.
--
-- Pairs for persistent_pairs.py: the operations of `PersistentPairsManager` on its pairs and its
-- file. Storage has the file over runs with writes that fail, Scanning the lists, the times of
-- checks and the counts, and Qualification `check_pair_qualification`.
--
-- Monitoring for monitoring.py: the counters of `PerformanceMonitor`. Counts compares the counters
-- with the events, Metrics has the metrics and the rates in them, Health the class `HealthChecker`,
-- Summary the health status, and Logging the class `StructuredLogger`, with runs of its context in
-- Logging/Contexts.
--
-- Validation for validation.py: `is_market_closed` of `DataValidator`, which Hours compares with an
-- interval of the week; Orders, Responses and Candles have its other checks, and Limits the class
-- `RiskValidator` beside the risk manager.
--
-- Analytics for analytics.py: the analyses of `AnalyticsEngine`, with the groups by instrument,
-- signal, confidence, prediction and time in Groups, the suggestions and the report in Suggestions,
-- and `print_report` in Printing. Counts, Streaks and Drawdowns compare figures with the list of
-- results, Groups/Laws each group with the trades of its key, Suggestions/Founded each suggestion
-- with the analysis it quotes, and Printing/Top the instruments that are shown with all of them.
--
-- Strategies for strategies.py: `calculate_indicators`, the strategies and their choice by name.
-- Conditions says when `advanced_scalp` gives a signal, by the columns it reads, Confidence how
-- sure it is, Choice compares the two ways of asking, and Frames puts the signals into the analysis
-- of two timeframes (`analyze_timeframe`).
--
-- Backtest for backtest.py: `AdvancedScalpStrategy.next`, `backtest` and `walk_forward_analysis`.
-- Walks has the windows and the rows that are tested, Orders the orders of a bar.
--
-- Predictor for ml_predictor.py: `_create_labels`, and `MLPredictor` with its file. Labels has what
-- a label says of the later prices, Files which model predicts after any trainings and after a
-- restart, and Features has `_engineer_features`.
--
-- Sessions for demo_threshold_persistence.py: the sessions of a bot on one database. Restarts has
-- its checks, and Verdicts what the manager of the threshold decides on the figures of the
-- database.
--
-- Cli for cli.py: its commands, which write lines and may end in an exception. Commands has how
-- they end.
--
-- Config for config.py: the settings, by their names in lower case.
--
-- Usage for example_usage.py: `demonstrate_strategy`. Orders compares it with the orders of
-- backtest.py.
--
-- Examples: runs at concrete numbers.
--
-- Numbers. Floats are a parameter, `Float`: operations with an order and laws that hold for the
-- rounded operations of IEEE 754 (monotone, exact at 0 and 1 and for the quotient of a number by
-- itself). NaN and the infinities are left out, so `int` is total. Tests and comparisons compute
-- from the order. The instance `fixed`, six decimal places over the integers, satisfies all the
-- laws and runs the examples. Where the code may divide by 0, the result is `zero_division`; other
-- divisions are by a number that a test has shown to be positive. Python's sum adds from the left.
-- Counters are natural numbers, and nothing runs on fuel: every loop is over a list or the number
-- of tries.
--
-- Left to arguments: the clock, numpy's mean, deviation and root, what pandas and the library of
-- indicators compute from candles, what backtrader hands to a strategy and reports of a run, the
-- protected function, the answers of the API with their numbers converted, the tables of prices
-- with the indicators and signals found in them. SQLite is the list of rows by id, with the order
-- of a query as an argument, and is taken to be written without fail; the JSON file of the pairs is
-- the dictionary last written, with the end of each write as an argument. Log texts are left out,
-- and so are the figures inside texts of reasons.
--
-- Not modelled: the set-up of backtrader in backtest.py; the split, the fit and the evaluation in
-- ml_predictor.py (scikit-learn); the handlers of the library logging; the sample prices of cli.py
-- and example_usage.py (numpy) and the texts that they print; bot.py, which holds one call of a
-- class that is in no file; and the tests.
pub mod Base
pub mod Recovery
pub mod Volatility
pub mod Database
pub mod Threshold
pub mod Risk
pub mod Sizing
pub mod Trailing
pub mod Timeframe
pub mod Pairs
pub mod Monitoring
pub mod Validation
pub mod Analytics
pub mod Strategies
pub mod Backtest
pub mod Predictor
pub mod Sessions
pub mod Cli
pub mod Config
pub mod Usage
pub mod Examples
