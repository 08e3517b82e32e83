-- ===== src/Cli.antt =====
-- cli.py: what each command writes to the terminal and how it ends. The bot, the sample of prices
-- that numpy draws, and backtrader's runs are arguments; the lines that begin with DEBUG are left
-- out, and so are the rules of `=`.
use oanda_trader.Base.{
  ℕ, Bool, true, false, ◌||◌, Option, none, some, List, [], ◌∷◌, ◌++◌, ltb, if◌then◌else◌, String,
  Dict, lookup, Float, Num, Numpy, ◌⊗◌, of_ℕ, nought, eq,
}
use oanda_trader.Base.Results.{Result as Quotient, ok as quotient, zero_division as no_quotient}
use oanda_trader.Database.Trades.{TradeMetrics}
use oanda_trader.Backtest.{RunReport, RunMetrics, WalkForward, backtest, walk_forward_analysis}
use oanda_trader.Predictor.{
  Predictor, Training, trained, too_few_samples, attribute_error, storing_error, no_method,
  new_predictor, train,
}
pub mod Commands

-- The exceptions that end a command.
pub data Failure : Type 0 where
  key_error : String → Failure
  missing_attribute : String → Failure
  division_error : Failure
  storing_exception : Failure

pub data Ended (A : Type 0) : Type 0 where
  done : A → Ended A
  failed : Failure → Ended A

-- The options of `start`, which are the settings of the bot.
pub record Settings : Type 0 where
  pub enable_ml : Bool
  pub enable_multiframe : Bool
  pub position_sizing_method : String
  pub enable_adaptive_threshold : Bool
  pub enable_volatility_detection : Bool

abbrev pub default_settings : Settings
default_settings = record {
  enable_ml = false;
  enable_multiframe = true;
  position_sizing_method = "fixed_percentage";
  enable_adaptive_threshold = true;
  enable_volatility_detection = true;
}

module _ ⦃F : Float⦄ where
  -- The lines; `figure` is a label with its number.
  pub data Line : Type 0 where
    starting_bot : Settings → Line
    running_backtest : String → String → Line
    backtest_completed : Line
    running_analysis : String → Line
    analysis_completed : Line
    analysis_failed : Line
    training_model : Line
    insufficient_data : ℕ → ℕ → Line
    training_complete : Line
    training_failed : Line
    statistics_title : ℕ → Line
    no_trading_data : Line
    figure : String → Num → Line

  -- A command adds lines to those that are there, and ends with a value or an exception.
  abbrev pub Command : Type 0 → Type 0
  Command A = List Line → Ended A × List Line

  infixl 5 ◌>>=◌ ◌>>◌
  abbrev pub ◌>>=◌ : {A B : Type 0} → Command A → (A → Command B) → Command B
  ◌>>=◌ m f lines = let (r, ls) = m lines in elim r [ done a ↦ f a ls | failed e ↦ (failed e, ls) ]

  abbrev pub ◌>>◌ : {A B : Type 0} → Command A → Command B → Command B
  m >> k = m >>= λ _. k

  abbrev pub finish : {A : Type 0} → A → Command A
  finish a lines = (done a, lines)

  abbrev pub fail : {A : Type 0} → Failure → Command A
  fail e lines = (failed e, lines)

  abbrev pub echo : Line → Command (Unit {0})
  echo l lines = (done tt, lines ++ (l ∷ []))

  -- A division by 0 in what a command calls ends it.
  abbrev pub attempt_division : {A : Type 0} → Quotient A → Command A
  attempt_division (quotient a) = finish a
  attempt_division no_quotient = fail division_error

  unfoldable pub start : (Settings → Command (Unit {0})) → Settings → Command (Unit {0})
  start run_bot settings = do echo (starting_bot settings); run_bot settings

  -- `sample n` has the `n` rows of the frame, and `run rows cash` is backtrader's report of a run.
  module _ {A : Type 0} (sample : ℕ → List A) where
    unfoldable pub backtest_command :
        (List A → Num → RunReport) → String → String → Num → Command (Unit {0})
    unfolding backtest
    backtest_command run instrument strategy cash = do
      echo (running_backtest instrument strategy)
      _ ← attempt_division (backtest (run (sample 500) cash))
      echo backtest_completed

    unfoldable pub walkforward : Numpy → (List A → RunReport) → String → ℕ → ℕ → Command (Unit {0})
    walkforward np run instrument train_period test_period = do
      echo (running_analysis instrument)
      result ←
          attempt_division (walk_forward_analysis np run (sample 1000) train_period test_period)
      elim result [ none ↦ echo analysis_failed | some f ↦ echo analysis_completed ]

  -- `get_training_data` is the method of the database of that name, which may not exist.
  module _ {X M : Type 0} (get_training_data : Option (ℕ → X)) (samples : X → ℕ) (fit : X → M) where
    -- What the method `train` of the predictor gives back.
    abbrev pub report_training : Predictor M × Training → Command (Predictor M)
    report_training (p, trained) = do echo training_complete; finish p
    report_training (p, too_few_samples) = do echo training_failed; finish p
    report_training (p, attribute_error) = fail (missing_attribute "store_model_training")
    report_training (p, storing_error) = fail storing_exception

    -- The database is a `TradeDatabase`, which has no method `store_model_training`.
    unfoldable pub train_ml : Option M → ℕ → Command (Predictor M)
    unfolding train
    train_ml file min_samples = do
      echo training_model
      elim get_training_data [
        | none ↦ fail (missing_attribute "get_training_data")
        | some get ↦
            let df = get min_samples in
            if ltb (samples df) min_samples
            then (do echo (insufficient_data (samples df) min_samples); finish (new_predictor file))
            else report_training (train samples fit (new_predictor file) df (some no_method))
      ]

  -- The dictionary that `get_performance_metrics` returns.
  abbrev pub metrics_dict : TradeMetrics → Dict Num
  metrics_dict m =
      ("total_trades", of_ℕ m.total_trades)
      ∷ ("win_rate", m.win_rate)
      ∷ ("avg_win", m.avg_win)
      ∷ ("avg_loss", m.avg_loss)
      ∷ ("sharpe", m.sharpe)
      ∷ ("profit_factor", m.profit_factor)
      ∷ []

  -- `d[key]`
  abbrev pub item : String → Dict Num → Command Num
  item key d = elim (lookup key d) [ none ↦ fail (key_error key) | some a ↦ finish a ]

  -- `metrics.get('total_trades', 0) == 0`
  abbrev pub has_no_trades : Dict Num → Bool
  has_no_trades d = elim (lookup "total_trades" d) [ none ↦ true | some n ↦ eq n nought ]

  unfoldable pub stats : Dict Num → ℕ → Command (Unit {0})
  unfolding lookup
  stats metrics days = do
    echo (statistics_title days)
    if has_no_trades metrics then echo no_trading_data else (do
      echo (figure "Total Trades" (← item "total_trades" metrics))
      echo (figure "Winning Trades" (← item "winning_trades" metrics))
      echo (figure "Losing Trades" (← item "losing_trades" metrics))
      echo (figure "Win Rate" ((← item "win_rate" metrics) ⊗ of_ℕ 100))
      echo (figure "Total Profit" (← item "total_profit" metrics))
      echo (figure "Average Win" (← item "average_profit" metrics))
      echo (figure "Average Loss" (← item "average_loss" metrics))
      echo (figure "Largest Win" (← item "largest_win" metrics))
      echo (figure "Largest Loss" (← item "largest_loss" metrics)))
