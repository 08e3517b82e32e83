-- ===== src/Config.antt =====
-- config.py: the settings, by the names of the code in lower case. The environment is an argument;
-- the key and the account of the API are left out.
use oanda_trader.Base.{
  ℕ, Bool, true, false, Option, none, some, List, [], ◌∷◌, if◌then◌else◌, String, same_text, Float,
  Num, ◌⊘◌, dec, of_ℕ, one,
}

abbrev pub instruments : List String
instruments =
    "EUR_USD" ∷ "GBP_USD" ∷ "USD_JPY" ∷ "USD_CAD" ∷ "AUD_USD" ∷ "NZD_USD" ∷ "EUR_GBP" ∷ "USD_CHF"
    ∷ []

abbrev pub curated_instruments : List String
curated_instruments =
    "EUR_USD" ∷ "GBP_USD" ∷ "USD_JPY" ∷ "USD_CAD" ∷ "AUD_USD" ∷ "NZD_USD" ∷ "EUR_GBP" ∷ "USD_CHF"
    ∷ []

abbrev pub enable_curated_filter : Bool
enable_curated_filter = true

abbrev pub default_units : ℕ
default_units = 100

abbrev pub strategy : String
strategy = "advanced_scalp"

abbrev pub granularity : String
granularity = "M5"

abbrev pub check_interval : ℕ
check_interval = 60

abbrev pub stop_loss_pips : ℕ
stop_loss_pips = 5

abbrev pub take_profit_pips : ℕ
take_profit_pips = 10

abbrev pub max_pairs_to_scan : ℕ
max_pairs_to_scan = 8

abbrev pub atr_period : ℕ
atr_period = 14

abbrev pub volume_ma_period : ℕ
volume_ma_period = 20

abbrev pub enable_ml : Bool
enable_ml = true

abbrev pub ml_model_path : String
ml_model_path = "models/rf_model.pkl"

abbrev pub ml_min_training_samples : ℕ
ml_min_training_samples = 5

abbrev pub ml_auto_train_interval : ℕ
ml_auto_train_interval = 10

abbrev pub position_sizing_method : String
position_sizing_method = "fixed_percentage"

abbrev pub enable_multiframe : Bool
enable_multiframe = false

abbrev pub enable_adaptive_threshold : Bool
enable_adaptive_threshold = true

abbrev pub adaptive_no_signal_cycles : ℕ
adaptive_no_signal_cycles = 3

abbrev pub adaptive_min_trades_for_adjustment : ℕ
adaptive_min_trades_for_adjustment = 3

abbrev pub enable_volatility_detection : Bool
enable_volatility_detection = false

abbrev pub enable_dynamic_instruments : Bool
enable_dynamic_instruments = false

abbrev pub enable_affordability_filter : Bool
enable_affordability_filter = false

abbrev pub enable_auto_scale_units : Bool
enable_auto_scale_units = true

abbrev pub auto_scale_min_units : ℕ
auto_scale_min_units = 10

abbrev pub max_open_positions : ℕ
max_open_positions = 1

abbrev pub max_correlation_positions : ℕ
max_correlation_positions = 1

abbrev pub max_units_per_instrument : ℕ
max_units_per_instrument = 1000

abbrev pub min_candles_required : ℕ
min_candles_required = 30

abbrev pub validate_candle_data : Bool
validate_candle_data = true

abbrev pub validate_order_params : Bool
validate_order_params = true

abbrev pub check_market_hours : Bool
check_market_hours = true

abbrev pub skip_weekend_trading : Bool
skip_weekend_trading = true

abbrev pub detect_price_gaps : Bool
detect_price_gaps = true

abbrev pub skip_trading_on_gaps : Bool
skip_trading_on_gaps = true

abbrev pub partial_fill_strategy : String
partial_fill_strategy = "ACCEPT"

abbrev pub min_partial_fill_pct : ℕ
min_partial_fill_pct = 50

abbrev pub api_retry_on_deprecation : Bool
api_retry_on_deprecation = true

abbrev pub api_version_check : Bool
api_version_check = true

abbrev pub max_api_retries : ℕ
max_api_retries = 5

abbrev pub enable_health_checks : Bool
enable_health_checks = true

abbrev pub health_check_interval : ℕ
health_check_interval = 3600

abbrev pub enable_position_monitoring : Bool
enable_position_monitoring = true

abbrev pub position_monitor_interval : ℕ
position_monitor_interval = 30

abbrev pub enable_trailing_stops : Bool
enable_trailing_stops = true

abbrev pub enable_structured_logging : Bool
enable_structured_logging = true

abbrev pub log_level : String
log_level = "INFO"

abbrev pub enable_comprehensive_analytics : Bool
enable_comprehensive_analytics = true

abbrev pub analytics_report_interval : ℕ
analytics_report_interval = 3600

abbrev pub analytics_min_trades_for_suggestions : ℕ
analytics_min_trades_for_suggestions = 5

abbrev pub enable_persistent_pairs : Bool
enable_persistent_pairs = true

abbrev pub persistent_pairs_file : String
persistent_pairs_file = "data/persistent_pairs.json"

abbrev pub pair_requalification_interval : ℕ
pair_requalification_interval = 300

-- `os.getenv('OANDA_ENVIRONMENT', 'practice')`
abbrev pub environment : (String → Option String) → String
environment getenv = elim (getenv "OANDA_ENVIRONMENT") [ none ↦ "practice" | some e ↦ e ]

abbrev pub min_account_balance : (String → Option String) → ℕ
min_account_balance getenv = if same_text (environment getenv) "practice" then 10 else 100

module _ ⦃F : Float⦄ where
  abbrev pub rate_limit_delay : Num
  rate_limit_delay = one ⊘ of_ℕ 30

  abbrev pub margin_buffer : Num
  margin_buffer = dec 5 2

  abbrev pub max_daily_loss_percent : Num
  max_daily_loss_percent = dec 6 0

  abbrev pub confidence_threshold : Num
  confidence_threshold = dec 6 1

  abbrev pub atr_stop_multiplier : Num
  atr_stop_multiplier = dec 8 1

  abbrev pub atr_profit_multiplier : Num
  atr_profit_multiplier = dec 2 0

  abbrev pub min_volume_ratio : Num
  min_volume_ratio = dec 12 1

  abbrev pub risk_per_trade : Num
  risk_per_trade = dec 5 2

  abbrev pub kelly_fraction : Num
  kelly_fraction = dec 25 2

  abbrev pub min_trade_value : Num
  min_trade_value = dec 1 0

  abbrev pub adaptive_min_threshold : Num
  adaptive_min_threshold = dec 4 1

  abbrev pub adaptive_max_threshold : Num
  adaptive_max_threshold = dec 95 2

  abbrev pub adaptive_adjustment_step : Num
  adaptive_adjustment_step = dec 5 2

  abbrev pub auto_scale_margin_buffer : Num
  auto_scale_margin_buffer = dec 5 2

  abbrev pub max_risk_per_trade : Num
  max_risk_per_trade = dec 10 2

  abbrev pub max_total_risk : Num
  max_total_risk = dec 10 2

  abbrev pub max_slippage_pips : Num
  max_slippage_pips = dec 2 0

  abbrev pub price_gap_threshold_pct : Num
  price_gap_threshold_pct = dec 2 0

  abbrev pub trailing_stop_atr_multiplier : Num
  trailing_stop_atr_multiplier = dec 5 1

  abbrev pub trailing_stop_activation_multiplier : Num
  trailing_stop_activation_multiplier = dec 1 0

  abbrev pub analytics_drawdown_threshold : Num
  analytics_drawdown_threshold = dec 10 2

  abbrev pub high_confidence_threshold : Num
  high_confidence_threshold = dec 8 1

  abbrev pub high_confidence_sl_multiplier : Num
  high_confidence_sl_multiplier = dec 15 1
