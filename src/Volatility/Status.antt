-- ===== src/Volatility/Status.antt =====
-- volatility_detector.py: what `VolatilityDetector` shows of itself. The date is not turned into text.
use oanda_trader.Base.{ℕ, Option, length, Float, Num}
use oanda_trader.Volatility.{VolatilityState, AdjustmentMode, VolatilityDetector}

module _ ⦃F : Float⦄ where
  pub record VolatilityStatus : Type 0 where
    pub state : VolatilityState
    pub avg_atr : Num
    pub low_threshold : Num
    pub normal_threshold : Num
    pub adjustment_mode : AdjustmentMode
    pub consecutive_low_cycles : ℕ
    pub atr_history_length : ℕ
    pub last_detection : Option Num

  abbrev pub get_status : VolatilityDetector → VolatilityStatus
  get_status d = record {
    state = d.current_volatility_state;
    avg_atr = d.current_avg_atr;
    low_threshold = d.low_threshold;
    normal_threshold = d.normal_threshold;
    adjustment_mode = d.adjustment_mode;
    consecutive_low_cycles = d.consecutive_low_volatility_cycles;
    atr_history_length = length d.atr_history;
    last_detection = d.last_detection_time;
  }
