-- ===== src/Threshold/Status.antt =====
-- adaptive_threshold.py: what `AdaptiveThresholdManager` shows of itself.
use oanda_trader.Base.{ℕ, Float, Num}
use oanda_trader.Threshold.{ThresholdManager}

module _ ⦃F : Float⦄ where
  abbrev pub get_current_threshold : ThresholdManager → Num
  get_current_threshold m = m.current_threshold

  pub record ThresholdStatus : Type 0 where
    pub current_threshold : Num
    pub base_threshold : Num
    pub cycles_without_signal : ℕ
    pub min_threshold : Num
    pub max_threshold : Num
    pub adjustment_step : Num

  abbrev pub get_status : ThresholdManager → ThresholdStatus
  get_status m = record {
    current_threshold = m.current_threshold;
    base_threshold = m.base_threshold;
    cycles_without_signal = m.cycles_without_signal;
    min_threshold = m.min_threshold;
    max_threshold = m.max_threshold;
    adjustment_step = m.adjustment_step;
  }
