-- ===== src/Volatility.antt =====
-- volatility_detector.py: the class `VolatilityDetector`. `numpy`'s mean and deviation are
-- parameters; the clock is read by the caller.
use oanda_trader.Base.{
  ℕ, suc, ◌+◌, Bool, true, false, ◌&&◌, Option, none, some, List, [], ◌∷◌, ◌++◌, length, ltb, leb,
  if◌then◌else◌, Float, Num, Numpy, ◌⊕◌, ◌⊖◌, ◌⊗◌, ◌⊘◌, dec, of_ℕ, nought, one, lt, le, max, min,
}
pub mod Window
pub mod Adjustment
pub mod Status

pub data VolatilityState : Type 0 where
  unknown low normal high : VolatilityState

pub data AdjustmentMode : Type 0 where
  aggressive_threshold widen_stops skip_cycles adaptive other : AdjustmentMode

module _ ⦃F : Float⦄ where
  pub record VolatilityDetector : Type 0 where
    pub low_threshold : Num
    pub normal_threshold : Num
    pub adjustment_mode : AdjustmentMode
    pub atr_window : ℕ
    pub current_volatility_state : VolatilityState
    pub current_avg_atr : Num
    pub atr_history : List Num
    pub last_detection_time : Option Num
    pub consecutive_low_volatility_cycles : ℕ

  -- What `detect_volatility` returns; the early returns leave out the count of low cycles.
  pub record Detection : Type 0 where
    pub state : VolatilityState
    pub avg_atr : Num
    pub confidence : Num
    pub readings_count : ℕ
    pub consecutive_low_cycles : Option ℕ

  unfoldable pub new_detector : Num → Num → AdjustmentMode → ℕ → VolatilityDetector
  new_detector low_t normal_t mode window = record {
    low_threshold = low_t;
    normal_threshold = normal_t;
    adjustment_mode = mode;
    atr_window = window;
    current_volatility_state = unknown;
    current_avg_atr = nought;
    atr_history = [];
    last_detection_time = none;
    consecutive_low_volatility_cycles = 0;
  }

  -- `[atr for atr in atr_readings if atr > 0]`
  unfoldable pub valid_atrs : List Num → List Num
  valid_atrs [] = []
  valid_atrs (a ∷ as_) = if lt nought a then a ∷ valid_atrs as_ else valid_atrs as_

  -- `pop(0)`
  abbrev pub drop_first : List Num → List Num
  drop_first [] = []
  drop_first (x ∷ xs) = xs

  -- The append to the history, and the drop of its oldest reading where it is too long.
  unfoldable pub push_history : ℕ → List Num → Num → List Num
  push_history window history avg =
      let longer = history ++ (avg ∷ []) in
      if ltb window (length longer) then drop_first longer else longer

  unfoldable pub classify : VolatilityDetector → Num → VolatilityState
  classify d avg =
      if lt avg d.low_threshold then low else (if le d.normal_threshold avg then high else normal)

  -- One more low cycle, or none.
  abbrev pub next_count : VolatilityState → ℕ → ℕ
  next_count low n = suc n
  next_count _ n = 0

  -- The boost of the confidence where the history agrees with the state.
  unfoldable pub boost_confidence : VolatilityDetector → VolatilityState → Num → Num → Num
  boost_confidence d low recent conf =
      if lt recent d.low_threshold then min one (conf ⊕ dec 1 1) else conf
  boost_confidence d high recent conf =
      if le d.normal_threshold recent then min one (conf ⊕ dec 1 1) else conf
  boost_confidence d _ recent conf = conf

  module _ (np : Numpy) where
    unfoldable pub calculate_confidence : VolatilityDetector → List Num → VolatilityState → Num
    unfolding boost_confidence
    calculate_confidence d atrs state =
        let mean = np.mean atrs in
        let cv = if lt nought mean then np.std atrs ⊘ mean else one in
        let conf = max nought (min one (one ⊖ cv)) in
        if ltb (length atrs) 2
        then dec 5 1
        else (if leb 3 (length d.atr_history)
            then boost_confidence d state (np.mean d.atr_history) conf
            else conf)

    -- The part of `detect_volatility` behind its early returns.
    unfoldable pub record_average :
        VolatilityDetector → Num → List Num → Num → VolatilityDetector × Detection
    unfolding classify push_history calculate_confidence
    record_average d now valid avg =
        let state = classify d avg in
        let count = next_count state d.consecutive_low_volatility_cycles in
        let counted = record d {
          atr_history = push_history d.atr_window d.atr_history avg;
          consecutive_low_volatility_cycles = count;
        } in
        (
          record counted {
            current_volatility_state = state;
            current_avg_atr = avg;
            last_detection_time = some now;
          },
          record {
            state = state;
            avg_atr = avg;
            confidence = calculate_confidence counted valid state;
            readings_count = length valid;
            consecutive_low_cycles = some count;
          },
        )

    unfoldable pub detect_volatility :
        VolatilityDetector → Num → List Num → VolatilityDetector × Detection
    unfolding valid_atrs record_average
    detect_volatility d now atr_readings = elim (valid_atrs atr_readings) [
      | [] ↦ (
        d,
        record {
          state = unknown;
          avg_atr = nought;
          confidence = nought;
          readings_count = 0;
          consecutive_low_cycles = none;
        },
      )
      | a ∷ rest ↦ record_average d now (a ∷ rest) (np.mean (a ∷ rest))
    ]

  pub record ThresholdAdjustment : Type 0 where
    pub adjusted_threshold : Num
    pub adjusted_step : Num

  pub record StopProfitAdjustment : Type 0 where
    pub stop_multiplier : Num
    pub profit_multiplier : Num

  abbrev pub is_low : VolatilityState → Bool
  is_low low = true
  is_low _ = false

  -- `mode in ['aggressive_threshold', 'adaptive']`
  abbrev pub is_aggressive : AdjustmentMode → Bool
  is_aggressive aggressive_threshold = true
  is_aggressive adaptive = true
  is_aggressive _ = false

  -- `mode in ['widen_stops', 'adaptive']`
  abbrev pub is_widening : AdjustmentMode → Bool
  is_widening widen_stops = true
  is_widening adaptive = true
  is_widening _ = false

  -- `min(3.0, 1.5 + cycles * 0.3)`
  unfoldable pub step_multiplier : ℕ → Num
  step_multiplier cycles = min (dec 30 1) (dec 15 1 ⊕ of_ℕ cycles ⊗ dec 3 1)

  unfoldable pub get_threshold_adjustment : VolatilityDetector → Num → Num → ThresholdAdjustment
  unfolding step_multiplier
  get_threshold_adjustment d current base =
      let reduction = base ⊗ step_multiplier d.consecutive_low_volatility_cycles in
      if is_low d.current_volatility_state && is_aggressive d.adjustment_mode
      then record {
        adjusted_threshold = max (dec 4 1) (current ⊖ reduction);
        adjusted_step = reduction;
      }
      else record { adjusted_threshold = current; adjusted_step = base }

  -- `1.5 + cycles * 0.1`
  unfoldable pub stop_factor : ℕ → Num
  stop_factor cycles = dec 15 1 ⊕ of_ℕ cycles ⊗ dec 1 1

  unfoldable pub get_stop_profit_adjustment : VolatilityDetector → Num → Num → StopProfitAdjustment
  unfolding stop_factor
  get_stop_profit_adjustment d stop profit =
      let factor = stop_factor d.consecutive_low_volatility_cycles in
      if is_low d.current_volatility_state && is_widening d.adjustment_mode
      then record { stop_multiplier = stop ⊗ factor; profit_multiplier = profit ⊗ factor }
      else record { stop_multiplier = stop; profit_multiplier = profit }

  -- `mode == 'skip_cycles'`
  abbrev pub is_skipping : AdjustmentMode → Bool
  is_skipping skip_cycles = true
  is_skipping _ = false

  unfoldable pub should_skip_cycle : VolatilityDetector → Bool
  should_skip_cycle d =
      is_skipping d.adjustment_mode
      && is_low d.current_volatility_state
      && leb 3 d.consecutive_low_volatility_cycles

  unfoldable pub reset : VolatilityDetector → VolatilityDetector
  reset d = record d {
    current_volatility_state = unknown;
    current_avg_atr = nought;
    atr_history = [];
    consecutive_low_volatility_cycles = 0;
  }
