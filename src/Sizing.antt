-- ===== src/Sizing.antt =====
-- position_sizing.py: the class `PositionSizer`. A division by 0 is an error of its own, as Python
-- raises `ZeroDivisionError`.
use oanda_trader.Base.{
  ℕ, ◌^◌, Bool, true, false, ◌&&◌, ◌||◌, Option, none, some, ltb, if◌then◌else◌, Float, Num, ◌⊕◌,
  ◌⊖◌, ◌⊗◌, ◌⊘◌, dec, of_ℕ, nought, one, int, lt, le, eq, max, min, abs, Result, ok, zero_division,
  ◌>>=◌, divide,
}
pub mod Kelly
pub mod Units
pub mod Scaling
pub mod Fits
pub mod Permitted

pub data SizingMethod : Type 0 where
  fixed_percentage kelly_criterion : SizingMethod

module _ ⦃F : Float⦄ where
  pub record PositionSizer : Type 0 where
    pub method : SizingMethod
    pub risk_per_trade : Num
    pub kelly_fraction : Num
    pub min_trade_value : Num

  -- The dictionary `performance_metrics`, whose keys may be missing. The empty one counts as `None`.
  pub record Metrics : Type 0 where
    pub win_rate : Option Num
    pub average_profit : Option Num
    pub average_loss : Option Num

  -- `.get(key, default)`
  abbrev pub get_or : Option Num → Num → Num
  get_or none d = d
  get_or (some x) d = x

  -- The Kelly fraction, cut to the range that the code allows.
  unfoldable pub clamp_kelly : PositionSizer → Num → Num
  clamp_kelly s kelly = max nought (min (kelly ⊗ s.kelly_fraction) (s.risk_per_trade ⊗ of_ℕ 2))

  unfoldable pub calculate_kelly_criterion : PositionSizer → Num → Num → Num → Result Num
  unfolding clamp_kelly
  calculate_kelly_criterion s win_rate avg_win avg_loss =
      if eq avg_loss nought || eq win_rate nought then ok nought else (do
        ratio ← divide avg_win avg_loss
        share ← divide (one ⊖ win_rate) (abs ratio)
        ok (clamp_kelly s (win_rate ⊖ share)))

  -- The margin that may be used.
  unfoldable pub allowed_margin : Num → Num → Num → Num → Num
  allowed_margin balance available buffer usage =
      max nought (min (available ⊗ (one ⊖ buffer)) (balance ⊗ usage))

  unfoldable pub calculate_margin_based : Num → Num → Num → Num → Num → Num
  unfolding allowed_margin
  calculate_margin_based balance available price buffer usage =
      let allowed = allowed_margin balance available buffer usage in
      if le price nought
      then of_ℕ 100
      else (if le allowed nought
          then of_ℕ 100
          else max (of_ℕ 100) (int ((allowed ⊗ of_ℕ 20) ⊘ price)))

  unfoldable pub calculate_fixed_percentage : PositionSizer → Num → Num → Num → Result Num
  calculate_fixed_percentage s balance stop pip = if eq stop nought then ok (of_ℕ 1000) else (do
    units ← divide (balance ⊗ s.risk_per_trade) (stop ⊗ pip)
    ok (max (of_ℕ 100) (int units)))

  -- Only the product of two positive numbers is divided by, so that it is 0 only by underflow.
  unfoldable pub enforce_minimum_position_size : PositionSizer → Num → Num → Num → Result Num
  enforce_minimum_position_size s units pip stop =
      if le stop nought || le pip nought then ok (max (of_ℕ 100) units) else (do
        least ← divide s.min_trade_value (stop ⊗ pip)
        let min_units = max (of_ℕ 100) (int least)
        ok (if lt units min_units then min_units else units))

  -- The branch by margin: the units, and the share of the balance at risk.
  unfoldable pub size_by_margin :
      PositionSizer → Num → Num → Num → Num → Num → Num → Result (Num × Num)
  unfolding calculate_margin_based enforce_minimum_position_size
  size_by_margin s balance stop pip available price buffer = do
    let sized = calculate_margin_based balance available price buffer (dec 50 2)
    units ← enforce_minimum_position_size s sized pip stop
    let risk = if lt nought stop then (units ⊗ stop) ⊗ pip else nought
    ok (units, if lt nought balance then risk ⊘ balance else nought)

  -- `int(risk / (stop * pip))` where the stop is positive, and otherwise 1000, but at least 100.
  unfoldable pub kelly_units : Num → Num → Num → Result Num
  kelly_units risk stop pip =
      if lt nought stop
      then (do units ← divide risk (stop ⊗ pip); ok (max (of_ℕ 100) (int units)))
      else ok (max (of_ℕ 100) (of_ℕ 1000))

  unfoldable pub size_by_kelly :
      PositionSizer → Num → Num → Num → Metrics → Num → Result (Num × Num)
  unfolding calculate_kelly_criterion kelly_units enforce_minimum_position_size
  size_by_kelly s balance stop pip m confidence = do
    let win_rate = get_or m.win_rate (dec 5 1)
    let avg_win = get_or m.average_profit (dec 10 1)
    let avg_loss = abs (get_or m.average_loss (nought ⊖ dec 10 1))
    kelly ← calculate_kelly_criterion s win_rate avg_win avg_loss
    let adjusted = kelly ⊗ confidence
    sized ← kelly_units (balance ⊗ adjusted) stop pip
    units ← enforce_minimum_position_size s sized pip stop
    ok (units, adjusted)

  unfoldable pub size_by_percentage : PositionSizer → Num → Num → Num → Num → Result (Num × Num)
  unfolding calculate_fixed_percentage enforce_minimum_position_size
  size_by_percentage s balance stop pip confidence = do
    sized ← calculate_fixed_percentage s balance stop pip
    let adjusted = max (of_ℕ 100) (int (sized ⊗ confidence))
    units ← enforce_minimum_position_size s adjusted pip stop
    ok (units, s.risk_per_trade ⊗ confidence)

  -- Without metrics, or in the other method, the fixed percentage is used.
  abbrev pub size_by_method :
      PositionSizer → SizingMethod → Num → Num → Num → Option Metrics → Num → Result (Num × Num)
  size_by_method s kelly_criterion balance stop pip (some m) confidence =
      size_by_kelly s balance stop pip m confidence
  size_by_method s _ balance stop pip _ confidence =
      size_by_percentage s balance stop pip confidence

  unfoldable pub calculate_position_size :
      PositionSizer
      → Num
      → Num
      → Num
      → Option Metrics
      → Num
      → Option Num
      → Option Num
      → Num
      → Result (Num × Num)
  unfolding size_by_margin size_by_kelly size_by_percentage
  calculate_position_size s balance stop pip metrics confidence (some available) (some price)
        buffer =
      size_by_margin s balance stop pip available price buffer
  calculate_position_size s balance stop pip metrics confidence _ _ buffer =
      size_by_method s s.method balance stop pip metrics confidence

unfoldable pub get_recommended_method : ℕ → SizingMethod
get_recommended_method total_trades =
    if ltb total_trades 30 then fixed_percentage else kelly_criterion
