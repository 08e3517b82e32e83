-- ===== src/Examples/Sizing.antt =====
-- Runs of position_sizing.py: a quarter Kelly sizer that risks 2 percent.
use oanda_trader.Base.{ok, zero_division, ◌≡◌, refl, none, some, arith, dec, of_ℕ, nought, one, ◌⊖◌}
use oanda_trader.Risk.{RiskManager, new_risk_manager}
use oanda_trader.Base.Fixed.{fixed, plus, minus, times, over, whole}
use oanda_trader.Sizing.{
  PositionSizer, kelly_criterion, Metrics, clamp_kelly, calculate_kelly_criterion, allowed_margin,
  calculate_margin_based, enforce_minimum_position_size, size_by_kelly, size_by_margin,
  size_by_percentage, kelly_units, calculate_fixed_percentage, calculate_position_size,
}
use oanda_trader.Sizing.Kelly.{
  IsKelly, calculate_kelly_criterion-IsKelly, calculate_kelly_criterion_no_wins,
}
use oanda_trader.Sizing.Units.{IsSize, KellyFails, calculate_position_size-IsSize}
use oanda_trader.Sizing.Scaling.{
  AutoScale, whole_units, sized, round_units, units_by_risk, candidate, minimum_units,
  resulting_risk, accept_units, scale_units, calculate_auto_scaled_units,
}
use oanda_trader.Sizing.Fits.{Fits, calculate_auto_scaled_units-Fits}

program : Unit {0}
unfolding clamp_kelly calculate_kelly_criterion allowed_margin calculate_margin_based
    enforce_minimum_position_size size_by_kelly size_by_margin size_by_percentage kelly_units
    calculate_fixed_percentage calculate_position_size round_units units_by_risk candidate
    minimum_units resulting_risk accept_units scale_units calculate_auto_scaled_units plus minus
    times over whole
program = tt

abbrev sizer : PositionSizer
sizer = record {
  method = kelly_criterion;
  risk_per_trade = dec 2 2;
  kelly_fraction = dec 25 2;
  min_trade_value = dec 15 1;
}

kelly_run : calculate_kelly_criterion sizer (dec 5 1) (of_ℕ 11) (of_ℕ 10) ≡ ok (dec 11363 6)
unfolding program
kelly_run = refl

calculate_kelly_criterion-IsKelly_example :
    IsKelly sizer
      (dec 5 1)
      (of_ℕ 11)
      (of_ℕ 10)
      (calculate_kelly_criterion sizer (dec 5 1) (of_ℕ 11) (of_ℕ 10))
calculate_kelly_criterion-IsKelly_example =
    calculate_kelly_criterion-IsKelly sizer (dec 5 1) (of_ℕ 11) (of_ℕ 10) (omega arith)

calculate_kelly_criterion_no_wins_example :
    calculate_kelly_criterion sizer (dec 5 1) nought (of_ℕ 10) ≡ zero_division
calculate_kelly_criterion_no_wins_example =
    calculate_kelly_criterion_no_wins sizer (dec 5 1) nought (of_ℕ 10) (omega arith, omega arith)
      (omega arith) refl

abbrev metrics : Metrics
metrics = record {
  win_rate = some (dec 6 1);
  average_profit = some (of_ℕ 10);
  average_loss = some (nought ⊖ of_ℕ 8);
}

calculate_position_size-IsSize_example :
    IsSize sizer (of_ℕ 20) (dec 1 4) (KellyFails sizer kelly_criterion (some metrics)) (
      calculate_position_size sizer
        (of_ℕ 1000)
        (of_ℕ 20)
        (dec 1 4)
        (some metrics)
        one
        none
        none
        (dec 5 1))
calculate_position_size-IsSize_example =
    calculate_position_size-IsSize sizer (of_ℕ 1000) (of_ℕ 20) (dec 1 4) (some metrics) one none
      none (dec 5 1)

abbrev scaling : AutoScale
scaling = record {
  balance = of_ℕ 1000;
  stop_loss_pips = of_ℕ 20;
  pip_value = dec 1 4;
  current_price = some (dec 11 1);
  available_margin = of_ℕ 800;
  margin_rate = some (dec 333 4);
  minimum_trade_size = some (of_ℕ 1);
  trade_units_precision = whole_units;
  maximum_order_units = none;
  risk_per_trade = dec 2 2;
  max_units_per_instrument = of_ℕ 100_000;
  min_trade_value = dec 15 1;
  margin_buffer = dec 5 1;
  auto_scale_min_units = none;
}

scaling_run : calculate_auto_scaled_units scaling ≡ ok (sized (of_ℕ 10_000) (dec 2 2))
unfolding program
scaling_run = refl

calculate_auto_scaled_units-Fits_example : Fits scaling (dec 11 1) (dec 333 4) (of_ℕ 10_000)
unfolding program
calculate_auto_scaled_units-Fits_example =
    calculate_auto_scaled_units-Fits scaling (dec 11 1) (dec 333 4) (of_ℕ 10_000) (dec 2 2) refl
      refl refl (omega arith) refl

abbrev risk_manager : RiskManager
risk_manager = new_risk_manager 3 (dec 2 2) (dec 1 1) 2 (of_ℕ 200_000)
