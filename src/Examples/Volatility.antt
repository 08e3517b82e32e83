-- ===== src/Examples/Volatility.antt =====
-- Runs of volatility_detector.py: quiet cycles whose readings are all equal, so that the deviation
-- is nought.
use oanda_trader.Base.{Numpy, ◌≡◌, refl, List, [], ◌∷◌, length, Num, ◌⊕◌, ◌⊘◌, dec, of_ℕ, nought}
use oanda_trader.Base.Fixed.{fixed, plus, minus, times, over, whole}
use oanda_trader.Volatility.{
  low, adaptive, skip_cycles, VolatilityDetector, new_detector, valid_atrs, push_history, classify,
  detect_volatility, record_average, should_skip_cycle, get_threshold_adjustment,
  get_stop_profit_adjustment, step_multiplier, stop_factor,
}
use oanda_trader.Volatility.Window.{run, averages, leading_low, state_of, Remembers, run-Remembers}

abbrev sum : List Num → Num
sum [] = nought
sum (x ∷ xs) = x ⊕ sum xs

abbrev numpy : Numpy
numpy = record { mean = λ xs. sum xs ⊘ of_ℕ (length xs); std = λ xs. nought; sqrt = λ x. x }

-- Three cycles below the threshold 0.0008, and before them one without a valid reading.
abbrev cycles : List (Num × List Num)
cycles =
    (of_ℕ 4, dec 2 4 ∷ dec 2 4 ∷ [])
    ∷ (of_ℕ 3, dec 3 4 ∷ [])
    ∷ (of_ℕ 2, dec 5 4 ∷ nought ∷ [])
    ∷ (of_ℕ 1, nought ∷ [])
    ∷ []

program : Unit {0}
unfolding run averages leading_low new_detector detect_volatility valid_atrs record_average
    push_history classify should_skip_cycle get_threshold_adjustment get_stop_profit_adjustment
    step_multiplier stop_factor state_of plus minus times over whole
program = tt

abbrev quiet_detector : VolatilityDetector
quiet_detector = record (new_detector (dec 8 4) (dec 15 4) adaptive 10) {
  current_volatility_state = low;
  consecutive_low_volatility_cycles = 2;
}

averages_run : averages numpy cycles ≡ dec 2 4 ∷ dec 3 4 ∷ dec 5 4 ∷ []
unfolding program
averages_run = refl

run-Remembers_example :
    Remembers
      (dec 8 4)
      (dec 15 4)
      skip_cycles
      2
      (averages numpy cycles)
      (run numpy (new_detector (dec 8 4) (dec 15 4) skip_cycles 2) cycles)
run-Remembers_example = run-Remembers numpy (dec 8 4) (dec 15 4) skip_cycles 2 cycles

adjusted_step_run :
    (get_threshold_adjustment quiet_detector (dec 6 1) (dec 2 2)).adjusted_step ≡ dec 42 3
unfolding program
adjusted_step_run = refl
