-- ===== src/Volatility/Adjustment.antt =====
-- The adjustments that `VolatilityDetector` of volatility_detector.py proposes.
use oanda_trader.Base.{
  Numpy, ℕ, ◌≤◌, ◌<◌, ◌≡◌, refl, inl, inr, Bool, true, false, ◌&&◌, List, ◌∷◌, [], List-cases,
  Bool-cases, arith, leb, if◌then◌else◌, Float, Num, ◌⊕◌, ◌⊖◌, ◌⊗◌, ◌⊘◌, ◌≼◌, dec, of_ℕ, nought,
  one, max, lt,
}
use oanda_trader.Base.NumberLaws.{
  ≼_refl, ≼_trans, dec_nonneg, le-⊕, ⊖-le, ⊗_nonneg, le-⊗, clamp_bounds,
}
use oanda_trader.Volatility.{
  ThresholdAdjustment, StopProfitAdjustment, VolatilityState, low, high, skip_cycles,
  VolatilityDetector, step_multiplier, stop_factor, is_low, is_aggressive, is_widening,
  get_threshold_adjustment, get_stop_profit_adjustment, should_skip_cycle, calculate_confidence,
  boost_confidence, detect_volatility, record_average, valid_atrs, new_detector, classify,
  push_history, next_count,
}
use oanda_trader.Volatility.Window.{run, averages, leading_low, state_of, run-Remembers}

module _ ⦃F : Float⦄ where
  one-le-15 : one ≼ dec 15 1
  one-le-15 = omega (arith, F.dec_shift 1 0, F.dec_mono 10 15 1 (omega arith))

  step_multiplier_bounds : (n : ℕ) → (one ≼ step_multiplier n) × (step_multiplier n ≼ dec 30 1)
  unfolding step_multiplier
  step_multiplier_bounds n =
      let bonus = ⊗_nonneg (of_ℕ n) (dec 3 1) (dec_nonneg n 0) (dec_nonneg 3 1) in
      let more = le-⊕ (dec 15 1) (of_ℕ n ⊗ dec 3 1) bonus in
      let most = F.dec_mono 15 30 1 (omega arith) in ground (arith, one-le-15, more, most)

  step_multiplier_mono : (m n : ℕ) → m ≤ n → step_multiplier m ≼ step_multiplier n
  unfolding step_multiplier
  step_multiplier_mono m n h =
      let three = ≼_refl (dec 3 1) in
      let bonus =
        F.mul_mono (of_ℕ m) (of_ℕ n) (dec 3 1) (dec 3 1) (dec_nonneg m 0) (dec_nonneg 3 1)
          (F.dec_mono m n 0 h) three in
      let sum = F.add_mono (dec 15 1) (dec 15 1) _ _ (≼_refl (dec 15 1)) bonus in
      ground (arith, sum)

  -- An adjusted threshold and step, by whether the adjustment is active.
  abbrev pub Adjusted : Bool → Num → Num → ThresholdAdjustment → Type 0
  Adjusted true current base a =
      (base ≼ a.adjusted_step)
      × (a.adjusted_step ≼ base ⊗ dec 30 1)
      × (dec 4 1 ≼ a.adjusted_threshold)
      × (a.adjusted_threshold ≼ max (dec 4 1) current)
  Adjusted false current base a = (a.adjusted_step ≡ base) × (a.adjusted_threshold ≡ current)

  -- For a step that is not negative: in low volatility, in the modes "aggressive_threshold" and
  -- "adaptive", the adjusted step lies between the step and three times it, and the adjusted
  -- threshold between 0.4 and the larger of 0.4 and the given threshold. Otherwise both stay.
  get_threshold_adjustment-Adjusted :
      (d : VolatilityDetector) (current base : Num)
      → nought ≼ base
      → Adjusted
          (is_low d.current_volatility_state && is_aggressive d.adjustment_mode)
          current
          base
          (get_threshold_adjustment d current base)
  unfolding get_threshold_adjustment
  get_threshold_adjustment-Adjusted d current base h =
      let m = step_multiplier d.consecutive_low_volatility_cycles in
      let (above, below) = step_multiplier_bounds d.consecutive_low_volatility_cycles in
      let up : base ≼ base ⊗ m = le-⊗ base m h above in
      let down : base ⊗ m ≼ base ⊗ dec 30 1 =
        F.mul_mono base base m (dec 30 1) h (omega (arith, above, dec_nonneg 1 0)) (≼_refl base)
          below in
      let lower : current ⊖ base ⊗ m ≼ current = ⊖-le current (base ⊗ m) (omega (arith, h, up)) in
      elim (Bool-cases (is_low d.current_volatility_state && is_aggressive d.adjustment_mode)) [
        | inl e ↦ rw e (up, down, ground arith, ground (arith, lower))
        | inr e ↦ rw e (refl, refl)
      ]

  -- The step does not fall with the number of low cycles, for a step that is not negative.
  get_threshold_adjustment_mono :
      (d : VolatilityDetector) (n : ℕ) (current base : Num)
      → nought ≼ base
      → d.consecutive_low_volatility_cycles ≤ n
      → (get_threshold_adjustment d current base).adjusted_step
        ≼ (get_threshold_adjustment
            (record d { consecutive_low_volatility_cycles = n })
            current
            base).adjusted_step
  unfolding get_threshold_adjustment
  get_threshold_adjustment_mono d n current base h k =
      let c = d.consecutive_low_volatility_cycles in
      let grows : base ⊗ step_multiplier c ≼ base ⊗ step_multiplier n =
        F.mul_mono base base (step_multiplier c) (step_multiplier n) h
          (omega (arith, (step_multiplier_bounds c).0, dec_nonneg 1 0)) (≼_refl base)
          (step_multiplier_mono c n k) in
      ground (arith, grows)

  -- The multipliers, by whether the adjustment is active.
  abbrev pub Widened : Bool → Num → Num → StopProfitAdjustment → Type 0
  Widened true stop profit a = (stop ≼ a.stop_multiplier) × (profit ≼ a.profit_multiplier)
  Widened false stop profit a = (a.stop_multiplier ≡ stop) × (a.profit_multiplier ≡ profit)

  -- In low volatility, in the modes "widen_stops" and "adaptive", neither multiplier shrinks, if both
  -- are not negative; otherwise both stay.
  get_stop_profit_adjustment-Widened :
      (d : VolatilityDetector) (stop profit : Num)
      → nought ≼ stop
      → nought ≼ profit
      → Widened
          (is_low d.current_volatility_state && is_widening d.adjustment_mode)
          stop
          profit
          (get_stop_profit_adjustment d stop profit)
  unfolding get_stop_profit_adjustment stop_factor
  get_stop_profit_adjustment-Widened d stop profit h k =
      let n = d.consecutive_low_volatility_cycles in
      let bonus = ⊗_nonneg (of_ℕ n) (dec 1 1) (dec_nonneg n 0) (dec_nonneg 1 1) in
      let factor : one ≼ dec 15 1 ⊕ of_ℕ n ⊗ dec 1 1 =
        ≼_trans _ _ _ one-le-15 (le-⊕ (dec 15 1) (of_ℕ n ⊗ dec 1 1) bonus) in
      elim (Bool-cases (is_low d.current_volatility_state && is_widening d.adjustment_mode)) [
        | inl e ↦ rw e (le-⊗ stop _ h factor, le-⊗ profit _ k factor)
        | inr e ↦ rw e (refl, refl)
      ]

  boost_range :
      (d : VolatilityDetector) (s : VolatilityState) (recent c : Num)
      → nought ≼ c
      → c ≼ one
      → (nought ≼ boost_confidence d s recent c) × (boost_confidence d s recent c ≼ one)
  unfolding boost_confidence
  boost_range d low recent c h k =
      let more = ≼_trans _ _ _ h (le-⊕ c (dec 1 1) (dec_nonneg 1 1)) in
      ground (arith, more, dec_nonneg 1 0)
  boost_range d high recent c h k =
      let more = ≼_trans _ _ _ h (le-⊕ c (dec 1 1) (dec_nonneg 1 1)) in
      ground (arith, more, dec_nonneg 1 0)
  boost_range d _ recent c h k = (h, k)

  half_range : (nought ≼ dec 5 1) × (dec 5 1 ≼ one)
  half_range = (dec_nonneg 5 1, omega (arith, F.dec_shift 1 0, F.dec_mono 5 10 1 (omega arith)))

  confidence_range :
      (np : Numpy) (d : VolatilityDetector) (atrs : List Num) (s : VolatilityState)
      → (nought ≼ calculate_confidence np d atrs s) × (calculate_confidence np d atrs s ≼ one)
  unfolding calculate_confidence
  confidence_range np d atrs s =
      let mean = np.mean atrs in
      let cv : Num = if lt nought mean then np.std atrs ⊘ mean else one in
      let (above, below) = clamp_bounds nought one (one ⊖ cv) (dec_nonneg 1 0) in
      let boosted = boost_range d s (np.mean d.atr_history) _ above below in
      ground (arith, half_range, above, below, boosted)

  record_average_confidence :
      (np : Numpy) (d : VolatilityDetector) (now : Num) (valid : List Num) (avg : Num)
      → let r = (record_average np d now valid avg).1 in
        (nought ≼ r.confidence) × (r.confidence ≼ one)
  unfolding record_average
  record_average_confidence np d now valid avg =
      let state = classify d avg in
      let counted : VolatilityDetector = record d {
        atr_history = push_history d.atr_window d.atr_history avg;
        consecutive_low_volatility_cycles = next_count state d.consecutive_low_volatility_cycles;
      } in
      confidence_range np counted valid state

  -- The confidence of a detection lies between 0 and 1, whatever the readings are.
  detect_volatility_confidence :
      (np : Numpy) (d : VolatilityDetector) (now : Num) (readings : List Num)
      → let r = (detect_volatility np d now readings).1 in
        (nought ≼ r.confidence) × (r.confidence ≼ one)
  unfolding detect_volatility
  detect_volatility_confidence np d now readings = elim (List-cases (valid_atrs readings)) [
    | inl e ↦ rw (e, detect_volatility) (≼_refl nought, dec_nonneg 1 0)
    | inr (a, rest, e) ↦
        rw (e, detect_volatility)
          (record_average_confidence np d now (a ∷ rest) (np.mean (a ∷ rest)))
  ]

  leading_low-state :
      (low_t normal_t : Num) (xs : List Num)
      → 0 < leading_low low_t xs
      → state_of low_t normal_t xs ≡ low
  unfolding leading_low state_of
  leading_low-state low_t normal_t [] h = absurd (omega arith)
  leading_low-state low_t normal_t (x ∷ xs) h = ground arith

  -- A new detector in the mode "skip_cycles" skips a cycle exactly if the latest averages in a row
  -- below the low threshold are at least three.
  should_skip_cycle-run :
      (np : Numpy) (low_t normal_t : Num) (window : ℕ) (cycles : List (Num × List Num))
      → should_skip_cycle (run np (new_detector low_t normal_t skip_cycles window) cycles)
        ≡ leb 3 (leading_low low_t (averages np cycles))
  unfolding should_skip_cycle
  should_skip_cycle-run np low_t normal_t window cycles =
      let r = run-Remembers np low_t normal_t skip_cycles window cycles in
      let xs = averages np cycles in
      rw (r.mode_same, r.count, r.state) (ground (arith, leading_low-state low_t normal_t xs))
