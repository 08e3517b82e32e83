-- ===== src/Threshold/Cycles.antt =====
-- Cycles without signals in adaptive_threshold.py.
use oanda_trader.Base.{ℕ, zero, suc, ◌+◌, ◌<◌, ◌≡◌, false, ◌∙◌, ap, arith, Float, ◌⊖◌, ◌≺◌, max}
use oanda_trader.Threshold.{
  ThresholdManager, frequency_step, lower_for_signal_frequency, update_on_cycle,
}

module _ ⦃F : Float⦄ where
  -- The manager after `k` cycles with no signal.
  unfoldable pub quiet : ThresholdManager → ℕ → ThresholdManager
  quiet m zero = m
  quiet m (suc k) = quiet (update_on_cycle m 0).0 k

  update_on_cycle_waits :
      (m : ThresholdManager)
      → m.cycles_without_signal + 1 < m.no_signal_cycles_trigger
      → update_on_cycle m 0
        ≡ (record m { cycles_without_signal = m.cycles_without_signal + 1 }, false)
  unfolding update_on_cycle
  update_on_cycle_waits m h = ground arith

  -- While the cycles without a signal stay below the trigger, only their count changes.
  quiet_waits :
      (m : ThresholdManager) (k : ℕ)
      → m.cycles_without_signal + k < m.no_signal_cycles_trigger
      → quiet m k ≡ record m { cycles_without_signal = m.cycles_without_signal + k }
  unfolding quiet
  quiet_waits m zero h = ap (λ n. record m { cycles_without_signal = n }) (omega arith)
  quiet_waits m (suc k) h =
      let next : ThresholdManager = record m {
        cycles_without_signal = m.cycles_without_signal + 1;
      } in
      ap (λ r. quiet r.0 k) (update_on_cycle_waits m (omega arith))
      ∙ quiet_waits next k (omega arith)
      ∙ ap (λ n. record m { cycles_without_signal = n }) (omega arith)

  update_on_cycle_lowers :
      (m : ThresholdManager) (n : ℕ)
      → n + 1 ≡ m.no_signal_cycles_trigger
      → max m.min_threshold (m.current_threshold ⊖ frequency_step m) ≺ m.current_threshold
      → let after = (update_on_cycle (record m { cycles_without_signal = n }) 0).0 in
        (after.current_threshold ≡ max m.min_threshold (m.current_threshold ⊖ frequency_step m))
        × (after.cycles_without_signal ≡ 0)
  unfolding update_on_cycle lower_for_signal_frequency frequency_step
  update_on_cycle_lowers m n e h = ground arith

  -- The cycle that makes the cycles without a signal reach the trigger lowers the threshold by the
  -- step for the present volatility, but not below the minimum, and the count starts again; this
  -- holds where the new value is below the old one.
  quiet_lowers :
      (m : ThresholdManager) (k : ℕ)
      → m.cycles_without_signal + suc k ≡ m.no_signal_cycles_trigger
      → max m.min_threshold (m.current_threshold ⊖ frequency_step m) ≺ m.current_threshold
      → let after = (update_on_cycle (quiet m k) 0).0 in
        (after.current_threshold ≡ max m.min_threshold (m.current_threshold ⊖ frequency_step m))
        × (after.cycles_without_signal ≡ 0)
  quiet_lowers m k e h =
      rw (quiet_waits m k (omega arith))
        (update_on_cycle_lowers m (m.cycles_without_signal + k) (omega arith) h)
