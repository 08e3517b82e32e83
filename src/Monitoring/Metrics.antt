-- ===== src/Monitoring/Metrics.antt =====
-- monitoring.py: the metrics of `PerformanceMonitor`, and the rates in them.
use oanda_trader.Base.{
  ℕ, zero, suc, ◌+◌, ◌≤◌, ◌≡◌, true, Option, List, [], ◌∷◌, arith, length, ltb, if◌then◌else◌,
  String, Float, Num, ◌⊗◌, ◌⊘◌, ◌≼◌, of_ℕ, nought, one,
}
use oanda_trader.Base.NumberLaws.{≼_refl, dec_nonneg, share_bounds, ⊗_nonneg}
use oanda_trader.Analytics.{sum, sum_from}
use oanda_trader.Monitoring.{Monitor, new_monitor}
use oanda_trader.Monitoring.Counts.{
  Event, handle_all, calls_since, trades_since, handle_all-new_monitor,
}

-- `list(d)[-n:]`
abbrev pub last_items {ℓ} : {A : Type ℓ} → ℕ → List A → List A
last_items n [] = []
last_items n (x ∷ xs) = if ltb n (length (x ∷ xs)) then last_items n xs else x ∷ xs

module _ ⦃F : Float⦄ where
  -- `part / whole * 100 if whole > 0 else 0`
  unfoldable pub percentage : ℕ → ℕ → Num
  percentage part whole = if ltb 0 whole then (of_ℕ part ⊘ of_ℕ whole) ⊗ of_ℕ 100 else nought

  -- `sum(xs) / len(xs) if xs else 0`
  unfoldable pub average_of : List Num → Num
  unfolding sum_from
  average_of [] = nought
  average_of (x ∷ xs) = sum (x ∷ xs) ⊘ of_ℕ (length (x ∷ xs))

  pub record ApiMetrics : Type 0 where
    pub total_calls : ℕ
    pub success_count : ℕ
    pub error_count : ℕ
    pub error_rate_pct : Num
    pub avg_call_duration_ms : Num
    pub recent_errors : List (Num × String)
    pub last_successful_call : Option Num

  unfoldable pub get_api_metrics : Monitor → ApiMetrics
  unfolding percentage average_of
  get_api_metrics m = record {
    total_calls = m.api_success_count + m.api_error_count;
    success_count = m.api_success_count;
    error_count = m.api_error_count;
    error_rate_pct = percentage m.api_error_count (m.api_success_count + m.api_error_count);
    avg_call_duration_ms = average_of m.api_call_times ⊗ of_ℕ 1000;
    recent_errors = last_items 5 m.api_errors;
    last_successful_call = m.last_successful_api_call;
  }

  pub record AttemptMetrics : Type 0 where
    pub total_attempts : ℕ
    pub successes : ℕ
    pub failures : ℕ
    pub success_rate_pct : Num
    pub rejected_by_risk : ℕ
    pub rejected_by_validation : ℕ
    pub last_successful_trade : Option Num

  unfoldable pub get_trade_metrics : Monitor → AttemptMetrics
  unfolding percentage
  get_trade_metrics m = record {
    total_attempts = m.trade_attempts;
    successes = m.trade_successes;
    failures = m.trade_failures;
    success_rate_pct = percentage m.trade_successes m.trade_attempts;
    rejected_by_risk = m.trades_rejected_by_risk;
    rejected_by_validation = m.trades_rejected_by_validation;
    last_successful_trade = m.last_successful_trade;
  }

  -- The counts of the signals, as numbers.
  abbrev pub as_numbers : List ℕ → List Num
  as_numbers [] = []
  as_numbers (n ∷ ns) = of_ℕ n ∷ as_numbers ns

  pub record CycleMetrics : Type 0 where
    pub total_cycles : ℕ
    pub avg_cycle_time_sec : Num
    pub avg_signals_per_cycle : Num
    pub last_cycle_time : Option Num

  unfoldable pub get_cycle_metrics : Monitor → CycleMetrics
  unfolding average_of
  get_cycle_metrics m = record {
    total_cycles = length m.cycle_times;
    avg_cycle_time_sec = average_of m.cycle_times;
    avg_signals_per_cycle = average_of (as_numbers m.signals_found);
    last_cycle_time = m.last_cycle_time;
  }

  abbrev pub IsPercentage : Num → Type 0
  IsPercentage a = (nought ≼ a) × (a ≼ of_ℕ 100)

  percentage-IsPercentage : (part whole : ℕ) → part ≤ whole → IsPercentage (percentage part whole)
  unfolding percentage
  percentage-IsPercentage part zero h = (≼_refl nought, dec_nonneg 100 0)
  percentage-IsPercentage part (suc n) h =
      let share = share_bounds part n h in
      let rate = of_ℕ part ⊘ of_ℕ (suc n) in
      let some_calls : ltb 0 (suc n) ≡ true = ground arith in
      rw some_calls (
        ⊗_nonneg rate (of_ℕ 100) share.0 (dec_nonneg 100 0),
        omega (
          arith,
          F.mul_mono rate one (of_ℕ 100) (of_ℕ 100) share.0 (dec_nonneg 100 0) share.1
              (≼_refl (of_ℕ 100)),
          F.one_mul (of_ℕ 100),
        ),
      )

  -- After any events of a new monitor: the calls and the attempts in the metrics are those since the
  -- last reset, the rate of errors and the rate of successful trades are percentages, and the cycles
  -- are at most the window.
  metrics-handle_all :
      (window : ℕ) (now : Num) (es : List Event)
      → let m = handle_all (new_monitor window now) es in
        ((get_api_metrics m).total_calls ≡ calls_since 0 es)
        × IsPercentage (get_api_metrics m).error_rate_pct
        × ((get_trade_metrics m).total_attempts ≡ trades_since 0 es)
        × IsPercentage (get_trade_metrics m).success_rate_pct
        × ((get_cycle_metrics m).total_cycles ≤ window)
  unfolding get_api_metrics get_trade_metrics get_cycle_metrics
  metrics-handle_all window now es =
      let m = handle_all (new_monitor window now) es in
      let a = handle_all-new_monitor window now es in
      (
        a.all_calls,
        percentage-IsPercentage m.api_error_count (m.api_success_count + m.api_error_count)
            (omega arith),
        a.all_trades.0,
        percentage-IsPercentage m.trade_successes m.trade_attempts
            (omega (arith, a.all_trades.0, a.all_trades.1)),
        a.cycle_window.0,
      )
