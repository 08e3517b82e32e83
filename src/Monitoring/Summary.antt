-- ===== src/Monitoring/Summary.antt =====
-- monitoring.py: the health status of `PerformanceMonitor` and its summary.
use oanda_trader.Base.{
  ℕ, ◌+◌, ◌≡◌, ◌↔◌, ◌⊎◌, inl, inr, refl, arith, Bool-cases, is_some, Bool, true, false, ◌&&◌, not,
  Option, none, some, ltb, if◌then◌else◌, Dict, Float, Num, ◌⊖◌, ◌⊘◌, dec, of_ℕ, nought, lt, ◌≼◌,
  ◌≺◌,
}
use oanda_trader.Monitoring.{Monitor}
use oanda_trader.Monitoring.Metrics.{
  ApiMetrics, AttemptMetrics, CycleMetrics, get_api_metrics, get_trade_metrics, get_cycle_metrics,
}

pub data Status : Type 0 where
  healthy degraded : Status

module _ ⦃F : Float⦄ where
  pub record HealthStatus : Type 0 where
    pub status : Status
    pub uptime_seconds : Num
    pub uptime_hours : Num
    pub api_healthy : Bool
    -- the minutes in the text of the issue
    pub api_issue : Option Num
    pub error_rate_healthy : Bool
    pub error_rate : Num
    pub last_successful_api_call : Option Num
    pub last_successful_trade : Option Num
    pub error_types : Dict ℕ

  -- No call succeeded for more than ten minutes.
  abbrev pub is_overdue : Option Num → Num → Bool
  is_overdue none now = false
  is_overdue (some t) now = lt (of_ℕ 600) (now ⊖ t)

  abbrev pub issue_of : Option Num → Num → Option Num
  issue_of none now = none
  issue_of (some t) now = if lt (of_ℕ 600) (now ⊖ t) then some ((now ⊖ t) ⊘ of_ℕ 60) else none

  unfoldable pub error_rate_of : Monitor → Num
  error_rate_of m =
      let total_calls = m.api_success_count + m.api_error_count in
      if ltb 0 total_calls then of_ℕ m.api_error_count ⊘ of_ℕ total_calls else nought

  unfoldable pub get_health_status : Monitor → Num → HealthStatus
  unfolding error_rate_of
  get_health_status m now =
      let api_healthy = not (is_overdue m.last_successful_api_call now) in
      let error_rate = error_rate_of m in
      let error_rate_healthy = lt error_rate (dec 2 1) in
      record {
        status = if api_healthy && error_rate_healthy then healthy else degraded;
        uptime_seconds = now ⊖ m.start_time;
        uptime_hours = (now ⊖ m.start_time) ⊘ of_ℕ 3600;
        api_healthy = api_healthy;
        api_issue = issue_of m.last_successful_api_call now;
        error_rate_healthy = error_rate_healthy;
        error_rate = error_rate;
        last_successful_api_call = m.last_successful_api_call;
        last_successful_trade = m.last_successful_trade;
        error_types = m.error_types;
      }

  pub record PerformanceSummary : Type 0 where
    pub health : HealthStatus
    pub api_metrics : ApiMetrics
    pub trade_metrics : AttemptMetrics
    pub cycle_metrics : CycleMetrics

  unfoldable pub get_summary : Monitor → Num → PerformanceSummary
  unfolding get_health_status
  get_summary m now = record {
    health = get_health_status m now;
    api_metrics = get_api_metrics m;
    trade_metrics = get_trade_metrics m;
    cycle_metrics = get_cycle_metrics m;
  }

  -- A successful call has been made, and the last is more than ten minutes ago.
  abbrev pub IsOverdue : Option Num → Num → Type 0
  IsOverdue none now = ⊥
  IsOverdue (some t) now = of_ℕ 600 ≺ now ⊖ t

  is_overdue_iff : (o : Option Num) (now : Num) → (is_overdue o now ≡ true) ↔ IsOverdue o now
  is_overdue_iff none now = (λ e. absurd (ground (arith, e)), λ h. absurd h)
  is_overdue_iff (some t) now = (λ e. ground (arith, e), λ h. ground (arith, h))

  issue_of_lem : (o : Option Num) (now : Num) → is_some (issue_of o now) ≡ is_overdue o now
  issue_of_lem none now = refl
  issue_of_lem (some t) now = ground arith

  degraded_iff :
      (stale : Bool) (rate : Num)
      → ((if not stale && lt rate (dec 2 1) then healthy else degraded) ≡ degraded)
        ↔ ((stale ≡ true) ⊎ (dec 2 1 ≼ rate))
  degraded_iff true rate = (λ e. inl refl, λ h. refl)
  degraded_iff false rate = elim (Bool-cases (lt rate (dec 2 1))) [
    | inl e ↦ rw e (λ h. absurd (ground (arith, h)), λ h. absurd (ground (arith, h, e)))
    | inr e ↦ rw e (λ h. inr (ground (arith, e)), λ h. refl)
  ]

  -- The status is "DEGRADED" exactly if the last successful call of the API is more than ten minutes
  -- ago, or the share of errors in the calls is 0.2 or more; and there is an issue in the status
  -- exactly in the first case.
  pub get_health_status_iff :
      (m : Monitor) (now : Num)
      → let s = get_health_status m now in
        ((s.status ≡ degraded)
          ↔ (IsOverdue m.last_successful_api_call now ⊎ (dec 2 1 ≼ error_rate_of m)))
        × ((is_some s.api_issue ≡ true) ↔ IsOverdue m.last_successful_api_call now)
  unfolding get_health_status
  get_health_status_iff m now =
      let o = m.last_successful_api_call in
      let stale = is_overdue_iff o now in
      let d = degraded_iff (is_overdue o now) (error_rate_of m) in
      (
        (
          λ e. elim (d.0 e) [ inl h ↦ inl (stale.0 h) | inr h ↦ inr h ],
          λ c. d.1 (elim c [ inl h ↦ inl (stale.1 h) | inr h ↦ inr h ]),
        ),
        rw (issue_of_lem o now) stale,
      )
