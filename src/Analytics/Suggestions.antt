-- ===== src/Analytics/Suggestions.antt =====
-- analytics.py: `_generate_suggestions` and `generate_comprehensive_report` of `AnalyticsEngine`. A
-- suggestion is its kind and the values that are printed in it.
use oanda_trader.Base.{
  ℕ, ◌<◌, ◌+◌, ◌==◌, ◌≡◌, ◌≢◌, refl, Bool, true, false, not, ◌&&◌, Option, none, some, List, [],
  ◌∷◌, ◌++◌, length, filter, ltb, leb, if◌then◌else◌, String, Dict, lookup, Float, Num, Numpy, ◌⊕◌,
  ◌⊖◌, ◌⊘◌, ◌≼◌, ◌≺◌, dec, of_ℕ, nought, lt, max, min, abs, arith, All, Bool-cases, inl, inr,
  is_some,
}
use oanda_trader.Base.NumberLaws.{≼_refl, ≼_trans}
use oanda_trader.Analytics.{
  Trade, present, pnls_of, is_win, is_loss, unless_empty, ratio, mean_loss, Summary,
  calculate_summary_metrics, WinLoss, analyze_win_loss, Drawdown, analyze_drawdown,
}
use oanda_trader.Analytics.Groups.{
  GroupPerformance, analyze_by_instrument, analyze_by_signal, analyze_by_confidence,
  analyze_ml_effectiveness, analyze_by_time,
}
pub mod Extremes
pub mod Grounds
pub mod Founded

module _ ⦃F : Float⦄ where
  pub data Suggestion : Type 0 where
    collect_more : ℕ → Suggestion
    no_pnl : Suggestion
    low_win_rate : Num → Suggestion
    strong_win_rate : Num → Suggestion
    poor_risk_reward : Num → Suggestion
    excellent_risk_reward : Num → Suggestion
    drawdown_alert : Num → Suggestion
    best_instrument : String → Num → Num → Suggestion
    worst_instrument : String → Num → Num → Suggestion
    signal_bias : String → Num → Num → Suggestion
    ml_effective : Num → Num → Suggestion
    best_time : String → Num → Num → Suggestion
    balanced : Suggestion

  -- `max(entries, key=f)` of entries of which `e` is the first: the first of the greatest
  unfoldable pub max_by : {A : Type 0} → (A → Num) → A → List A → A
  max_by f e [] = e
  max_by f e (d ∷ ds) = max_by f (if lt (f e) (f d) then d else e) ds

  unfoldable pub min_by : {A : Type 0} → (A → Num) → A → List A → A
  min_by f e [] = e
  min_by f e (d ∷ ds) = min_by f (if lt (f d) (f e) then d else e) ds

  -- `xs.append(s)` under a test
  abbrev pub append_if : Bool → Suggestion → List Suggestion
  append_if b s = if b then s ∷ [] else []

  unfoldable pub win_rate_suggestions : Num → List Suggestion
  win_rate_suggestions win_rate =
      if lt win_rate (dec 45 2)
      then low_win_rate win_rate ∷ []
      else append_if (lt (dec 65 2) win_rate) (strong_win_rate win_rate)

  unfoldable pub risk_reward_suggestions : Num → List Suggestion
  risk_reward_suggestions rr_ratio =
      if lt rr_ratio (dec 15 1)
      then poor_risk_reward rr_ratio ∷ []
      else append_if (lt (dec 25 1) rr_ratio) (excellent_risk_reward rr_ratio)

  unfoldable pub drawdown_suggestions : Option Drawdown → List Suggestion
  drawdown_suggestions none = []
  drawdown_suggestions (some d) = append_if d.alert (drawdown_alert d.current_drawdown_pct)

  abbrev pub best_suggestions : String × GroupPerformance → List Suggestion
  best_suggestions (k, best) =
      append_if (lt nought best.total_pnl) (best_instrument k best.total_pnl best.win_rate)

  abbrev pub worst_suggestions : String × GroupPerformance → List Suggestion
  worst_suggestions (k, worst) =
      append_if (lt worst.total_pnl nought && leb 3 worst.total_trades)
        (worst_instrument k worst.total_pnl worst.win_rate)

  unfoldable pub instrument_suggestions : Dict GroupPerformance → List Suggestion
  unfolding max_by min_by
  instrument_suggestions [] = []
  instrument_suggestions (e ∷ es) =
      best_suggestions (max_by (λ e. e.1.total_pnl) e es)
      ++ worst_suggestions (min_by (λ e. e.1.total_pnl) e es)

  -- `perf.get(k, {}).get('win_rate', 0)`
  abbrev pub win_rate_at : String → Dict GroupPerformance → Num
  win_rate_at k perf = elim (lookup k perf) [ none ↦ nought | some p ↦ p.win_rate ]

  unfoldable pub signal_suggestions : Dict GroupPerformance → List Suggestion
  unfolding lookup
  signal_suggestions perf =
      let buy_wr = win_rate_at "BUY" perf in
      let sell_wr = win_rate_at "SELL" perf in
      append_if ((length perf == 2) && lt (dec 20 2) (abs (buy_wr ⊖ sell_wr))) (
        signal_bias (if lt sell_wr buy_wr then "BUY" else "SELL") (max buy_wr sell_wr)
          (min buy_wr sell_wr))

  unfoldable pub ml_suggestions : Dict GroupPerformance → List Suggestion
  unfolding lookup
  ml_suggestions perf =
      let high_wr = win_rate_at "high_ml_confidence" perf in
      let low_wr = win_rate_at "low_ml_confidence" perf in
      append_if
        ((is_some (lookup "high_ml_confidence" perf) && is_some (lookup "low_ml_confidence" perf))
          && lt (low_wr ⊕ dec 15 2) high_wr)
        (ml_effective high_wr low_wr)

  unfoldable pub time_suggestions : Dict GroupPerformance → List Suggestion
  unfolding max_by
  time_suggestions [] = []
  time_suggestions (e ∷ es) =
      let best = max_by (λ e. e.1.avg_pnl) e es in
      append_if (leb 3 best.1.total_trades) (best_time best.0 best.1.avg_pnl best.1.win_rate)

  abbrev pub or_balanced : List Suggestion → List Suggestion
  or_balanced [] = balanced ∷ []
  or_balanced (s ∷ ss) = s ∷ ss

  module _ (np : Numpy) where
    -- The suggestions from results of which there is one at least.
    unfoldable pub suggestions_from : Num → List Trade → Option Num → List Num → List Suggestion
    unfolding win_rate_suggestions risk_reward_suggestions drawdown_suggestions
        instrument_suggestions signal_suggestions ml_suggestions time_suggestions filter
        analyze_drawdown analyze_by_instrument analyze_by_signal analyze_ml_effectiveness
        analyze_by_time
    suggestions_from threshold ts balance pnls =
        let wins = filter is_win pnls in
        let losses = filter is_loss pnls in
        or_balanced (
          win_rate_suggestions (of_ℕ (length wins) ⊘ of_ℕ (length pnls))
          ++ (risk_reward_suggestions
                (ratio (unless_empty wins (np.mean wins)) (mean_loss np (dec 1 2) losses))
              ++ (drawdown_suggestions (analyze_drawdown threshold ts balance)
                  ++ (instrument_suggestions (analyze_by_instrument np ts)
                      ++ (signal_suggestions (analyze_by_signal np ts)
                          ++ (ml_suggestions (analyze_ml_effectiveness np ts)
                              ++ time_suggestions (analyze_by_time np ts)))))))

    abbrev pub suggestions_of : Num → List Trade → Option Num → List Num → List Suggestion
    suggestions_of threshold ts balance [] = no_pnl ∷ []
    suggestions_of threshold ts balance (p ∷ ps) = suggestions_from threshold ts balance (p ∷ ps)

    unfoldable pub generate_suggestions : ℕ → Num → List Trade → Option Num → List Suggestion
    unfolding suggestions_from present
    generate_suggestions min_trades threshold ts balance =
        if ltb (length ts) min_trades
        then collect_more min_trades ∷ []
        else suggestions_of threshold ts balance (pnls_of ts)

  pub record Report : Type 0 where
    pub summary : Option Summary
    pub win_loss_analysis : WinLoss
    pub drawdown_analysis : Option Drawdown
    pub instrument_performance : Dict GroupPerformance
    pub signal_performance : Dict GroupPerformance
    pub confidence_analysis : Dict GroupPerformance
    pub ml_effectiveness : Dict GroupPerformance
    pub time_analysis : Dict GroupPerformance
    pub suggestions : List Suggestion

  pub record AnalyticsEngine : Type 0 where
    pub min_trades_for_suggestions : ℕ
    pub drawdown_threshold : Num
    pub last_report_time : Option Num

  abbrev pub new_analytics_engine : ℕ → Num → AnalyticsEngine
  new_analytics_engine min_trades threshold = record {
    min_trades_for_suggestions = min_trades;
    drawdown_threshold = threshold;
    last_report_time = none;
  }

  module _ (np : Numpy) where
    -- The report on the rows of the query, and the engine after it; `none` where there are no rows.
    unfoldable pub generate_comprehensive_report :
        AnalyticsEngine → List Trade → Option Num → Num → AnalyticsEngine × Option Report
    unfolding calculate_summary_metrics analyze_win_loss analyze_drawdown analyze_by_instrument
        analyze_by_signal analyze_by_confidence analyze_ml_effectiveness analyze_by_time
        generate_suggestions
    generate_comprehensive_report a [] balance now = (a, none)
    generate_comprehensive_report a (t ∷ ts) balance now =
        let trades = t ∷ ts in
        (
          record a { last_report_time = some now },
          some (record {
            summary = calculate_summary_metrics np trades;
            win_loss_analysis = analyze_win_loss np trades;
            drawdown_analysis = analyze_drawdown a.drawdown_threshold trades balance;
            instrument_performance = analyze_by_instrument np trades;
            signal_performance = analyze_by_signal np trades;
            confidence_analysis = analyze_by_confidence np trades;
            ml_effectiveness = analyze_ml_effectiveness np trades;
            time_analysis = analyze_by_time np trades;
            suggestions =
                generate_suggestions np a.min_trades_for_suggestions a.drawdown_threshold trades
                  balance;
          }),
        )
