-- ===== src/Analytics/Counts.antt =====
-- The counts and the rate of wins in the summary of analytics.py.
use oanda_trader.Base.{
  ◌+◌, ◌≡◌, refl, Option, none, some, List, [], ◌∷◌, arith, length, filter, length-filter-le, Float,
  Num, Numpy, ◌≼◌, nought, one,
}
use oanda_trader.Base.NumberLaws.{share_bounds}
use oanda_trader.Analytics.{
  Trade, pnls_of, is_win, is_loss, is_breakeven, Summary, summarize, summarize_results,
  calculate_summary_metrics,
}

module _ ⦃F : Float⦄ where
  counts_lem :
      (pnls : List Num)
      → length (filter is_win pnls)
          + length (filter is_loss pnls)
          + length (filter is_breakeven pnls)
        ≡ length pnls
  unfolding filter
  counts_lem [] = refl
  counts_lem (p ∷ pnls) = ground (arith, counts_lem pnls)

  -- The counts add up, of just the trades that have a result, and the rate is a share.
  abbrev pub IsSummary : List Num → Option Summary → Type 0
  IsSummary pnls none = pnls ≡ []
  IsSummary pnls (some s) =
      (s.total_trades ≡ length pnls)
      × (s.winning_trades + s.losing_trades + s.breakeven_trades ≡ s.total_trades)
      × (nought ≼ s.win_rate)
      × (s.win_rate ≼ one)

  module _ (np : Numpy) where
    summarize_results-IsSummary : (pnls : List Num) → IsSummary pnls (summarize_results np pnls)
    unfolding summarize
    summarize_results-IsSummary [] = refl
    summarize_results-IsSummary (p ∷ pnls) =
        let rate =
          share_bounds (length (filter is_win (p ∷ pnls))) (length pnls)
            (length-filter-le is_win (p ∷ pnls)) in
        (refl, counts_lem (p ∷ pnls), rate.0, rate.1)

    -- The summary counts the trades with a result, each as won, lost or even, and its rate of wins is
    -- between 0 and 1; there is none exactly if no trade has a result.
    calculate_summary_metrics-IsSummary :
        (ts : List Trade) → IsSummary (pnls_of ts) (calculate_summary_metrics np ts)
    unfolding calculate_summary_metrics
    calculate_summary_metrics-IsSummary ts = summarize_results-IsSummary (pnls_of ts)
