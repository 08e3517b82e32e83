-- ===== src/Cli/Commands.antt =====
-- The endings of the commands of cli.py.
use oanda_trader.Base.{
  ℕ, suc, ◌+◌, ◌≤◌, ◌<◌, ◌≡◌, ◌⊎◌, leb, le→leb, not-leb, inl, inr, refl, Bool, true, false, Option,
  none, some, List, [], ◌∷◌, arith, length, filter, String, lookup, Float, Num, Numpy, of_ℕ, nought,
  eq,
}
use oanda_trader.Base.Results.{Result as Quotient, ok as quotient, zero_division as no_quotient}
use oanda_trader.Analytics.{present}
use oanda_trader.Database.Trades.{
  TradeRow, TradeTable, is_recent, metrics_of, get_performance_metrics,
}
use oanda_trader.Backtest.{RunReport, WalkForward, walk_forward_analysis, sufficient_test_period}
use oanda_trader.Backtest.Walks.{IsAnalysis, walk_forward_analysis-IsAnalysis}
use oanda_trader.Predictor.{train}
use oanda_trader.Cli.{
  key_error, Ended, done, failed, Line, running_analysis, analysis_completed, analysis_failed,
  statistics_title, no_trading_data, figure, walkforward, metrics_dict, stats,
}

module _ ⦃F : Float⦄ where
  -- The statistics of the results of the closed trades of the period: with none, the line that there
  -- are none, and otherwise the number of trades and then an exception.
  abbrev pub AreStatistics : List Num → ℕ → Ended (Unit {0}) × List Line → Type 0
  AreStatistics [] days r = r ≡ (done tt, statistics_title days ∷ no_trading_data ∷ [])
  AreStatistics (p ∷ ps) days r = r ≡ (
    failed (key_error "winning_trades"),
    statistics_title days ∷ figure "Total Trades" (of_ℕ (length (p ∷ ps))) ∷ [],
  )

  not_zero : (n : ℕ) → eq (of_ℕ (suc n)) nought ≡ false
  not_zero n = ground (arith, F.of_ℕ_pos n)

  is_zero : eq nought nought ≡ true
  is_zero = ground arith

  stats-metrics_of :
      (series : Numpy) (ps : List Num) (days : ℕ)
      → AreStatistics ps days (stats (metrics_dict (metrics_of series ps)) days [])
  unfolding stats metrics_of lookup
  stats-metrics_of series [] days = rw is_zero refl
  stats-metrics_of series (p ∷ ps) days = rw (not_zero (length ps)) refl

  -- Whatever the table holds: with no result of a closed trade in the period, `stats` says that there
  -- are no data, and with any it ends in a `KeyError` for 'winning_trades', after the number of the
  -- trades and no other figure.
  pub stats-get_performance_metrics :
      (series : Numpy) (latest_first : List TradeRow → List TradeRow) (t : TradeTable)
      (now period : Num) (days : ℕ)
      → AreStatistics
          (present (λ (r : TradeRow). r.pnl) (latest_first (filter (is_recent now period) t.rows)))
          days
          (stats (metrics_dict (get_performance_metrics series latest_first t now period)) days [])
  unfolding get_performance_metrics
  stats-get_performance_metrics series latest_first t now period days =
      stats-metrics_of series _ days

  -- How `walkforward` ends: never by an exception, and with success for enough rows only.
  abbrev pub IsWalked : Bool → String → Ended (Unit {0}) × List Line → Type 0
  IsWalked true instrument r = r ≡ (done tt, running_analysis instrument ∷ analysis_completed ∷ [])
  IsWalked false instrument r = r ≡ (done tt, running_analysis instrument ∷ analysis_failed ∷ [])

  module _ {A : Type 0} (sample : ℕ → List A) (np : Numpy) (run : List A → RunReport)
      (instrument : String) where
    -- Success needs the two periods to fit into the sample, and failure that they do not.
    walked :
        (train test : ℕ) (r : Quotient (Option WalkForward))
        → IsAnalysis run (sample 1000) train test r
        → (analysed : Option WalkForward) × (r ≡ quotient analysed)
          × ((analysed ≡ none) × (length (sample 1000) < train + test)
              ⊎ ((f : WalkForward) × (analysed ≡ some f) × (train + test ≤ length (sample 1000))))
    walked train test no_quotient h = absurd h
    walked train test (quotient none) h = (none, refl, inl (refl, h))
    walked train test (quotient (some f)) h = (some f, refl, inr (f, refl, h.0))

    walkforward-eq :
        (train test : ℕ) (analysed : Option WalkForward) (fits : Bool)
        → walk_forward_analysis np run (sample 1000) train test ≡ quotient analysed
        → ((analysed ≡ none) × (fits ≡ false))
          ⊎ ((f : WalkForward) × (analysed ≡ some f) × (fits ≡ true))
        → IsWalked fits instrument (walkforward sample np run instrument train test [])
    unfolding walkforward
    walkforward-eq train test analysed fits e (inl (f, g)) = rw (e, f, g) refl
    walkforward-eq train test analysed fits e (inr (w, f, g)) = rw (e, f, g) refl

    -- If the sample has the 1000 rows asked for, and backtrader starts each run at a value that is
    -- not 0, then `walkforward` ends without an exception: it reports success if the training period
    -- and the test period, at least 50, have 1000 rows at most together, and failure otherwise.
    pub walkforward_lem :
        (train test : ℕ)
        → length (sample 1000) ≡ 1000
        → ((xs : List A) → eq (run xs).starting_value nought ≡ false)
        → IsWalked
            (leb (train + sufficient_test_period test) 1000)
            instrument
            (walkforward sample np run instrument train test [])
    walkforward_lem train test rows starts =
        let (analysed, e, c) =
          walked train (sufficient_test_period test) _
            (walk_forward_analysis-IsAnalysis np run (sample 1000) train test starts) in
        walkforward-eq train test analysed _ e (elim c [
          | inl (f, h) ↦ inl (f, not-leb (omega (arith, rows)))
          | inr (w, f, h) ↦ inr (w, f, le→leb (omega (arith, rows)))
        ])
