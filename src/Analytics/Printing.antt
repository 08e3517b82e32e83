-- ===== src/Analytics/Printing.antt =====
-- analytics.py: `print_report` of `AnalyticsEngine`. A line is what it shows, without its layout; a
-- report is `none` where there were no rows, and then it has a summary without figures only.
use oanda_trader.Base.{
  ℕ, suc, Bool, true, Option, none, some, List, [], ◌∷◌, ◌++◌, map, take, if◌then◌else◌, String,
  Dict, Float, Num, lt,
}
use oanda_trader.Analytics.{Summary, Drawdown}
use oanda_trader.Analytics.Groups.{GroupPerformance}
use oanda_trader.Analytics.Suggestions.{Suggestion, Report}
pub mod Top

module _ ⦃F : Float⦄ where
  pub data ReportLine : Type 0 where
    no_analytics : ReportLine
    report_title : ReportLine
    summary_line : Option Summary → ReportLine
    drawdown_line : Option Drawdown → ReportLine
    drawdown_warning : ReportLine
    instrument_line : ℕ → String → GroupPerformance → ReportLine
    suggestion_line : Suggestion → ReportLine

  -- `sorted(entries, key=…, reverse=True)`: from the greatest key down, equal ones in their order
  unfoldable pub insert_down : {A : Type 0} → (A → Num) → A → List A → List A
  insert_down key x [] = x ∷ []
  insert_down key x (y ∷ ys) =
      let rest = insert_down key x ys in if lt (key x) (key y) then y ∷ rest else x ∷ y ∷ ys

  unfoldable pub sorted_down : {A : Type 0} → (A → Num) → List A → List A
  unfolding insert_down
  sorted_down key [] = []
  sorted_down key (x ∷ xs) = insert_down key x (sorted_down key xs)

  abbrev pub pnl_of : String × GroupPerformance → Num
  pnl_of (name, p) = p.total_pnl

  -- The instruments that are shown.
  unfoldable pub top_instruments : Dict GroupPerformance → List (String × GroupPerformance)
  unfolding sorted_down
  top_instruments d = take 5 (sorted_down pnl_of d)

  -- `enumerate(…, 1)`
  unfoldable pub numbered : ℕ → List (String × GroupPerformance) → List ReportLine
  numbered i [] = []
  numbered i ((name, p) ∷ entries) = instrument_line i name p ∷ numbered (suc i) entries

  abbrev pub warning_of : Option Drawdown → List ReportLine
  warning_of none = []
  warning_of (some d) = if d.alert then drawdown_warning ∷ [] else []

  -- The argument is `none` for a report that is empty or `None`.
  unfoldable pub print_report : Option (Option Report) → List ReportLine
  unfolding top_instruments numbered
  print_report none = no_analytics ∷ []
  print_report (some none) = report_title ∷ summary_line none ∷ []
  print_report (some (some r)) =
      (report_title ∷ summary_line r.summary ∷ drawdown_line r.drawdown_analysis ∷ [])
      ++ (warning_of r.drawdown_analysis
          ++ (numbered 1 (top_instruments r.instrument_performance)
              ++ map suggestion_line r.suggestions))
