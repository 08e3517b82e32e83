-- ===== src/Analytics.antt =====
-- analytics.py: the class `AnalyticsEngine`. A trade is a row of the query, in its order; the hour of
-- its entry and its duration are what `datetime.fromisoformat` reads in the texts, `none` where a
-- text is missing or refused. numpy is a parameter.
use oanda_trader.Base.{
  ℕ, suc, ◌+◌, Bool, true, false, not, ◌&&◌, ◌||◌, Option, none, some, List, [], ◌∷◌, ◌++◌, map,
  length, filter, ltb, leb, ◌==◌, if◌then◌else◌, String, Dict, lookup, insert, Float, Num, Numpy,
  ◌⊕◌, ◌⊖◌, ◌⊗◌, ◌⊘◌, dec, of_ℕ, nought, lt, le, eq, max, min, abs,
}
pub mod Counts
pub mod Streaks
pub mod Drawdowns
pub mod Groups
pub mod Suggestions
pub mod Printing

module _ ⦃F : Float⦄ where
  pub record Trade : Type 0 where
    pub instrument : String
    pub signal : String
    pub confidence : Option Num
    pub ml_prediction : Option Num
    pub pnl : Option Num
    pub entry_hour : Option ℕ
    pub duration : Option Num

  -- The values that are not `None`.
  unfoldable pub present : {A : Type 0} → (A → Option Num) → List A → List Num
  present f [] = []
  present f (x ∷ xs) = elim (f x) [ none ↦ present f xs | some p ↦ p ∷ present f xs ]

  abbrev pub pnls_of : List Trade → List Num
  pnls_of ts = present (λ t. t.pnl) ts

  abbrev pub is_win : Num → Bool
  is_win p = lt nought p

  abbrev pub is_loss : Num → Bool
  is_loss p = lt p nought

  abbrev pub is_breakeven : Num → Bool
  is_breakeven p = eq p nought

  -- `sum(xs)`
  unfoldable pub sum_from : Num → List Num → Num
  sum_from acc [] = acc
  sum_from acc (x ∷ xs) = sum_from (acc ⊕ x) xs

  abbrev pub sum : List Num → Num
  sum xs = sum_from nought xs

  -- The length of the longest streak so far, and of the present one, before and after a result.
  unfoldable pub streak_loop : (Num → Bool) → ℕ → ℕ → List Num → ℕ
  streak_loop hit longest current [] = longest
  streak_loop hit longest current (p ∷ ps) =
      let current' = if hit p then suc current else 0 in
      streak_loop hit (if ltb longest current' then current' else longest) current' ps

  unfoldable pub calculate_max_streak : List Num → Bool → ℕ
  unfolding streak_loop
  calculate_max_streak pnls positive =
      streak_loop (λ p. if positive then is_win p else is_loss p) 0 0 pnls

  -- `a if xs else 0`
  abbrev pub unless_empty : List Num → Num → Num
  unless_empty [] a = nought
  unless_empty (x ∷ xs) a = a

  -- `period_days`, which repeats an argument, is left out.
  pub record Summary : Type 0 where
    pub total_trades : ℕ
    pub win_rate : Num
    pub winning_trades : ℕ
    pub losing_trades : ℕ
    pub breakeven_trades : ℕ
    pub avg_win : Num
    pub avg_loss : Num
    pub total_pnl : Num
    pub profit_factor : Num
    pub sharpe_ratio : Num
    pub max_win_streak : ℕ
    pub max_loss_streak : ℕ
    pub risk_reward_ratio : Num

  pub record WinLoss : Type 0 where
    pub largest_win : Num
    pub largest_loss : Num
    pub avg_win_duration : Num
    pub avg_loss_duration : Num

  -- `max(xs)` and `min(xs)`, 0 where there are none
  unfoldable pub greatest : List Num → Num
  greatest [] = nought
  greatest (x ∷ []) = x
  greatest (x ∷ y ∷ xs) = greatest (max x y ∷ xs)

  unfoldable pub least : List Num → Num
  least [] = nought
  least (x ∷ []) = x
  least (x ∷ y ∷ xs) = least (min x y ∷ xs)

  -- `a / b if b > 0 else 0`
  abbrev pub ratio : Num → Num → Num
  ratio a b = if lt nought b then a ⊘ b else nought

  module _ (np : Numpy) where
    -- `abs(np.mean(losses)) if losses else …`
    abbrev pub mean_loss : Num → List Num → Num
    mean_loss default [] = default
    mean_loss default (x ∷ xs) = abs (np.mean (x ∷ xs))

    unfoldable pub annual_sharpe : List Num → Num
    annual_sharpe pnls =
        if ltb 1 (length pnls)
        then (if lt nought (np.std pnls)
            then (np.mean pnls ⊘ np.std pnls) ⊗ np.sqrt (of_ℕ 252)
            else nought)
        else nought

    -- The summary of results of which there is one at least.
    unfoldable pub summarize : List Num → Summary
    unfolding annual_sharpe calculate_max_streak
    summarize pnls =
        let wins = filter is_win pnls in
        let losses = filter is_loss pnls in
        let avg_win = unless_empty wins (np.mean wins) in
        let avg_loss = mean_loss nought losses in
        let total_losses : Num = elim losses [ [] ↦ dec 1 2 | l ∷ ls ↦ abs (sum (l ∷ ls)) ] in
        record {
          total_trades = length pnls;
          win_rate = of_ℕ (length wins) ⊘ of_ℕ (length pnls);
          winning_trades = length wins;
          losing_trades = length losses;
          breakeven_trades = length (filter is_breakeven pnls);
          avg_win = avg_win;
          avg_loss = avg_loss;
          total_pnl = sum pnls;
          profit_factor = ratio (sum wins) total_losses;
          sharpe_ratio = annual_sharpe pnls;
          max_win_streak = calculate_max_streak pnls true;
          max_loss_streak = calculate_max_streak pnls false;
          risk_reward_ratio = ratio avg_win avg_loss;
        }

    abbrev pub summarize_results : List Num → Option Summary
    summarize_results [] = none
    summarize_results (p ∷ ps) = some (summarize (p ∷ ps))

    -- `none` where no trade has a result; the dictionary then has at most a count of 0.
    unfoldable pub calculate_summary_metrics : List Trade → Option Summary
    unfolding present summarize
    calculate_summary_metrics ts = summarize_results (pnls_of ts)

    abbrev pub result_test : (Num → Bool) → Trade → Bool
    result_test test t = elim t.pnl [ none ↦ false | some p ↦ test p ]

    abbrev pub avg_duration : List Trade → Num
    avg_duration ts = let ds = present (λ t. t.duration) ts in unless_empty ds (np.mean ds)

    unfoldable pub analyze_win_loss : List Trade → WinLoss
    unfolding present greatest least
    analyze_win_loss ts =
        let wins = filter (result_test is_win) ts in
        let losses = filter (result_test is_loss) ts in
        record {
          largest_win = greatest (pnls_of wins);
          largest_loss = least (pnls_of losses);
          avg_win_duration = avg_duration wins;
          avg_loss_duration = avg_duration losses;
        }

  -- The running totals.
  unfoldable pub cumulative_from : Num → List Num → List Num
  cumulative_from total [] = []
  cumulative_from total (p ∷ ps) = (total ⊕ p) ∷ cumulative_from (total ⊕ p) ps

  -- The peak and the largest drawdown over the values that are left.
  unfoldable pub drawdown_loop : Num → Num → List Num → Num × Num
  drawdown_loop peak worst [] = (peak, worst)
  drawdown_loop peak worst (v ∷ vs) =
      let peak' = if lt peak v then v else peak in
      drawdown_loop peak' (if lt worst (peak' ⊖ v) then peak' ⊖ v else worst) vs

  unfoldable pub last_of : Num → List Num → Num
  last_of v [] = v
  last_of v (w ∷ ws) = last_of w ws

  pub record Drawdown : Type 0 where
    pub max_drawdown : Num
    pub max_drawdown_pct : Num
    pub current_drawdown : Num
    pub current_drawdown_pct : Num
    pub alert : Bool

  -- `a / balance if balance and balance > 0 else 0`
  abbrev pub share_of : Option Num → Num → Num
  share_of none a = nought
  share_of (some balance) a = ratio a balance

  -- The drawdowns of the running totals; `none` where there are none.
  unfoldable pub drawdown_of : Num → Option Num → List Num → Option Drawdown
  unfolding drawdown_loop last_of
  drawdown_of threshold balance [] = none
  drawdown_of threshold balance (v ∷ vs) =
      let ends = drawdown_loop v nought (v ∷ vs) in
      let current = ends.0 ⊖ last_of v vs in
      some (record {
        max_drawdown = ends.1;
        max_drawdown_pct = share_of balance ends.1;
        current_drawdown = current;
        current_drawdown_pct = share_of balance current;
        alert = lt threshold (share_of balance current);
      })

  -- `none` where no trade has a result; the dictionary then has at most two zeros and no alert.
  unfoldable pub analyze_drawdown : Num → List Trade → Option Num → Option Drawdown
  unfolding present cumulative_from drawdown_of
  analyze_drawdown threshold ts balance =
      drawdown_of threshold balance (cumulative_from nought (pnls_of ts))
