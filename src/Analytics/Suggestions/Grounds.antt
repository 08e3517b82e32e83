-- ===== src/Analytics/Suggestions/Grounds.antt =====
-- What each suggestion of analytics.py claims of the results and the analyses.
use oanda_trader.Base.{
  ℕ, ◌<◌, ◌≤◌, ◌≡◌, ◌≢◌, refl, Bool, true, false, Option, none, some, List, [], ◌∷◌, ◌++◌, length,
  filter, Dict, Float, Num, Numpy, ◌⊕◌, ◌⊘◌, ◌≼◌, ◌≺◌, dec, nought, All, ◌⊎◌, ◌≃◌, ◌⊖◌, abs, String,
  lookup,
}
use mathlib.Core.List.{Memᴰ}
use oanda_trader.Analytics.{Drawdown, summarize, is_loss}
use oanda_trader.Analytics.Groups.{GroupPerformance}
use oanda_trader.Analytics.Suggestions.{
  Suggestion, collect_more, no_pnl, low_win_rate, strong_win_rate, poor_risk_reward,
  excellent_risk_reward, drawdown_alert, best_instrument, worst_instrument, signal_bias,
  ml_effective, best_time, balanced, append_if,
}

pub All-append :
    {A : Type 0} (P : A → Type 0) (xs ys : List A) → All P xs → All P ys → All P (xs ++ ys)
All-append P [] ys h k = k
All-append P (x ∷ xs) ys (p, h) k = (p, All-append P xs ys h k)

module _ ⦃F : Float⦄ where
  pub append_if_lem :
      (P : Suggestion → Type 0) (b : Bool) (s : Suggestion)
      → (b ≡ true → P s)
      → All P (append_if b s)
  append_if_lem P true s h = (h refl, tt)
  append_if_lem P false s h = tt

  -- What the suggestions are made from: the number of trades that is asked for and that is there,
  -- the results, and the analyses.
  pub record Grounds : Type 0 where
    pub asked : ℕ
    pub available : ℕ
    pub pnls : List Num
    pub drawdown : Option Drawdown
    pub instruments : Dict GroupPerformance
    pub signals : Dict GroupPerformance
    pub predictions : Dict GroupPerformance
    pub times : Dict GroupPerformance

  -- The win rate of a group, 0 where there is no such group.
  abbrev pub RateOf : String → Dict GroupPerformance → Num → Type 0
  RateOf k perf r =
      (lookup k perf ≡ none) × (r ≡ nought)
      ⊎ (p : GroupPerformance) × (lookup k perf ≡ some p) × (r ≡ p.win_rate)

  -- The signal with the better win rate, and the two rates.
  abbrev pub IsBias : Dict GroupPerformance → String → Num → Num → Type 0
  IsBias perf k a b =
      (buy_rate : Num) × (sell_rate : Num) × RateOf "BUY" perf buy_rate
      × RateOf "SELL" perf sell_rate
      × (length perf ≡ 2)
      × (dec 20 2 ≺ abs (buy_rate ⊖ sell_rate))
      × ((k ≡ "BUY") × (sell_rate ≺ buy_rate) × (a ≡ buy_rate) × (b ≡ sell_rate)
          ⊎ (k ≡ "SELL") × (buy_rate ≼ sell_rate) × (a ≃ sell_rate) × (b ≃ buy_rate))

  module _ (np : Numpy) where
    -- The ratio of reward to risk: that of the summary, and without losses against a loss of 0.01.
    abbrev pub IsReward : List Num → Num → Type 0
    IsReward pnls r =
        (filter is_loss pnls ≡ []) × (r ≡ (summarize np pnls).avg_win ⊘ dec 1 2)
        ⊎ (filter is_loss pnls ≢ []) × (r ≡ (summarize np pnls).risk_reward_ratio)

    -- What a suggestion claims.
    abbrev pub IsFounded : Grounds → Suggestion → Type 0
    IsFounded g (collect_more m) = (m ≡ g.asked) × (g.available < g.asked)
    IsFounded g no_pnl = (g.asked ≤ g.available) × (g.pnls ≡ [])
    IsFounded g (low_win_rate r) = (r ≡ (summarize np g.pnls).win_rate) × (r ≺ dec 45 2)
    IsFounded g (strong_win_rate r) = (r ≡ (summarize np g.pnls).win_rate) × (dec 65 2 ≺ r)
    IsFounded g (poor_risk_reward r) = IsReward g.pnls r × (r ≺ dec 15 1)
    IsFounded g (excellent_risk_reward r) = IsReward g.pnls r × (dec 25 1 ≺ r)
    IsFounded g (drawdown_alert r) =
        (d : Drawdown) × (g.drawdown ≡ some d) × (d.alert ≡ true) × (r ≡ d.current_drawdown_pct)
    IsFounded g (best_instrument k pnl r) =
        (p : GroupPerformance) × Memᴰ (k, p) g.instruments
        × (pnl ≡ p.total_pnl)
        × (r ≡ p.win_rate)
        × (nought ≺ pnl)
        × All (λ e. e.1.total_pnl ≼ pnl) g.instruments
    IsFounded g (worst_instrument k pnl r) =
        (p : GroupPerformance) × Memᴰ (k, p) g.instruments
        × (pnl ≡ p.total_pnl)
        × (r ≡ p.win_rate)
        × (3 ≤ p.total_trades)
        × (pnl ≺ nought)
        × All (λ e. pnl ≼ e.1.total_pnl) g.instruments
    IsFounded g (signal_bias k a b) = IsBias g.signals k a b
    IsFounded g (ml_effective a b) =
        (high : GroupPerformance) × (low : GroupPerformance) × (lookup "high_ml_confidence"
            g.predictions
          ≡ some high)
        × (lookup "low_ml_confidence" g.predictions ≡ some low)
        × (a ≡ high.win_rate)
        × (b ≡ low.win_rate)
        × (b ⊕ dec 15 2 ≺ a)
    IsFounded g (best_time k pnl r) =
        (p : GroupPerformance) × Memᴰ (k, p) g.times
        × (pnl ≡ p.avg_pnl)
        × (r ≡ p.win_rate)
        × (3 ≤ p.total_trades)
        × All (λ e. e.1.avg_pnl ≼ pnl) g.times
    IsFounded g balanced = (g.asked ≤ g.available) × (g.pnls ≢ [])
