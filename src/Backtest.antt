-- ===== src/Backtest.antt =====
-- backtest.py. The library backtrader is left to arguments: the bars and the position that it hands to
-- a strategy, and what its analyzers and its broker report of a run. Printed lines are left out.
use oanda_trader.Base.{
  ℕ, zero, suc, ◌+◌, ◌-◌, ◌*◌, ◌/◌, Bool, true, false, not, ◌&&◌, Option, none, some, List, [], ◌∷◌,
  map, length, take, drop, ltb, if◌then◌else◌, String, same_text, Float, Num, Numpy, ◌⊕◌, ◌⊖◌, ◌⊗◌,
  ◌⊘◌, dec, of_ℕ, nought, lt, eq, max, abs, Result, ok, zero_division, ◌>>=◌, divide,
}
use oanda_trader.Analytics.{least}
use oanda_trader.Timeframe.{Signal, buy, sell}
use oanda_trader.Strategies.{Candle, Library, Reading, get_signal_with_confidence}
pub mod Walks
pub mod Orders

-- `data.iloc[a:b]`
abbrev pub slice {ℓ} : {A : Type ℓ} → ℕ → ℕ → List A → List A
slice a b data_rows = take (b - a) (drop a data_rows)

-- The rows that a walk trains on and tests on.
pub record Window : Type 0 where
  pub walk_number : ℕ
  pub train_start : ℕ
  pub train_end : ℕ
  pub test_start : ℕ
  pub test_end : ℕ

abbrev pub window : ℕ → ℕ → ℕ → Window
window train_period test_period walk = record {
  walk_number = suc walk;
  train_start = walk * test_period;
  train_end = walk * test_period + train_period;
  test_start = walk * test_period + train_period;
  test_end = walk * test_period + train_period + test_period;
}

-- The test period, raised to what the indicators need.
abbrev pub sufficient_test_period : ℕ → ℕ
sufficient_test_period test_period = if ltb test_period 50 then 50 else test_period

module _ ⦃F : Float⦄ where
  pub data Order : Type 0 where
    market : Signal → Order
    stop : Signal → Num → Order
    limit : Signal → Num → Order

  -- `MAStrategy.next`
  unfoldable pub ma_next : Bool → Num → Num → List Order
  ma_next position ma_short ma_long =
      if not position
      then (if lt ma_long ma_short then market buy ∷ [] else [])
      else (if lt ma_short ma_long then market sell ∷ [] else [])

  pub record Params : Type 0 where
    pub atr_stop_mult : Num
    pub atr_profit_mult : Num
    pub confidence_threshold : Num

  -- `atr * mult if atr > 0 else default`
  abbrev pub distance : Num → Num → Num → Num
  distance atr mult default = if lt nought atr then atr ⊗ mult else default

  -- The orders for a reading that is sure enough: at the market, at the stop and at the profit.
  unfoldable pub bracket : Params → Signal → Num → Num → List Order
  bracket p buy atr close =
      market buy
      ∷ stop sell (close ⊖ distance atr p.atr_stop_mult (dec 1 3))
      ∷ limit sell (close ⊕ distance atr p.atr_profit_mult (dec 2 3))
      ∷ []
  bracket p sell atr close =
      market sell
      ∷ stop buy (close ⊕ distance atr p.atr_stop_mult (dec 1 3))
      ∷ limit buy (close ⊖ distance atr p.atr_profit_mult (dec 2 3))
      ∷ []

  unfoldable pub orders_for : Params → Bool → Num → Reading → List Order
  unfolding bracket
  orders_for p position close r = elim r.signal [
    | none ↦ []
    | some s ↦
        if not (lt r.confidence p.confidence_threshold) && not position
        then bracket p s r.atr close
        else []
  ]

  -- `AdvancedScalpStrategy.next`, with the number of bars so far, the candles `data[-50]` to
  -- `data[-1]`, whether there is a position, and the close `data.close[0]`.
  unfoldable pub scalp_next : Library → Params → ℕ → List Candle → Bool → Num → List Order
  unfolding orders_for get_signal_with_confidence
  scalp_next lib p bars recent position close =
      if ltb bars 50
      then []
      else orders_for p position close (get_signal_with_confidence lib recent "advanced_scalp")

  unfoldable pub calculate_sharpe_ratio : Numpy → List Num → Num → Num
  calculate_sharpe_ratio np [] risk_free_rate = nought
  calculate_sharpe_ratio np (r ∷ rs) risk_free_rate =
      let excess_returns = map (λ x. x ⊖ (risk_free_rate ⊘ of_ℕ 252)) (r ∷ rs) in
      if eq (np.std excess_returns) nought
      then nought
      else (np.mean excess_returns ⊘ np.std excess_returns) ⊗ np.sqrt (of_ℕ 252)

  -- `(cumulative - running_max) / running_max`, from the running maximum before
  unfoldable pub drawdowns_from : Num → List Num → List Num
  drawdowns_from running_max [] = []
  drawdowns_from running_max (c ∷ cs) =
      let m = max running_max c in ((c ⊖ m) ⊘ m) ∷ drawdowns_from m cs

  -- Of an equity curve of positive values.
  unfoldable pub calculate_max_drawdown : List Num → Num
  unfolding drawdowns_from least
  calculate_max_drawdown [] = nought
  calculate_max_drawdown (c ∷ cs) = abs (least (drawdowns_from c (c ∷ cs)))

  pub record Returns : Type 0 where
    pub starting_value : Num
    pub final_value : Num
    pub total_return : Num
    pub total_return_pct : Num
    pub profit : Num

  unfoldable pub calculate_performance_metrics : Num → Num → Result Returns
  calculate_performance_metrics final_value starting_value = do
    total_return ← divide (final_value ⊖ starting_value) starting_value
    ok (record {
      starting_value = starting_value;
      final_value = final_value;
      total_return = total_return;
      total_return_pct = total_return ⊗ of_ℕ 100;
      profit = final_value ⊖ starting_value;
    })

  -- What backtrader reports of a run: the broker's value before and after, and the entries of the
  -- analyzers, `none` where a key is missing.
  pub record RunReport : Type 0 where
    pub starting_value : Num
    pub final_value : Num
    pub sharperatio : Option Num
    pub max_drawdown : Option Num
    pub total : Option ℕ
    pub won : Option ℕ
    pub lost : Option ℕ

  pub record RunMetrics : Type 0 where
    pub returns : Returns
    pub sharpe_ratio : Num
    pub max_drawdown : Num
    pub total_trades : ℕ
    pub winning_trades : ℕ
    pub losing_trades : ℕ
    pub win_rate : Num

  -- `d.get(k, default)`
  abbrev pub or_default {ℓ} : {A : Type ℓ} → A → Option A → A
  or_default a none = a
  or_default a (some b) = b

  -- The metrics of a run.
  unfoldable pub backtest : RunReport → Result RunMetrics
  unfolding calculate_performance_metrics
  backtest r = do
    let total_trades = or_default 0 r.total
    let won_trades = or_default 0 r.won
    returns ← calculate_performance_metrics r.final_value r.starting_value
    ok (record {
      returns = returns;
      sharpe_ratio = or_default nought r.sharperatio;
      max_drawdown = or_default nought r.max_drawdown;
      total_trades = total_trades;
      winning_trades = won_trades;
      losing_trades = or_default 0 r.lost;
      win_rate =
          if ltb 0 total_trades then (of_ℕ won_trades ⊘ of_ℕ total_trades) ⊗ of_ℕ 100 else nought;
    })

  pub record Walk : Type 0 where
    pub rows : Window
    pub metrics : RunMetrics

  pub record WalkForward : Type 0 where
    pub walks : List Walk
    pub avg_return : Num
    pub avg_sharpe : Num
    pub avg_win_rate : Num
    pub total_trades : ℕ
    pub num_walks : ℕ

  unfoldable pub trades_of : List Walk → ℕ
  trades_of [] = 0
  trades_of (w ∷ ws) = w.metrics.total_trades + trades_of ws

  abbrev pub aggregate : Numpy → List Walk → Option WalkForward
  aggregate np [] = none
  aggregate np (w ∷ ws) =
      let results = w ∷ ws in
      some (record {
        walks = results;
        avg_return = np.mean (map (λ r. r.metrics.returns.total_return_pct) results);
        avg_sharpe = np.mean (map (λ r. r.metrics.sharpe_ratio) results);
        avg_win_rate = np.mean (map (λ r. r.metrics.win_rate) results);
        total_trades = trades_of results;
        num_walks = length results;
      })

  module _ {A : Type 0} (run : List A → RunReport) (candles : List A)
      (train_period test_period : ℕ) where
    -- The walks that are left, from the number of the next: the loop ends at the first window that
    -- is not inside the data.
    unfoldable pub walks_from : ℕ → ℕ → Result (List Walk)
    unfolding backtest
    walks_from zero walk = ok []
    walks_from (suc left) walk =
        let w = window train_period test_period walk in
        let rest = walks_from left (suc walk) in
        if ltb (length candles) w.test_end then ok [] else (do
          metrics ← backtest (run (slice w.test_start w.test_end candles))
          results ← rest
          ok (record { rows = w; metrics = metrics } ∷ results))

  -- `none` where there is too little data.
  unfoldable pub walk_forward_analysis :
      {A : Type 0} → Numpy → (List A → RunReport) → List A → ℕ → ℕ → Result (Option WalkForward)
  unfolding walks_from trades_of
  walk_forward_analysis np run candles train_period test_period =
      let test = sufficient_test_period test_period in
      let num_walks = (length candles - train_period) / test in
      if ltb (length candles) (train_period + test) then ok none else (do
        results ← walks_from run candles train_period test num_walks 0
        ok (aggregate np results))
