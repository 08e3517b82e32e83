-- ===== src/Sessions/Verdicts.antt =====
-- `get_performance_metrics` of database.py, as `update_on_trade_result` of adaptive_threshold.py
-- judges it.
use oanda_trader.Base.{
  ℕ, suc, ◌≤◌, ◌<◌, ◌≡◌, refl, Bool, true, false, List, [], ◌∷◌, arith, All, length, filter, ltb,
  some, Float, Num, Numpy, ◌⊕◌, ◌⊘◌, ◌≼◌, ◌≺◌, dec, of_ℕ, nought, lt,
}
use oanda_trader.Base.NumberLaws.{≼_refl, le-⊕}
use oanda_trader.Analytics.{is_win, is_loss, present, sum, sum_from}
use oanda_trader.Database.Trades.{
  TradeRow, TradeTable, TradeMetrics, profit_factor_of, is_recent, metrics_of,
  get_performance_metrics,
}
use oanda_trader.Threshold.{
  ThresholdManager, update_on_trade_result, judge, decide, Verdict, strong, poor,
  raise_for_performance, raise_for_poor_performance,
}
use oanda_trader.Sessions.{as_performance}

-- A plain history: too few trades, only wins, or only losses.
pub data History : Type 0 where
  too_few all_won all_lost : History

module _ ⦃F : Float⦄ where
  abbrev pub HasHistory : History → List Num → Type 0
  HasHistory too_few ps = length ps < 5
  HasHistory all_won ps = (5 ≤ length ps) × All (λ p. nought ≺ p) ps
  HasHistory all_lost ps = (5 ≤ length ps) × All (λ p. p ≺ nought) ps

  -- What the manager does with the metrics of such a history.
  abbrev pub response : History → ThresholdManager → TradeMetrics → ThresholdManager × Bool
  response too_few m r = (m, false)
  response all_won m r = raise_for_performance m r.win_rate r.profit_factor r.total_trades
  response all_lost m r = raise_for_poor_performance m r.win_rate r.profit_factor r.total_trades

  sum_from-le : (acc : Num) (ps : List Num) → All (λ p. nought ≺ p) ps → acc ≼ sum_from acc ps
  unfolding sum_from
  sum_from-le acc [] h = ≼_refl acc
  sum_from-le acc (p ∷ ps) (h, hs) =
      omega (arith, sum_from-le (acc ⊕ p) ps hs, le-⊕ acc p (omega (arith, h)))

  sum_pos : (p : Num) (ps : List Num) → All (λ q. nought ≺ q) (p ∷ ps) → nought ≺ sum (p ∷ ps)
  unfolding sum_from
  sum_pos p ps (h, hs) = omega (arith, sum_from-le (nought ⊕ p) ps hs, F.zero_add p)

  wins_won : (ps : List Num) → All (λ p. nought ≺ p) ps → filter is_win ps ≡ ps
  unfolding filter
  wins_won [] h = refl
  wins_won (p ∷ ps) (h, hs) = ground (arith, h, wins_won ps hs)

  losses_won : (ps : List Num) → All (λ p. nought ≺ p) ps → filter is_loss ps ≡ []
  unfolding filter
  losses_won [] h = refl
  losses_won (p ∷ ps) (h, hs) = ground (arith, h, losses_won ps hs)

  wins_lost : (ps : List Num) → All (λ p. p ≺ nought) ps → filter is_win ps ≡ []
  unfolding filter
  wins_lost [] h = refl
  wins_lost (p ∷ ps) (h, hs) = ground (arith, h, wins_lost ps hs)

  -- All the trades won, of which there is one, and nothing was lost.
  judge_won :
      (n : ℕ) (total : Num)
      → nought ≺ total
      → judge (of_ℕ (suc n) ⊘ of_ℕ (suc n)) (profit_factor_of total nought) ≡ strong
  unfolding judge profit_factor_of
  judge_won n total h =
      let rate = F.div_self (of_ℕ (suc n)) (F.of_ℕ_pos n) in
      let below_one = F.dec_mono 65 100 2 (omega arith) in
      let shift = F.dec_shift 10 1 in
      let shift' = F.dec_shift 1 0 in
      let factor = F.dec_mono 15 20 1 (omega arith) in
      let two = F.dec_shift 2 0 in
      let high : lt (of_ℕ (suc n) ⊘ of_ℕ (suc n)) (dec 65 2) ≡ false = ground arith in
      let paid : lt (of_ℕ 2) (dec 15 1) ≡ false = ground arith in
      let won : lt nought total ≡ true = ground arith in
      let none_lost : lt nought nought ≡ false = ground arith in
      rw (none_lost, won, high, paid) refl

  -- None of the trades won.
  judge_lost : (n : ℕ) (factor : Num) → judge (of_ℕ 0 ⊘ of_ℕ (suc n)) factor ≡ poor
  unfolding judge
  judge_lost n factor =
      let rate = F.zero_div (of_ℕ (suc n)) (F.of_ℕ_pos n) in
      let z = F.dec_zero 2 in
      let above = F.dec_lt 0 45 2 (omega arith) (omega arith) (omega arith) in
      let above' = F.dec_lt 0 65 2 (omega arith) (omega arith) (omega arith) in
      let low : lt (of_ℕ 0 ⊘ of_ℕ (suc n)) (dec 65 2) ≡ true = ground arith in
      let low' : lt (of_ℕ 0 ⊘ of_ℕ (suc n)) (dec 45 2) ≡ true = ground arith in rw (low, low') refl

  -- A decision on five trades or more is the one that the verdict names.
  decided :
      (m : ThresholdManager) (won : Bool) (r : TradeMetrics) (v : Verdict)
      → 5 ≤ r.total_trades
      → judge r.win_rate r.profit_factor ≡ v
      → update_on_trade_result m won (some (as_performance r))
        ≡ decide v m r.win_rate r.profit_factor r.total_trades
  unfolding update_on_trade_result
  decided m won r v h e =
      let enough : ltb r.total_trades 5 ≡ false = ground arith in rw (enough, e) refl

  undecided :
      (m : ThresholdManager) (won : Bool) (r : TradeMetrics)
      → r.total_trades < 5
      → update_on_trade_result m won (some (as_performance r)) ≡ (m, false)
  unfolding update_on_trade_result
  undecided m won r h = let few : ltb r.total_trades 5 ≡ true = ground arith in rw few refl

  module _ (series : Numpy) where
    total_trades-metrics_of : (ps : List Num) → (metrics_of series ps).total_trades ≡ length ps
    unfolding metrics_of
    total_trades-metrics_of [] = refl
    total_trades-metrics_of (p ∷ ps) = refl

    judge-metrics_of_won :
        (ps : List Num)
        → HasHistory all_won ps
        → let r = metrics_of series ps in judge r.win_rate r.profit_factor ≡ strong
    unfolding metrics_of
    judge-metrics_of_won [] (h, a) = absurd (omega arith)
    judge-metrics_of_won (p ∷ ps) (h, a) =
        rw (wins_won (p ∷ ps) a, losses_won (p ∷ ps) a)
          (judge_won (length ps) (sum (p ∷ ps)) (sum_pos p ps a))

    judge-metrics_of_lost :
        (ps : List Num)
        → HasHistory all_lost ps
        → let r = metrics_of series ps in judge r.win_rate r.profit_factor ≡ poor
    unfolding metrics_of
    judge-metrics_of_lost [] (h, a) = absurd (omega arith)
    judge-metrics_of_lost (p ∷ ps) (h, a) = rw (wins_lost (p ∷ ps) a) (judge_lost (length ps) _)

    response_lem :
        (m : ThresholdManager) (won : Bool) (s : History) (ps : List Num)
        → HasHistory s ps
        → let r = metrics_of series ps in
          update_on_trade_result m won (some (as_performance r)) ≡ response s m r
    response_lem m won too_few ps h =
        undecided m won (metrics_of series ps) (rw (total_trades-metrics_of ps) h)
    response_lem m won all_won ps h =
        decided m won (metrics_of series ps) strong (rw (total_trades-metrics_of ps) h.0)
          (judge-metrics_of_won ps h)
    response_lem m won all_lost ps h =
        decided m won (metrics_of series ps) poor (rw (total_trades-metrics_of ps) h.0)
          (judge-metrics_of_lost ps h)

    -- Let the results of the closed trades in the period be fewer than five, or at least five that
    -- are all above 0 or all below 0. Then the manager, given the figures that the database computes
    -- of them, does nothing in the first case, takes the step up for a strong performance in the
    -- second, and the larger step up for a poor one in the third.
    pub update_on_trade_result-get_performance_metrics :
        (latest_first : List TradeRow → List TradeRow) (t : TradeTable) (now days : Num)
        (m : ThresholdManager) (won : Bool) (s : History)
        → HasHistory s
            (present (λ (r : TradeRow). r.pnl) (latest_first (filter (is_recent now days) t.rows)))
        → let r = get_performance_metrics series latest_first t now days in
          update_on_trade_result m won (some (as_performance r)) ≡ response s m r
    unfolding get_performance_metrics
    update_on_trade_result-get_performance_metrics latest_first t now days m won s h =
        response_lem m won s _ h
