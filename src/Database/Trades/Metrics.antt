-- ===== src/Database/Trades/Metrics.antt =====
-- The figures of `get_performance_metrics` in database.py.
use oanda_trader.Base.{
  List, [], ◌∷◌, arith, map, length, filter, length-filter-le, Bool-cases, inl, inr, All, Float,
  Num, Numpy, ◌⊕◌, ◌≼◌, nought, one, lt, abs,
}
use oanda_trader.Base.NumberLaws.{
  half_le-one, ≼_refl, dec_nonneg, ⊕_nonneg, ⊖_nonneg, ⊘_nonneg, share_bounds,
}
use oanda_trader.Analytics.{is_win, is_loss, present, sum, sum_from}
use oanda_trader.Database.Trades.{
  TradeRow, TradeTable, TradeMetrics, average, profit_factor_of, is_recent, metrics_of,
  get_performance_metrics,
}

module _ ⦃F : Float⦄ where
  abbrev AreNonneg : List Num → Type 0
  AreNonneg = All (λ x. nought ≼ x)

  sum_from_nonneg :
      (acc : Num) (xs : List Num) → nought ≼ acc → AreNonneg xs → nought ≼ sum_from acc xs
  unfolding sum_from
  sum_from_nonneg acc [] h k = h
  sum_from_nonneg acc (x ∷ xs) h (k, ks) = sum_from_nonneg (acc ⊕ x) xs (⊕_nonneg acc x h k) ks

  sum_nonneg : (xs : List Num) → AreNonneg xs → nought ≼ sum xs
  sum_nonneg xs h = sum_from_nonneg nought xs (≼_refl nought) h

  average_nonneg : (xs : List Num) → AreNonneg xs → nought ≼ average xs
  unfolding average
  average_nonneg [] h = ≼_refl nought
  average_nonneg (x ∷ xs) h = ⊘_nonneg _ _ (sum_nonneg (x ∷ xs) h) (F.of_ℕ_pos (length xs))

  abs_nonneg : (a : Num) → nought ≼ abs a
  abs_nonneg a = elim (Bool-cases (lt a nought)) [
    | inl e ↦ rw e (⊖_nonneg nought a (ground arith))
    | inr e ↦ rw e (ground arith)
  ]

  wins_nonneg : (ps : List Num) → AreNonneg (filter is_win ps)
  unfolding filter
  wins_nonneg [] = tt
  wins_nonneg (p ∷ ps) = elim (Bool-cases (is_win p)) [
    | inl e ↦ rw e (ground arith, wins_nonneg ps)
    | inr e ↦ rw e (wins_nonneg ps)
  ]

  abs_nonneg_all : (ps : List Num) → AreNonneg (map (λ q. abs q) ps)
  abs_nonneg_all [] = tt
  abs_nonneg_all (p ∷ ps) = (abs_nonneg p, abs_nonneg_all ps)

  profit_factor_nonneg : (a b : Num) → nought ≼ a → nought ≼ profit_factor_of a b
  unfolding profit_factor_of
  profit_factor_nonneg a b h = elim (Bool-cases (lt nought b)) [
    | inl e ↦ rw e (⊘_nonneg a b h (ground arith))
    | inr e ↦ elim (Bool-cases (lt nought a)) [
      | inl f ↦ rw (e, f) (dec_nonneg 2 0)
      | inr f ↦ rw (e, f) (dec_nonneg 1 0)
    ]
  ]

  -- What the users of the metrics may rely on.
  pub record IsMetrics (m : TradeMetrics) : Type 0 where
    pub rate_low : nought ≼ m.win_rate
    pub rate_high : m.win_rate ≼ one
    pub win : nought ≼ m.avg_win
    pub loss : nought ≼ m.avg_loss
    pub factor : nought ≼ m.profit_factor

  module _ (series : Numpy) where
    metrics_of-IsMetrics : (ps : List Num) → IsMetrics (metrics_of series ps)
    unfolding metrics_of
    metrics_of-IsMetrics [] = record {
      rate_low = dec_nonneg 5 1;
      rate_high = half_le-one;
      win = ≼_refl nought;
      loss = ≼_refl nought;
      factor = dec_nonneg 1 0;
    }
    metrics_of-IsMetrics (p ∷ ps) =
        let pnls = p ∷ ps in
        let rate =
          share_bounds (length (filter is_win pnls)) (length ps) (length-filter-le is_win pnls) in
        record {
          rate_low = rate.0;
          rate_high = rate.1;
          win = average_nonneg (filter is_win pnls) (wins_nonneg pnls);
          loss = average_nonneg _ (abs_nonneg_all (filter is_loss pnls));
          factor = profit_factor_nonneg _ _ (sum_nonneg (filter is_win pnls) (wins_nonneg pnls));
        }

    -- In whatever order the query gives the rows, the win rate is between 0 and 1, and the averages of
    -- wins and of losses and the profit factor are not negative.
    get_performance_metrics-IsMetrics :
        (latest_first : List TradeRow → List TradeRow) (t : TradeTable) (now days : Num)
        → IsMetrics (get_performance_metrics series latest_first t now days)
    unfolding get_performance_metrics
    get_performance_metrics-IsMetrics latest_first t now days =
        metrics_of-IsMetrics
          (present (λ (r : TradeRow). r.pnl) (latest_first (filter (is_recent now days) t.rows)))
