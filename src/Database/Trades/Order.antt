-- ===== src/Database/Trades/Order.antt =====
-- The counts of `get_performance_metrics` in database.py, in whatever order SQLite gives the rows.
use oanda_trader.Base.{
  ℕ, zero, suc, ◌+◌, ◌≡◌, refl, sym, ◌∙◌, ap, Option, none, some, List, [], ◌∷◌, arith, length,
  Bool, true, Bool-cases, Option-cases, inl, inr, filter, if◌then◌else◌, Float, Num, Numpy, ◌⊘◌,
  of_ℕ, dec, nought, lt, ◌⊖◌, ◌&&◌, same_text,
}
use mathlib.Core.Path.{ap₂}
use mathlib.Core.List.{Perm, Permᴰ}
use mathlib.Core.List.Permᴰ as permutation
use mathlib.Core.Logic.{∥∥₁_elim}
use native.Mathlib.Nat.{ℕ_set}
use oanda_trader.Analytics.{present, is_win}
use oanda_trader.Database.Trades.{
  TradeRow, TradeTable, is_recent, metrics_of, get_performance_metrics,
}

module _ {ℓ} {A : Type ℓ} (weight : A → ℕ) where
  unfoldable pub total : List A → ℕ
  total [] = 0
  total (x ∷ xs) = weight x + total xs

  total-Permᴰ : {xs ys : List A} → Permᴰ xs ys → total xs ≡ total ys
  unfolding total
  total-Permᴰ permutation.nil = refl
  total-Permᴰ (permutation.cons e p) = ap₂ ◌+◌ (ap weight e) (total-Permᴰ p)
  total-Permᴰ (permutation.swap e f) = omega (arith, ap weight e, ap weight f)
  total-Permᴰ (permutation.trans p q) = total-Permᴰ p ∙ total-Permᴰ q

  -- A total does not depend on the order.
  total-Perm : {xs ys : List A} → Perm xs ys → total xs ≡ total ys
  total-Perm p = ∥∥₁_elim p (ℕ_set _ _) total-Permᴰ

module _ ⦃F : Float⦄ where
  -- Whether a row has a result that passes a test, as a number.
  abbrev pub hit : (Num → Bool) → Option Num → ℕ
  hit test none = 0
  hit test (some p) = if test p then 1 else 0

  length-filter-present :
      (test : Num → Bool) (rows : List TradeRow)
      → length (filter test (present (λ (r : TradeRow). r.pnl) rows))
        ≡ total (λ (r : TradeRow). hit test r.pnl) rows
  unfolding filter present total
  length-filter-present test [] = refl
  length-filter-present test (r ∷ rows) = elim (Option-cases r.pnl) [
    | inl e ↦ rw e (omega (arith, length-filter-present test rows))
    | inr (p, e) ↦ elim (Bool-cases (test p)) [
      | inl t ↦ rw (e, t) (omega (arith, length-filter-present test rows))
      | inr t ↦ rw (e, t) (omega (arith, length-filter-present test rows))
    ]
  ]

  filter_all : (ps : List Num) → length (filter (λ p. true) ps) ≡ length ps
  unfolding filter
  filter_all [] = refl
  filter_all (p ∷ ps) = ap suc (filter_all ps)

  -- The share of the winners, by the two counts.
  unfoldable pub rate : ℕ → ℕ → Num
  rate zero wins = dec 5 1
  rate (suc n) wins = of_ℕ wins ⊘ of_ℕ (suc n)

  module _ (series : Numpy) where
    metrics_of_counts :
        (ps : List Num)
        → ((metrics_of series ps).total_trades ≡ length ps)
          × ((metrics_of series ps).win_rate ≡ rate (length ps) (length (filter is_win ps)))
    unfolding metrics_of rate
    metrics_of_counts [] = (refl, refl)
    metrics_of_counts (p ∷ ps) = (refl, refl)

    module _ (now days : Num) where
      -- One for a closed trade of the period whose result passes a test.
      abbrev pub counted : (Num → Bool) → TradeRow → ℕ
      counted test r =
          if same_text r.status "CLOSED" && lt (now ⊖ days) r.entry_time then hit test r.pnl else 0

      total-filter :
          (test : Num → Bool) (rows : List TradeRow)
          → total (λ (r : TradeRow). hit test r.pnl) (filter (is_recent now days) rows)
            ≡ total (counted test) rows
      unfolding filter total
      total-filter test [] = refl
      total-filter test (r ∷ rows) = elim (Bool-cases (is_recent now days r)) [
        | inl e ↦ rw e (omega (arith, total-filter test rows))
        | inr e ↦ rw e (omega (arith, total-filter test rows))
      ]

      module _ (latest_first : List TradeRow → List TradeRow) (rows : List TradeRow)
          (same : Perm
            (latest_first (filter (is_recent now days) rows))
            (filter (is_recent now days) rows)) where
        abbrev results : List Num
        results =
            present (λ (r : TradeRow). r.pnl) (latest_first (filter (is_recent now days) rows))

        result_count :
            (test : Num → Bool) → length (filter test results) ≡ total (counted test) rows
        result_count test =
            length-filter-present test (latest_first (filter (is_recent now days) rows))
            ∙ total-Perm (λ (r : TradeRow). hit test r.pnl) same
            ∙ total-filter test rows

        result_length : length results ≡ total (counted (λ p. true)) rows
        result_length = sym (filter_all results) ∙ result_count (λ p. true)

    -- If the query gives the closed trades of the period in some order, then the number of the trades
    -- is that of the rows of the table with status CLOSED, entered in the period and with a result,
    -- and the win rate is the share of those among them whose result is over 0, or one half where
    -- there are none.
    pub get_performance_metrics_counts :
        (latest_first : List TradeRow → List TradeRow) (t : TradeTable) (now days : Num)
        → Perm
            (latest_first (filter (is_recent now days) t.rows))
            (filter (is_recent now days) t.rows)
        → let m = get_performance_metrics series latest_first t now days in
          let trades = total (counted now days (λ p. true)) t.rows in
          let wins = total (counted now days (λ p. lt nought p)) t.rows in
          (m.total_trades ≡ trades) × (m.win_rate ≡ rate trades wins)
    unfolding get_performance_metrics
    get_performance_metrics_counts latest_first t now days same =
        let (n, w) = metrics_of_counts (results now days latest_first t.rows same) in
        let trades = result_length now days latest_first t.rows same in
        let wins = result_count now days latest_first t.rows same is_win in
        (n ∙ trades, w ∙ ap₂ rate trades wins)
