-- ===== src/Threshold/Direction.antt =====
-- Which way a trade's result moves the threshold of adaptive_threshold.py, and what is logged.
use oanda_trader.Base.{
  ℕ, ◌≤◌, ◌<◌, ◌≡◌, refl, Bool, true, false, Option, none, some, List, arith, Bool-cases, inl, inr,
  ltb, lt, if◌then◌else◌, Float, Num, ◌⊕◌, ◌⊖◌, ◌⊗◌, ◌≺◌, dec, max, min,
}
use oanda_trader.Database.{
  ThresholdRow, store_threshold_adjustment, strong_performance, poor_performance,
  marginal_performance,
}
use oanda_trader.Threshold.{
  ThresholdManager, Performance, log_adjustment, raise_for_performance, raise_for_poor_performance,
  lower_for_marginal_performance, update_on_trade_result, judge, decide, Verdict, strong, poor,
  marginal, neutral, get_default, performance_row,
}

module _ ⦃F : Float⦄ where
  -- The way a verdict moves the threshold from `old` to `new`.
  abbrev pub Moves : Verdict → Num → Num → Type 0
  Moves strong old new = old ≺ new
  Moves poor old new = old ≺ new
  Moves marginal old new = new ≺ old
  Moves neutral old new = ⊥

  abbrev pub add_row : ThresholdRow → Option (List ThresholdRow) → Option (List ThresholdRow)
  add_row row none = none
  add_row row (some rows) = some (store_threshold_adjustment rows row)

  -- The table has one row more, with the threshold before and after.
  pub record IsLogged (m m' : ThresholdManager) : Type 0 where
    pub row : ThresholdRow
    pub added : m'.db ≡ add_row row m.db
    pub old_same : row.old_threshold ≡ m.current_threshold
    pub new_same : row.new_threshold ≡ m'.current_threshold

  -- What a decision does, by its answer: it moves the threshold and logs that, or changes nothing.
  abbrev pub Decided : Verdict → ThresholdManager → Bool → ThresholdManager → Type 0
  Decided d m true m' = Moves d m.current_threshold m'.current_threshold × IsLogged m m'
  Decided d m false m' = m' ≡ m

  abbrev pub IsDecision : Verdict → ThresholdManager → ThresholdManager × Bool → Type 0
  IsDecision d m r = Decided d m r.1 r.0

  log-IsLogged :
      (m : ThresholdManager) (row : ThresholdRow)
      → row.old_threshold ≡ m.current_threshold
      → IsLogged m (log_adjustment (record m { current_threshold = row.new_threshold }) row)
  unfolding log_adjustment
  log-IsLogged m row h = record {
    row = row;
    added = ground arith;
    old_same = h;
    new_same = ground arith;
  }

  log_adjustment-current :
      (m : ThresholdManager) (row : ThresholdRow)
      → (log_adjustment m row).current_threshold ≡ m.current_threshold
  unfolding log_adjustment
  log_adjustment-current m row = ground arith

  -- The shape that the three methods share: a test, then the move and its row.
  settle :
      (d : Verdict) (m : ThresholdManager) (row : ThresholdRow) (b : Bool)
      → row.old_threshold ≡ m.current_threshold
      → (b ≡ true → Moves d m.current_threshold row.new_threshold)
      → IsDecision d m (
          if b
          then (log_adjustment (record m { current_threshold = row.new_threshold }) row, true)
          else (m, false))
  settle d m row false h k = refl
  settle d m row true h k = (
    rw (log_adjustment-current (record m { current_threshold = row.new_threshold }) row) (k refl),
    log-IsLogged m row h,
  )

  decide-IsDecision :
      (d : Verdict) (m : ThresholdManager) (w p : Num) (n : ℕ) → IsDecision d m (decide d m w p n)
  unfolding raise_for_performance raise_for_poor_performance lower_for_marginal_performance
  decide-IsDecision strong m w p n =
      let old = m.current_threshold in
      let new = min m.max_threshold (old ⊕ m.adjustment_step) in
      settle strong m (performance_row old new strong_performance w p n) (lt old new) refl
        (λ e. ground arith)
  decide-IsDecision poor m w p n =
      let old = m.current_threshold in
      let new = min m.max_threshold (old ⊕ m.adjustment_step ⊗ dec 15 1) in
      settle poor m (performance_row old new poor_performance w p n) (lt old new) refl
        (λ e. ground arith)
  decide-IsDecision marginal m w p n =
      let old = m.current_threshold in
      let new = max m.min_threshold (old ⊖ m.adjustment_step) in
      settle marginal m (performance_row old new marginal_performance w p n) (lt new old) refl
        (λ e. ground arith)
  decide-IsDecision neutral m w p n = refl

  -- With no figures, or fewer than five trades in them, a trade's result changes nothing.
  update_on_trade_result_few :
      (m : ThresholdManager) (won : Bool) (p : Performance)
      → get_default p.total_trades 0 < 5
      → (update_on_trade_result m won none ≡ (m, false))
        × (update_on_trade_result m won (some p) ≡ (m, false))
  unfolding update_on_trade_result
  update_on_trade_result_few m won p h = (refl, ground arith)

  -- With five trades or more, whatever the trade's own outcome, the answer `true` means that the
  -- threshold rose strictly if the verdict is strong or poor and fell strictly if it is marginal,
  -- and that a row with both values was added to the table, if there is one; the answer `false`
  -- means that nothing changed, and it is the answer to a neutral verdict.
  pub update_on_trade_result-IsDecision :
      (m : ThresholdManager) (won : Bool) (p : Performance)
      → 5 ≤ get_default p.total_trades 0
      → IsDecision
          (judge (get_default p.win_rate (dec 5 1)) (get_default p.profit_factor (dec 10 1)))
          m
          (update_on_trade_result m won (some p))
  unfolding update_on_trade_result
  update_on_trade_result-IsDecision m won p h =
      let win_rate = get_default p.win_rate (dec 5 1) in
      let profit_factor = get_default p.profit_factor (dec 10 1) in
      let trades = get_default p.total_trades 0 in
      let decided =
        decide-IsDecision (judge win_rate profit_factor) m win_rate profit_factor trades in
      elim (Bool-cases (ltb trades 5)) [ inl e ↦ absurd (ground arith) | inr e ↦ rw e decided ]
