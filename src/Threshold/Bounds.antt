-- ===== src/Threshold/Bounds.antt =====
-- The bounds of the threshold of adaptive_threshold.py, over every event of the bot.
use oanda_trader.Base.{
  ℕ, Bool, Option, none, some, List, [], ◌∷◌, arith, Bool-cases, Option-cases, ltb, inl, inr, Float,
  Num, ◌≼◌, dec,
}
use oanda_trader.Base.NumberLaws.{clamp_bounds}
use oanda_trader.Database.{ThresholdRow, get_last_threshold}
use oanda_trader.Volatility.{VolatilityDetector}
use oanda_trader.Threshold.{
  ThresholdManager, Performance, new_manager, starting_threshold, log_adjustment, update_on_cycle,
  raise_for_performance, raise_for_poor_performance, lower_for_marginal_performance,
  update_on_trade_result, reset_to_base, judge, decide, Verdict, strong, poor, marginal, neutral,
  get_default,
}

module _ ⦃F : Float⦄ where
  -- The base and the current threshold lie between the bounds.
  pub record IsValid (m : ThresholdManager) : Type 0 where
    pub base_low : m.min_threshold ≼ m.base_threshold
    pub base_high : m.base_threshold ≼ m.max_threshold
    pub current_low : m.min_threshold ≼ m.current_threshold
    pub current_high : m.current_threshold ≼ m.max_threshold

  -- What happens to a manager: a cycle with its number of signals, the result of a trade, a reset,
  -- or a new state of the shared volatility detector.
  pub data Event : Type 0 where
    cycle : ℕ → Event
    trade : Bool → Option Performance → Event
    reset : Event
    volatility : Option VolatilityDetector → Event

  unfoldable pub handle : ThresholdManager → Event → ThresholdManager
  handle m (cycle n) = (update_on_cycle m n).0
  handle m (trade won p) = (update_on_trade_result m won p).0
  handle m reset = reset_to_base m
  handle m (volatility d) = record m { volatility_detector = d }

  unfoldable pub handle_all : ThresholdManager → List Event → ThresholdManager
  handle_all m [] = m
  handle_all m (e ∷ es) = handle_all (handle m e) es

  log_adjustment-IsValid :
      (m : ThresholdManager) (row : ThresholdRow) → IsValid m → IsValid (log_adjustment m row)
  unfolding log_adjustment
  log_adjustment-IsValid m row v = ground arith

  update_on_cycle-IsValid :
      (m : ThresholdManager) (n : ℕ) → IsValid m → IsValid (update_on_cycle m n).0
  unfolding update_on_cycle
  update_on_cycle-IsValid m n v = ground arith

  decide-IsValid :
      (d : Verdict) (m : ThresholdManager) (w p : Num) (n : ℕ)
      → IsValid m
      → IsValid (decide d m w p n).0
  unfolding raise_for_performance raise_for_poor_performance lower_for_marginal_performance
  decide-IsValid strong m w p n v = ground arith
  decide-IsValid poor m w p n v = ground arith
  decide-IsValid marginal m w p n v = ground arith
  decide-IsValid neutral m w p n v = v

  update_on_trade_result-IsValid :
      (m : ThresholdManager) (won : Bool) (p : Option Performance)
      → IsValid m
      → IsValid (update_on_trade_result m won p).0
  unfolding update_on_trade_result
  update_on_trade_result-IsValid m won none v = v
  update_on_trade_result-IsValid m won (some p) v =
      let win_rate = get_default p.win_rate (dec 5 1) in
      let profit_factor = get_default p.profit_factor (dec 10 1) in
      let trades = get_default p.total_trades 0 in
      let decided =
        decide-IsValid (judge win_rate profit_factor) m win_rate profit_factor trades v in
      elim (Bool-cases (ltb trades 5)) [ inl e ↦ rw e v | inr e ↦ rw e decided ]

  reset_to_base-IsValid : (m : ThresholdManager) → IsValid m → IsValid (reset_to_base m)
  unfolding reset_to_base
  reset_to_base-IsValid m v = ground arith

  pub handle-IsValid : (m : ThresholdManager) (e : Event) → IsValid m → IsValid (handle m e)
  unfolding handle
  handle-IsValid m (cycle n) v = update_on_cycle-IsValid m n v
  handle-IsValid m (trade won p) v = update_on_trade_result-IsValid m won p v
  handle-IsValid m reset v = reset_to_base-IsValid m v
  handle-IsValid m (volatility d) v = ground arith

  handle_all-IsValid :
      (m : ThresholdManager) (es : List Event) → IsValid m → IsValid (handle_all m es)
  unfolding handle_all
  handle_all-IsValid m [] v = v
  handle_all-IsValid m (e ∷ es) v = handle_all-IsValid (handle m e) es (handle-IsValid m e v)

  pub new_manager-IsValid :
      (base : Num) (db : Option (List ThresholdRow)) (lo hi : Num) (trigger : ℕ) (step : Num)
      (detector : Option VolatilityDetector)
      → lo ≼ base
      → base ≼ hi
      → IsValid (new_manager base db lo hi trigger step detector)
  unfolding new_manager starting_threshold
  new_manager-IsValid base none lo hi trigger step detector h k = ground arith
  new_manager-IsValid base (some rows) lo hi trigger step detector h k =
      elim (Option-cases (get_last_threshold rows)) [
        | inl e ↦ rw (e, new_manager, starting_threshold) (ground arith)
        | inr (last, e) ↦ ground (arith, clamp_bounds lo hi last)
      ]

  -- If the base lies between the bounds, then whatever the database holds, and after any events,
  -- whatever the steps, the trades and the volatility are, the threshold lies between the bounds,
  -- and the bounds still enclose the base.
  pub handle_all-new_manager :
      (base : Num) (db : Option (List ThresholdRow)) (lo hi : Num) (trigger : ℕ) (step : Num)
      (detector : Option VolatilityDetector) (es : List Event)
      → lo ≼ base
      → base ≼ hi
      → IsValid (handle_all (new_manager base db lo hi trigger step detector) es)
  handle_all-new_manager base db lo hi trigger step detector es h k =
      handle_all-IsValid (new_manager base db lo hi trigger step detector) es
        (new_manager-IsValid base db lo hi trigger step detector h k)
