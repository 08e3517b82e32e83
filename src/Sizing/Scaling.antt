-- ===== src/Sizing/Scaling.antt =====
-- position_sizing.py: the method `calculate_auto_scaled_units` of `PositionSizer`. The arguments that
-- `float` converts are taken as already converted, with `none` for one that it refuses.
use oanda_trader.Base.{
  Result, ok, ◌>>=◌, divide, ℕ, ◌^◌, ◌&&◌, ◌||◌, Option, none, some, if◌then◌else◌, Float, Num, ◌⊖◌,
  ◌⊗◌, ◌⊘◌, dec, of_ℕ, nought, one, int, lt, le, max, min,
}
use oanda_trader.Sizing.{get_or}

-- `trade_units_precision`: 0, 10^n for a negative one, or a positive one.
pub data Precision : Type 0 where
  whole_units : Precision
  tens : ℕ → Precision
  decimals : ℕ → Precision

-- The `reason` of an answer of no units.
pub data Refusal : Type 0 where
  invalid_price invalid_margin_rate no_margin bad_price_or_rate below_minimum_size
        below_minimum_value :
      Refusal

module _ ⦃F : Float⦄ where
  -- What `calculate_auto_scaled_units` is given.
  pub record AutoScale : Type 0 where
    pub balance : Num
    pub stop_loss_pips : Num
    pub pip_value : Num
    pub current_price : Option Num
    pub available_margin : Num
    pub margin_rate : Option Num
    pub minimum_trade_size : Option Num
    pub trade_units_precision : Precision
    pub maximum_order_units : Option Num
    pub risk_per_trade : Num
    pub max_units_per_instrument : Num
    pub min_trade_value : Num
    pub margin_buffer : Num
    pub auto_scale_min_units : Option Num

  -- Units with their risk, or no units for a reason.
  pub data Scaled : Type 0 where
    sized : Num → Num → Scaled
    refused : Refusal → Scaled

  -- `min(a, b, c, d)`: the first of the least
  abbrev pub min_of_four : Num → Num → Num → Num → Num
  min_of_four a b c d = min (min (min a b) c) d

  unfoldable pub round_units : Precision → Num → Num
  round_units whole_units units = int units
  round_units (tens n) units = int (units ⊘ of_ℕ (10 ^ n)) ⊗ of_ℕ (10 ^ n)
  round_units (decimals n) units = int units

  unfoldable pub units_by_risk : AutoScale → Result Num
  units_by_risk a = if le a.stop_loss_pips nought || le a.pip_value nought then ok nought else (do
    units ← divide (a.balance ⊗ a.risk_per_trade) (a.stop_loss_pips ⊗ a.pip_value)
    ok (int units))

  -- The candidate, before the minima.
  unfoldable pub candidate : AutoScale → Num → Num → Num
  unfolding round_units
  candidate a by_margin by_risk = round_units a.trade_units_precision (
      min_of_four by_margin by_risk (get_or a.maximum_order_units (of_ℕ 100_000_000))
        a.max_units_per_instrument)

  unfoldable pub minimum_units : AutoScale → Num
  minimum_units a =
      let least = get_or a.minimum_trade_size (dec 10 1) in
      elim a.auto_scale_min_units [ none ↦ least | some u ↦ max least u ]

  unfoldable pub resulting_risk : AutoScale → Num → Num
  resulting_risk a units =
      if lt nought a.stop_loss_pips && lt nought a.pip_value
      then (if lt nought a.balance
          then ((units ⊗ a.stop_loss_pips) ⊗ a.pip_value) ⊘ a.balance
          else nought)
      else nought

  -- The tests on the candidate, against the least size and the least value.
  unfoldable pub accept_units : AutoScale → Num → Num → Scaled
  unfolding minimum_units resulting_risk
  accept_units a price units =
      if lt units (minimum_units a)
      then refused below_minimum_size
      else (if lt (units ⊗ price) a.min_trade_value
          then refused below_minimum_value
          else sized units (resulting_risk a units))

  -- With a price and a rate that are numbers.
  unfoldable pub scale_units : AutoScale → Num → Num → Result Scaled
  unfolding units_by_risk candidate accept_units
  scale_units a price rate =
      let effective = a.available_margin ⊗ (one ⊖ a.margin_buffer) in
      if le effective nought
      then ok (refused no_margin)
      else (if le price nought || le rate nought then ok (refused bad_price_or_rate) else (do
        by_margin ← divide effective (price ⊗ rate)
        by_risk ← units_by_risk a
        ok (accept_units a price (candidate a (int by_margin) by_risk))))

  unfoldable pub calculate_auto_scaled_units : AutoScale → Result Scaled
  unfolding scale_units
  calculate_auto_scaled_units a = elim a.current_price [
    | none ↦ ok (refused invalid_price)
    | some price ↦ elim a.margin_rate [
      | none ↦ ok (refused invalid_margin_rate)
      | some rate ↦ scale_units a price rate
    ]
  ]
