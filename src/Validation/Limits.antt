-- ===== src/Validation/Limits.antt =====
-- validation.py: the class `RiskValidator`, against `RiskManager` of risk_manager.py.
use oanda_trader.Base.{
  ℕ, ◌≡◌, Bool, true, not, Option, none, some, arith, leb, if◌then◌else◌, String, Float, Num, ◌⊕◌,
  ◌⊖◌, ◌⊘◌, ◌≼◌, ◌≺◌, nought, lt, le, eq, abs,
}
use oanda_trader.Base.NumberLaws.{≼_trans}
use oanda_trader.Risk.{RiskManager, allowed, can_open_position}
use oanda_trader.Risk.Limits.{can_open_position_iff}
use oanda_trader.Validation.Orders.{pip_size}

pub data RiskRefusal : Type 0 where
  invalid_balance exceeds_limit : RiskRefusal

module _ ⦃F : Float⦄ where
  pub record RiskValidator : Type 0 where
    pub max_open_positions : ℕ
    pub max_risk_per_trade : Num
    pub max_total_risk : Num
    pub max_slippage_pips : Num

  unfoldable pub can_open_new_position : RiskValidator → ℕ → Bool
  can_open_new_position v current_positions = not (leb v.max_open_positions current_positions)

  -- `none` where the risk is accepted.
  unfoldable pub validate_position_risk : RiskValidator → Num → Num → Option RiskRefusal
  validate_position_risk v risk_amount balance =
      if le balance nought
      then some invalid_balance
      else (if lt v.max_risk_per_trade (risk_amount ⊘ balance) then some exceeds_limit else none)

  unfoldable pub validate_total_exposure : RiskValidator → Num → Num → Num → Option RiskRefusal
  validate_total_exposure v new_risk existing_risk balance =
      if le balance nought
      then some invalid_balance
      else (if lt v.max_total_risk ((new_risk ⊕ existing_risk) ⊘ balance)
          then some exceeds_limit
          else none)

  -- Whether the slippage is accepted, and the slippage in pips.
  unfoldable pub validate_slippage : RiskValidator → Option Num → Option Num → String → Bool × Num
  validate_slippage v (some expected) (some fill) instrument =
      let slippage_pips = abs (fill ⊖ expected) ⊘ pip_size instrument in
      if eq expected nought
      then (true, nought)
      else (not (lt v.max_slippage_pips slippage_pips), slippage_pips)
  validate_slippage v _ _ instrument = (true, nought)

  -- The validator with the limits of a manager.
  abbrev pub validator_of : RiskManager → Num → RiskValidator
  validator_of s slippage = record {
    max_open_positions = s.max_open_positions;
    max_risk_per_trade = s.max_risk_per_trade;
    max_total_risk = s.max_total_risk;
    max_slippage_pips = slippage;
  }

  total_lem :
      (new existing balance limit : Num)
      → nought ≺ balance
      → (existing ⊕ new) ⊘ balance ≼ limit
      → (new ⊕ existing) ⊘ balance ≼ limit
  total_lem new existing balance limit h k =
      ≼_trans _ _ _ (F.div_mono _ _ balance h (F.add_comm_le new existing)) k

  -- With a positive balance and the same limits, what the risk manager allows the risk validator
  -- accepts: the number of positions, the risk of the trade, and the total risk.
  allowed-RiskValidator :
      (s : RiskManager) (i : String) (units risk balance slippage : Num)
      → nought ≺ balance
      → can_open_position s i units risk balance ≡ allowed
      → let v = validator_of s slippage in
        (can_open_new_position v s.position_count ≡ true)
        × (validate_position_risk v risk balance ≡ none)
        × (validate_total_exposure v risk s.total_risk_amount balance ≡ none)
  unfolding can_open_new_position validate_position_risk validate_total_exposure
  allowed-RiskValidator s i units risk balance slippage h e =
      let p = (can_open_position_iff s i units risk balance).0 e in
      (
        ground (arith, p.room),
        ground (arith, p.trade_risk),
        ground (arith, p.total_risk, total_lem risk s.total_risk_amount balance s.max_total_risk h),
      )
