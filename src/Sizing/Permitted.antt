-- ===== src/Sizing/Permitted.antt =====
-- A size of `calculate_auto_scaled_units` of position_sizing.py before the limits of
-- `can_open_position` of risk_manager.py.
use oanda_trader.Base.{◌≡◌, ◌<◌, ◌⊎◌, false, length, String, has, Float, Num, ◌⊕◌, ◌⊘◌, ◌≼◌, nought}
use oanda_trader.Sizing.Fits.{Fits}
use oanda_trader.Risk.{RiskManager, base_currency, group}

module _ ⦃F : Float⦄ where
  -- The limits but the one on the units.
  pub record HasRoom (s : RiskManager) (i : String) (risk balance : Num) : Type 0 where
    pub room : s.position_count < s.max_open_positions
    pub fresh : has i s.open_positions ≡ false
    pub trade_risk : (balance ≼ nought) ⊎ (risk ⊘ balance ≼ s.max_risk_per_trade)
    pub total_risk :
        (balance ≼ nought) ⊎ ((s.total_risk_amount ⊕ risk) ⊘ balance ≼ s.max_total_risk)
    pub uncorrelated :
        length (group (base_currency i) s.correlation_groups) < s.max_correlation_positions
