-- ===== src/Validation.antt =====
-- validation.py: the market hours of `DataValidator`. The weekday (Monday is 0) and the hour in
-- US/Eastern are read from the clock by the caller, through pytz.
use oanda_trader.Base.{ℕ, Bool, true, false, ◌&&◌, ltb, leb, ◌==◌, if◌then◌else◌}
pub mod Hours
pub mod Orders
pub mod Responses
pub mod Limits
pub mod Candles

-- The reasons that `is_market_closed` gives.
pub data MarketState : Type 0 where
  friday_close saturday sunday_open market_open : MarketState

-- The switch is `check_weekend`; `check_time` is not used.
unfoldable pub is_market_closed : Bool → ℕ → ℕ → Bool × MarketState
is_market_closed false weekday hour = (false, market_open)
is_market_closed true weekday hour =
    if weekday == 4 && leb 17 hour
    then (true, friday_close)
    else (if weekday == 5
        then (true, saturday)
        else (if weekday == 6 && ltb hour 17 then (true, sunday_open) else (false, market_open)))
