-- ===== src/Validation/Hours.antt =====
-- The market hours of validation.py as one interval of the week.
use oanda_trader.Base.{ℕ, ◌+◌, ◌*◌, ◌%◌, ◌<◌, ◌≡◌, true, arith, ltb}
use oanda_trader.Validation.{is_market_closed}

-- The hours since the last Friday at 17, which is the hour 113 of a week of 168.
abbrev pub hours_since_close : ℕ → ℕ → ℕ
hours_since_close weekday hour = (weekday * 24 + hour + 55) % 168

-- With the check for weekends, on each of the seven days and at each of the 24 hours: the market is
-- closed exactly in the 48 hours that begin on Friday at 17, so that it opens on Sunday at 17.
is_market_closed_lem :
    (weekday hour : ℕ)
    → weekday < 7
    → hour < 24
    → (is_market_closed true weekday hour).0 ≡ ltb (hours_since_close weekday hour) 48
unfolding is_market_closed
is_market_closed_lem weekday hour h k = ground arith
