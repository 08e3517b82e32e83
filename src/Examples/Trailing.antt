-- ===== src/Examples/Trailing.antt =====
-- Runs of trailing_stops.py: a long position in EUR_USD from 1.1 on, with an ATR of 10 pips.
use oanda_trader.Base.{◌≡◌, refl, false, List, [], ◌∷◌, Num, dec, of_ℕ, lookup, insert, ok}
use oanda_trader.Base.Fixed.{fixed, plus, minus, times, over, whole}
use oanda_trader.Trailing.{
  buy, new_trailing_manager, TrailingStopManager, should_activate_trailing, trailing_state,
  follow_long, trail, calculate_new_stop_loss,
}
use oanda_trader.Trailing.Runs.{Follow, IsFollowed, follow_all, follow_all-IsFollowed}

program : Unit {0}
unfolding new_trailing_manager should_activate_trailing trailing_state follow_long trail
    calculate_new_stop_loss follow_all lookup insert plus minus times over whole
program = tt

abbrev manager : TrailingStopManager
manager = new_trailing_manager (dec 5 1) (dec 10 1)

abbrev position : Follow
position = record { manager = manager; stop = dec 1098 3; updates = 0 }

-- The price rises by 5, 15 and 20 pips, and falls back.
abbrev quotes : List (Num × Num)
quotes =
    (dec 11005 4, of_ℕ 10)
    ∷ (dec 11015 4, of_ℕ 10)
    ∷ (dec 11020 4, of_ℕ 10)
    ∷ (dec 11010 4, of_ℕ 10)
    ∷ []

abbrev stop_of : Follow → Num
stop_of s = s.stop

step_run :
    (calculate_new_stop_loss manager "EUR_USD" buy
      (dec 11 1)
      (dec 11005 4)
      (dec 1098 3)
      (of_ℕ 10)
      (dec 1 4))
    ≡ ok (
      manager,
      record { new_sl_price = dec 1098 3; move_amount_pips = of_ℕ 0; should_update = false },
    )
unfolding program
step_run = refl

follow_all-IsFollowed_example :
    IsFollowed "EUR_USD" buy
      (dec 11 1)
      (dec 1 4)
      position
      (follow_all "EUR_USD" buy (dec 11 1) (dec 1 4) quotes position)
follow_all-IsFollowed_example =
    follow_all-IsFollowed "EUR_USD" buy (dec 11 1) (dec 1 4) quotes position
