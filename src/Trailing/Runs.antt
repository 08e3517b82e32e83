-- ===== src/Trailing/Runs.antt =====
-- The stop of trailing_stops.py over all the calls for a position.
use oanda_trader.Base.{
  ℕ, ◌+◌, ◌≡◌, true, List, [], ◌∷◌, arith, String, Float, Num, nought, eq, Result, ok,
  zero_division, ◌>>=◌,
}
use oanda_trader.Trailing.{Direction, TrailingStopManager, Update, calculate_new_stop_loss}
use oanda_trader.Trailing.Stops.{
  Tightens, Tightens-refl, Tightens-trans, Moves-Tightens, moves_of, one_if, IsStopUpdate,
  calculate_new_stop_loss-IsStopUpdate,
}

module _ ⦃F : Float⦄ where
  -- A position as its stop is followed: the manager, the stop, and how often it was moved.
  pub record Follow : Type 0 where
    pub manager : TrailingStopManager
    pub stop : Num
    pub updates : ℕ

  module _ (i : String) (direction : Direction) (entry pip : Num) where
    abbrev pub after_update : ℕ → TrailingStopManager × Update → Result Follow
    after_update n (m, u) =
        ok (record { manager = m; stop = u.new_sl_price; updates = n + one_if u.should_update })

    -- The calls for a position at its prices, each with the ATR, each on the stop of the one before.
    unfoldable pub follow_all : List (Num × Num) → Follow → Result Follow
    follow_all [] s = ok s
    follow_all ((price, atr) ∷ quotes) s =
        calculate_new_stop_loss s.manager i direction entry price s.stop atr pip
        >>= after_update s.updates
        >>= follow_all quotes

    -- The whole run: the stop is no looser, and the manager has counted every move, or the pip size
    -- is 0.
    abbrev pub IsFollowed : Follow → Result Follow → Type 0
    IsFollowed s (ok s') =
        Tightens direction s.stop s'.stop
        × (moves_of s'.manager i + s.updates ≡ moves_of s.manager i + s'.updates)
    IsFollowed s zero_division = eq pip nought ≡ true

    after_update-IsFollowed :
        (s : Follow) (price atr : Num) (r : Result (TrailingStopManager × Update))
        → IsStopUpdate s.manager i direction price s.stop atr pip r
        → IsFollowed s (◌>>=◌ r (after_update s.updates))
    after_update-IsFollowed s price atr zero_division h = h
    after_update-IsFollowed s price atr (ok (m, u)) h = (
      Moves-Tightens u.should_update direction price _ s.stop u.new_sl_price h.stop_moves,
      omega (arith, h.counted),
    )

    IsFollowed-trans :
        (s s' : Follow) (r : Result Follow)
        → IsFollowed s (ok s')
        → IsFollowed s' r
        → IsFollowed s r
    IsFollowed-trans s s' zero_division h k = k
    IsFollowed-trans s s' (ok t) h k =
        (Tightens-trans direction s.stop s'.stop t.stop h.0 k.0, omega (arith, h.1, k.1))

    >>=-IsFollowed :
        (s : Follow) (r : Result Follow) (f : Follow → Result Follow)
        → IsFollowed s r
        → ((s' : Follow) → IsFollowed s' (f s'))
        → IsFollowed s (◌>>=◌ r f)
    >>=-IsFollowed s zero_division f h k = h
    >>=-IsFollowed s (ok s') f h k = IsFollowed-trans s s' (f s') h (k s')

    -- Over all the calls for a position, whatever the prices and the volatility are, the stop never
    -- gets looser than it was, and the manager counts every time it was moved; the run fails only
    -- for a pip size of 0.
    pub follow_all-IsFollowed :
        (quotes : List (Num × Num)) (s : Follow) → IsFollowed s (follow_all quotes s)
    unfolding follow_all
    follow_all-IsFollowed [] s = (Tightens-refl direction s.stop, omega arith)
    follow_all-IsFollowed ((price, atr) ∷ quotes) s =
        let call = calculate_new_stop_loss s.manager i direction entry price s.stop atr pip in
        >>=-IsFollowed s (◌>>=◌ call (after_update s.updates)) (follow_all quotes)
          (after_update-IsFollowed s price atr call
            (calculate_new_stop_loss-IsStopUpdate s.manager i direction entry price s.stop atr pip))
          (follow_all-IsFollowed quotes)
