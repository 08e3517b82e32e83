-- ===== src/Trailing.antt =====
-- trailing_stops.py: the class `TrailingStopManager`. The dictionary of an instrument, which the code
-- changes in place, is written back where a step ends.
use oanda_trader.Base.{
  ℕ, ◌+◌, Bool, true, false, Option, none, some, List, [], if◌then◌else◌, String, Dict, lookup,
  insert, erase, keys, Float, Num, ◌⊕◌, ◌⊖◌, ◌⊗◌, ◌⊘◌, dec, nought, lt, le, max, min, Result, ok,
  ◌>>=◌, divide,
}
pub mod Stops
pub mod Runs

-- 'BUY', and any other text.
pub data Direction : Type 0 where
  buy sell : Direction

module _ ⦃F : Float⦄ where
  pub record TrailingState : Type 0 where
    pub highest_price : Option Num
    pub lowest_price : Option Num
    pub last_sl_update : Num
    pub total_moves : ℕ

  pub record TrailingStopManager : Type 0 where
    pub atr_multiplier : Num
    pub activation_multiplier : Num
    pub position_trailing_state : Dict TrailingState

  -- What `calculate_new_stop_loss` returns.
  pub record Update : Type 0 where
    pub new_sl_price : Num
    pub move_amount_pips : Num
    pub should_update : Bool

  unfoldable pub new_trailing_manager : Num → Num → TrailingStopManager
  new_trailing_manager move activation = record {
    atr_multiplier = move;
    activation_multiplier = activation;
    position_trailing_state = [];
  }

  unfoldable pub should_activate_trailing : TrailingStopManager → Num → Num → Bool
  should_activate_trailing m profit atr =
      if le atr nought then false else le (m.activation_multiplier ⊗ atr) profit

  abbrev pub unmoved : Num → Update
  unmoved sl = record { new_sl_price = sl; move_amount_pips = nought; should_update = false }

  -- The state of the instrument, a new one the first time.
  unfoldable pub trailing_state : TrailingStopManager → String → Num → TrailingState
  trailing_state m i sl = elim (lookup i m.position_trailing_state) [
    | none ↦ record {
      highest_price = none;
      lowest_price = none;
      last_sl_update = sl;
      total_moves = 0;
    }
    | some t ↦ t
  ]

  abbrev pub store : TrailingStopManager → String → TrailingState → TrailingStopManager
  store m i t = record m { position_trailing_state = insert i t m.position_trailing_state }

  -- The state after a move of the stop.
  abbrev pub moved : TrailingState → Num → TrailingState
  moved t sl = record t { last_sl_update = sl; total_moves = t.total_moves + 1 }

  abbrev pub is_new_high : Option Num → Num → Bool
  is_new_high none price = true
  is_new_high (some p) price = lt p price

  abbrev pub is_new_low : Option Num → Num → Bool
  is_new_low none price = true
  is_new_low (some p) price = lt price p

  -- The branch of a long position, with the move as a price.
  unfoldable pub follow_long : TrailingState → Num → Num → Num → Num → TrailingState × Update
  follow_long t price sl move pip =
      let seen = record t { highest_price = some price } in
      let new = min (sl ⊕ move) (price ⊖ move ⊗ dec 5 1) in
      if is_new_high t.highest_price price
      then (if lt sl new
          then (
            moved seen new,
            record {
              new_sl_price = new;
              move_amount_pips = (new ⊖ sl) ⊘ pip;
              should_update = true;
            },
          )
          else (seen, unmoved sl))
      else (t, unmoved sl)

  unfoldable pub follow_short : TrailingState → Num → Num → Num → Num → TrailingState × Update
  follow_short t price sl move pip =
      let seen = record t { lowest_price = some price } in
      let new = max (sl ⊖ move) (price ⊕ move ⊗ dec 5 1) in
      if is_new_low t.lowest_price price
      then (if lt new sl
          then (
            moved seen new,
            record {
              new_sl_price = new;
              move_amount_pips = (sl ⊖ new) ⊘ pip;
              should_update = true;
            },
          )
          else (seen, unmoved sl))
      else (t, unmoved sl)

  abbrev pub follow : Direction → TrailingState → Num → Num → Num → Num → TrailingState × Update
  follow buy t price sl move pip = follow_long t price sl move pip
  follow sell t price sl move pip = follow_short t price sl move pip

  abbrev pub gain : Direction → Num → Num → Num
  gain buy entry price = price ⊖ entry
  gain sell entry price = entry ⊖ price

  -- The part behind the first division.
  unfoldable pub trail :
      TrailingStopManager
      → String
      → Direction
      → Num
      → Num
      → Num
      → Num
      → Num
      → TrailingStopManager × Update
  unfolding should_activate_trailing trailing_state follow_long follow_short
  trail m i direction price sl atr pip profit =
      let r =
        follow direction (trailing_state m i sl) price sl ((m.atr_multiplier ⊗ atr) ⊗ pip) pip in
      if should_activate_trailing m profit atr then (store m i r.0, r.1) else (m, unmoved sl)

  unfoldable pub calculate_new_stop_loss :
      TrailingStopManager
      → String
      → Direction
      → Num
      → Num
      → Num
      → Num
      → Num
      → Result (TrailingStopManager × Update)
  unfolding trail
  calculate_new_stop_loss m i direction entry price sl atr pip = do
    profit ← divide (gain direction entry price) pip
    ok (trail m i direction price sl atr pip profit)

  -- What `get_trailing_stats` shows: nothing for an instrument without a state.
  unfoldable pub get_trailing_stats : TrailingStopManager → String → Option TrailingState
  get_trailing_stats m i = lookup i m.position_trailing_state

  unfoldable pub clear_instrument_state : TrailingStopManager → String → TrailingStopManager
  clear_instrument_state m i = record m {
    position_trailing_state = erase i m.position_trailing_state;
  }

  unfoldable pub get_all_active_instruments : TrailingStopManager → List String
  get_all_active_instruments m = keys m.position_trailing_state
