-- ===== src/Examples/Risk.antt =====
-- Runs of risk_manager.py: a manager for three positions, and answers of the API.
use oanda_trader.Base.{
  contains, ◌≡◌, ◌↔◌, refl, Option, none, some, List, [], ◌∷◌, Num, dec, of_ℕ, nought, length, has,
  String, lookup, insert, erase, ◌⊖◌,
}
use oanda_trader.Base.Fixed.{fixed, plus, minus, times, over, whole}
use oanda_trader.Risk.{
  RiskManager, ApiPosition, allowed, base_currency, remove_first, group, new_risk_manager, reset,
  track_position, track_api, track_all, update_positions_from_api, can_open_position,
  register_position, close_position,
}
use oanda_trader.Risk.Limits.{
  Permits, WithinLimits, Event, try_open, close, handle, handle_all, can_open_position_iff,
  handle_all-new_risk_manager,
}
use oanda_trader.Risk.Groups.{with_base}
use oanda_trader.Risk.Positions.{counts, tracked, update_positions_from_api_lem}
use oanda_trader.Risk.Orders.{
  OrderResponse, answered, retry, parse_order_response, handle_partial_fill, fill_status_of,
  filled_pct, retry_rest,
}

program : Unit {0}
unfolding base_currency contains remove_first group new_risk_manager reset track_position track_api
    track_all update_positions_from_api can_open_position register_position close_position handle
    handle_all with_base counts tracked parse_order_response handle_partial_fill fill_status_of
    filled_pct lookup insert erase plus minus times over whole
program = tt

abbrev manager : RiskManager
manager = new_risk_manager 3 (dec 2 2) (dec 1 1) 2 (of_ℕ 100_000)

-- A trade of 1000 units that risks 100 of 10000.
abbrev buy : String → Event
buy i = try_open i (of_ℕ 1000) (of_ℕ 100) (of_ℕ 10_000) (of_ℕ 1)

abbrev trades : List Event
trades = buy "EUR_USD" ∷ buy "EUR_GBP" ∷ buy "EUR_JPY" ∷ close "EUR_USD" ∷ buy "USD_JPY" ∷ []

trades_run : (handle_all manager trades).position_count ≡ 2
unfolding program
trades_run = refl

handle_all-new_risk_manager_example : WithinLimits 3 2 (handle_all manager trades)
handle_all-new_risk_manager_example =
    handle_all-new_risk_manager 3 2 (dec 2 2) (dec 1 1) (of_ℕ 100_000) trades

can_open_position_iff_example :
    (can_open_position manager "EUR_USD" (of_ℕ 1000) (of_ℕ 100) (of_ℕ 10_000) ≡ allowed)
    ↔ Permits manager "EUR_USD" (of_ℕ 1000) (of_ℕ 100) (of_ℕ 10_000)
can_open_position_iff_example =
    can_open_position_iff manager "EUR_USD" (of_ℕ 1000) (of_ℕ 100) (of_ℕ 10_000)

abbrev api : Option String → Num → Num → ApiPosition
api i l s = record { instrument = i; long = l; short = s; profit = nought }

abbrev reported : List ApiPosition
reported =
    api (some "EUR_USD") (of_ℕ 1000) nought
    ∷ api none (of_ℕ 5) nought
    ∷ api (some "EUR_GBP") nought (nought ⊖ of_ℕ 200)
    ∷ api (some "USD_JPY") nought nought
    ∷ []

update_positions_from_api_lem_example :
    let after = update_positions_from_api manager reported in
    (after.position_count ≡ length (tracked reported))
    × ((i : String) → has i after.open_positions ≡ contains i (tracked reported))
    × ((k : String) → group k after.correlation_groups ≡ with_base k (tracked reported))
    × (after.total_risk_amount ≡ nought)
update_positions_from_api_lem_example = update_positions_from_api_lem manager reported

tracked_run : tracked reported ≡ "EUR_USD" ∷ "EUR_GBP" ∷ []
unfolding program
tracked_run = refl

-- 400 of 1000 requested units filled.
abbrev response : OrderResponse
response =
    answered (record { create_id = some "1"; units = some (of_ℕ 1000) })
      (some (record {
        fill_id = some "2";
        units = of_ℕ 400;
        price = dec 11 1;
        instrument = some "EUR_USD";
        time = none;
        pl = nought;
        reason = none;
      }))
      none

response_run :
    handle_partial_fill (parse_order_response response) (of_ℕ 1000) retry ≡ retry_rest (of_ℕ 600)
unfolding program
response_run = refl
