-- ===== src/Risk/Orders.antt =====
-- risk_manager.py: the class `OrderResponseHandler`. A response is the dictionary of the API with the
-- keys that the code reads; an empty transaction is one that is missing, as in the code's tests.
use oanda_trader.Base.{
  ◌≡◌, ◌⊎◌, refl, Bool, true, false, not, Option, none, some, arith, Bool-cases, inl, inr,
  if◌then◌else◌, String, Float, Num, ◌⊖◌, ◌⊗◌, ◌⊘◌, ◌≼◌, ◌≺◌, ◌≃◌, is_some, of_ℕ, nought, lt, le,
  eq, abs,
}
use oanda_trader.Base.NumberLaws.{⊖_nonneg}

pub data FillStatus : Type 0 where
  unknown error no_fill partial_fill full_fill cancelled pending : FillStatus

pub data PartialFillStrategy : Type 0 where
  accept retry cancel other : PartialFillStrategy

module _ ⦃F : Float⦄ where
  -- `orderFillTransaction`, its numbers converted by `float`
  pub record FillTransaction : Type 0 where
    pub fill_id : Option String
    pub units : Num
    pub price : Num
    pub instrument : Option String
    pub time : Option String
    pub pl : Num
    pub reason : Option String

  pub record CancelTransaction : Type 0 where
    pub order_id : Option String
    pub reason : Option String

  pub record CreateTransaction : Type 0 where
    pub create_id : Option String
    pub units : Option Num

  -- What the API answers: no dictionary at all, or one with these keys.
  pub data OrderResponse : Type 0 where
    invalid : OrderResponse
    failed : String → OrderResponse
    answered : CreateTransaction → Option FillTransaction → Option CancelTransaction → OrderResponse

  pub record OrderInfo : Type 0 where
    pub success : Bool
    pub order_id : Option String
    pub fill_status : FillStatus
    pub requested_units : Num
    pub filled_units : Num
    pub fill_price : Num
    pub instrument : Option String
    pub time : Option String
    pub pl : Num
    pub reason : Option String
    pub error_text : Option String

  -- An answer that has no fill, with its texts: the numbers of a fill are not set.
  abbrev unfilled : Option String → FillStatus → Option String → Option String → OrderInfo
  unfilled id status text why = record {
    success = false;
    order_id = id;
    fill_status = status;
    requested_units = nought;
    filled_units = nought;
    fill_price = nought;
    instrument = none;
    time = none;
    pl = nought;
    reason = why;
    error_text = text;
  }

  -- `.get('reason', default)`
  abbrev reason_or : Option String → String → Option String
  reason_or none d = some d
  reason_or (some r) d = some r

  abbrev requested : CreateTransaction → Num
  requested c = elim c.units [ none ↦ nought | some u ↦ abs u ]

  unfoldable pub fill_status_of : Num → Num → FillStatus
  fill_status_of requested filled =
      if eq filled nought
      then no_fill
      else (if lt filled requested then partial_fill else full_fill)

  unfoldable pub parse_order_response : OrderResponse → OrderInfo
  unfolding fill_status_of
  parse_order_response invalid = unfilled none unknown (some "Invalid response format") none
  parse_order_response (failed message) = unfilled none error (some message) none
  parse_order_response (answered create (some fill) _) = record {
    success = true;
    order_id = fill.fill_id;
    fill_status = fill_status_of (requested create) (abs fill.units);
    requested_units = requested create;
    filled_units = abs fill.units;
    fill_price = fill.price;
    instrument = fill.instrument;
    time = fill.time;
    pl = fill.pl;
    reason = reason_or fill.reason "MARKET_ORDER";
    error_text = none;
  }
  parse_order_response (answered create none (some c)) =
      unfilled c.order_id cancelled (reason_or c.reason "Order cancelled") c.reason
  parse_order_response (answered create none none) =
      unfilled create.create_id pending (some "Order created but status unknown") none

  -- The action, with the units it speaks of.
  pub data FillAction : Type 0 where
    no_action : FillAction
    accept_fill : Num → FillAction
    cancel_small : Num → FillAction
    retry_rest : Num → FillAction
    cancel_fill : FillAction
    accept_default : FillAction

  -- `filled / expected * 100`
  unfoldable pub filled_pct : Num → Num → Num
  filled_pct filled expected = if lt nought expected then (filled ⊘ expected) ⊗ of_ℕ 100 else nought

  abbrev partial_action : PartialFillStrategy → Num → Num → FillAction
  partial_action accept filled expected =
      if le (of_ℕ 50) (filled_pct filled expected) then accept_fill filled else cancel_small filled
  partial_action retry filled expected = retry_rest (expected ⊖ filled)
  partial_action cancel filled expected = cancel_fill
  partial_action other filled expected = accept_default

  abbrev pub is_partial : FillStatus → Bool
  is_partial partial_fill = true
  is_partial _ = false

  unfoldable pub handle_partial_fill : OrderInfo → Num → PartialFillStrategy → FillAction
  unfolding filled_pct
  handle_partial_fill info expected strategy =
      if is_partial info.fill_status
      then partial_action strategy info.filled_units expected
      else no_action

  -- What the API answered, where the parsed answer has a status.
  abbrev pub Reports : FillStatus → OrderResponse → Type 0
  Reports unknown r = r ≡ invalid
  Reports error r = (message : String) × (r ≡ failed message)
  Reports no_fill r =
      (create : CreateTransaction) × (fill : FillTransaction) × (c : Option CancelTransaction) × (r
        ≡ answered create (some fill) c)
      × (abs fill.units ≃ nought)
  Reports partial_fill r =
      (create : CreateTransaction) × (fill : FillTransaction) × (c : Option CancelTransaction) × (r
        ≡ answered create (some fill) c)
      × (eq (abs fill.units) nought ≡ false)
      × (abs fill.units ≺ requested create)
  Reports full_fill r =
      (create : CreateTransaction) × (fill : FillTransaction) × (c : Option CancelTransaction) × (r
        ≡ answered create (some fill) c)
      × (eq (abs fill.units) nought ≡ false)
      × (requested create ≼ abs fill.units)
  Reports cancelled r =
      (create : CreateTransaction) × (c : CancelTransaction) × (r ≡ answered create none (some c))
  Reports pending r = (create : CreateTransaction) × (r ≡ answered create none none)

  -- The transaction that filled an order, if one did.
  abbrev pub fill_of : OrderResponse → Option FillTransaction
  fill_of (answered create fill c) = fill
  fill_of r = none

  -- A parsed answer has the figures of the fill and says success for one, and no figures without.
  abbrev pub HasFill : Option FillTransaction → OrderInfo → Type 0
  HasFill none info =
      (info.success ≡ false) × (info.filled_units ≡ nought) × (is_some info.error_text ≡ true)
  HasFill (some fill) info =
      (info.success ≡ true)
      × (info.filled_units ≡ abs fill.units)
      × (info.fill_price ≡ fill.price)
      × (info.pl ≡ fill.pl)
      × (info.order_id ≡ fill.fill_id)
      × (info.error_text ≡ none)

  -- What an action says, where a part of the requested units was filled.
  abbrev pub IsFit : OrderInfo → Num → FillAction → Type 0
  IsFit info expected no_action = is_partial info.fill_status ≡ false
  IsFit info expected (accept_fill u) = (u ≡ info.filled_units) × (of_ℕ 50 ≼ filled_pct u expected)
  IsFit info expected (cancel_small u) = (u ≡ info.filled_units) × (filled_pct u expected ≺ of_ℕ 50)
  IsFit info expected (retry_rest u) = (expected ≺ info.requested_units) ⊎ (nought ≼ u)
  IsFit info expected cancel_fill = is_partial info.fill_status ≡ true
  IsFit info expected accept_default = is_partial info.fill_status ≡ true

  abbrev pub is_no_action : FillAction → Bool
  is_no_action no_action = true
  is_no_action _ = false

  partial_small :
      (r : OrderResponse)
      → let info = parse_order_response r in
        is_partial info.fill_status ≡ true → info.filled_units ≺ info.requested_units
  unfolding parse_order_response
  partial_small invalid e = cc
  partial_small (failed message) e = cc
  partial_small (answered create (some fill) c) e = ground arith
  partial_small (answered create none (some c)) e = cc
  partial_small (answered create none none) e = cc

  partial_action-IsFit :
      (info : OrderInfo) (expected : Num) (strategy : PartialFillStrategy)
      → info.filled_units ≺ info.requested_units
      → is_partial info.fill_status ≡ true
      → (is_no_action (partial_action strategy info.filled_units expected) ≡ false)
        × IsFit info expected (partial_action strategy info.filled_units expected)
  partial_action-IsFit info expected accept h p =
      elim (Bool-cases (le (of_ℕ 50) (filled_pct info.filled_units expected))) [
        | inl e ↦ rw e (refl, (refl, ground arith))
        | inr e ↦ rw e (refl, (refl, ground arith))
      ]
  partial_action-IsFit info expected retry h p = (
    refl,
    elim (Bool-cases (lt expected info.requested_units)) [
      | inl e ↦ inl (ground arith)
      | inr e ↦ inr (⊖_nonneg expected info.filled_units (ground arith))
    ],
  )
  partial_action-IsFit info expected cancel h p = (refl, p)
  partial_action-IsFit info expected other h p = (refl, p)

  -- For the parsed answer of any order: an action is taken exactly for a partial fill; a fill is
  -- accepted only at 50 percent of the expected units or more and cancelled as too small only below;
  -- and the rest to retry is not negative if at least the requested units were expected.
  handle-parse :
      (r : OrderResponse) (expected : Num) (strategy : PartialFillStrategy)
      → let info = parse_order_response r in
        let action = handle_partial_fill info expected strategy in
        (is_no_action action ≡ not (is_partial info.fill_status)) × IsFit info expected action
  unfolding handle_partial_fill
  handle-parse r expected strategy =
      let info = parse_order_response r in
      elim (Bool-cases (is_partial info.fill_status)) [
        | inl e ↦ rw e (partial_action-IsFit info expected strategy (partial_small r e) e)
        | inr e ↦ rw e (refl, e)
      ]
