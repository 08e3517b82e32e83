-- ===== src/Validation/Orders.antt =====
-- validation.py: the checks of `DataValidator` on orders, on the average true range and on price gaps. Numbers are finite here, so the tests on types and on NaN are those for `None`.
use oanda_trader.Base.{
  ◌≡◌, ◌↔◌, refl, Bool, true, false, not, ◌||◌, Option, none, some, arith, is_some, if◌then◌else◌,
  String, same_text, Float, Num, ◌⊖◌, ◌⊗◌, ◌⊘◌, ◌≼◌, ◌≺◌, dec, of_ℕ, nought, lt, le, eq, abs,
  Bool-cases, inl, inr,
}
use text.Mathlib.Text.{find?}

-- `part in text`
abbrev pub in_text : String → String → Bool
in_text part text = is_some (find? text part)

-- The verdict on a distance in pips.
pub data PipsVerdict : Type 0 where
  reasonable not_positive out_of_range : PipsVerdict

abbrev pub is_reasonable : PipsVerdict → Bool
is_reasonable reasonable = true
is_reasonable _ = false

module _ ⦃F : Float⦄ where
  -- The size of a pip.
  abbrev pub pip_size : String → Num
  pip_size instrument = if in_text "JPY" instrument then dec 1 2 else dec 1 4

  pub data OrderVerdict : Type 0 where
    invalid_instrument : OrderVerdict
    invalid_units : OrderVerdict
    below_minimum : Num → OrderVerdict
    above_maximum : Num → OrderVerdict
    bad_stop_loss : PipsVerdict → OrderVerdict
    bad_take_profit : PipsVerdict → OrderVerdict
    valid_order : OrderVerdict

  -- The tests on a distance in pips, where there is one.
  unfoldable pub check_pips : Option Num → PipsVerdict
  check_pips none = reasonable
  check_pips (some pips) =
      if le pips nought
      then not_positive
      else (if lt pips (dec 1 1) || lt (of_ℕ 1000) pips then out_of_range else reasonable)

  -- The checks from the units on.
  unfoldable pub validate_units : Num → Option Num → Option Num → Num → Num → OrderVerdict
  unfolding check_pips
  validate_units units stop_loss take_profit max_units min_units =
      if lt units min_units
      then below_minimum units
      else (if lt max_units units
          then above_maximum units
          else (if not (is_reasonable (check_pips stop_loss))
              then bad_stop_loss (check_pips stop_loss)
              else (if not (is_reasonable (check_pips take_profit))
                  then bad_take_profit (check_pips take_profit)
                  else valid_order)))

  unfoldable pub validate_order_params :
      Option String → Option Num → Option Num → Option Num → Num → Num → OrderVerdict
  unfolding validate_units
  validate_order_params none units stop_loss take_profit max_units min_units = invalid_instrument
  validate_order_params (some instrument) none stop_loss take_profit max_units min_units =
      if same_text instrument "" then invalid_instrument else invalid_units
  validate_order_params (some instrument) (some units) stop_loss take_profit max_units min_units =
      if same_text instrument ""
      then invalid_instrument
      else validate_units (abs units) stop_loss take_profit max_units min_units

  pub data AtrVerdict : Type 0 where
    no_atr negative_atr zero_atr valid_atr : AtrVerdict

  -- The verdict, and the value that is used; a very large one is only logged.
  unfoldable pub validate_atr : Option Num → AtrVerdict × Num
  validate_atr none = (no_atr, nought)
  validate_atr (some atr) =
      if lt atr nought
      then (negative_atr, nought)
      else (if eq atr nought then (zero_atr, nought) else (valid_atr, atr))

  unfoldable pub detect_price_gap : Option Num → Option Num → Num → Bool × Num
  detect_price_gap (some current) (some previous) threshold_pct =
      if eq previous nought
      then (false, nought)
      else (let gap_pct = abs ((current ⊖ previous) ⊘ previous) ⊗ of_ℕ 100 in
          (lt threshold_pct gap_pct, gap_pct))
  detect_price_gap _ _ threshold_pct = (false, nought)

  -- What a distance in pips must be.
  abbrev pub IsReasonable : Option Num → Type 0
  IsReasonable none = Unit
  IsReasonable (some pips) = (nought ≺ pips) × (dec 1 1 ≼ pips) × (pips ≼ of_ℕ 1000)

  abbrev pub IsValidOrder :
      Option String → Option Num → Option Num → Option Num → Num → Num → Type 0
  IsValidOrder none units sl tp hi lo = ⊥
  IsValidOrder (some i) none sl tp hi lo = ⊥
  IsValidOrder (some i) (some units) sl tp hi lo =
      (same_text i "" ≡ false)
      × (lo ≼ abs units)
      × (abs units ≼ hi)
      × IsReasonable sl
      × IsReasonable tp

  check_pips_lem : (o : Option Num) → (is_reasonable (check_pips o) ≡ true) ↔ IsReasonable o
  unfolding check_pips
  check_pips_lem none = (λ e. tt, λ e. refl)
  check_pips_lem (some pips) =
      (λ e. (ground arith, ground arith, ground arith), λ p. ground (arith, p.0, p.1, p.2))

  validate_units_iff :
      (units : Num) (sl tp : Option Num) (hi lo : Num)
      → (validate_units units sl tp hi lo ≡ valid_order)
        ↔ ((lo ≼ units) × (units ≼ hi) × IsReasonable sl × IsReasonable tp)
  unfolding validate_units
  validate_units_iff units sl tp hi lo =
      let stop_lem = check_pips_lem sl in
      let profit_lem = check_pips_lem tp in
      (
        λ e. (ground arith, ground arith, stop_lem.0 (ground arith), profit_lem.0 (ground arith)),
        λ p. rw (stop_lem.1 p.2, profit_lem.1 p.3) (ground (arith, p.0, p.1)),
      )

  -- An order is valid exactly if it has an instrument, its units without their sign lie between the
  -- least and the most, and the stop loss and the take profit, where given, are positive and between
  -- a tenth of a pip and 1000 pips.
  validate_order_params_iff :
      (instrument : Option String) (units stop_loss take_profit : Option Num)
      (max_units min_units : Num)
      → (validate_order_params instrument units stop_loss take_profit max_units min_units
          ≡ valid_order)
        ↔ IsValidOrder instrument units stop_loss take_profit max_units min_units
  unfolding validate_order_params
  validate_order_params_iff none units sl tp hi lo = (λ e. absurd (ground arith), λ p. elim p [ ])
  validate_order_params_iff (some i) none sl tp hi lo =
      (λ e. absurd (ground arith), λ p. elim p [ ])
  validate_order_params_iff (some i) (some units) sl tp hi lo =
      let inner = validate_units_iff (abs units) sl tp hi lo in
      elim (Bool-cases (same_text i "")) [
        | inl h ↦ rw h (λ e. absurd (ground arith), λ p. absurd (ground (arith, p.0)))
        | inr h ↦ rw h (
          λ e. let q = inner.0 e in (refl, q.0, q.1, q.2, q.3),
          λ p. inner.1 (p.1, p.2, p.3, p.4),
        )
      ]
