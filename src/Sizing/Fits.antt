-- ===== src/Sizing/Fits.antt =====
-- The limits that a size given by `calculate_auto_scaled_units` of position_sizing.py keeps.
use oanda_trader.Base.{
  ok, divide, ◌>>=◌, >>=-ok, ◌≡◌, sym, Bool, true, false, some, arith, Bool-cases, inl, inr, ◌||◌,
  Float, Num, ◌⊖◌, ◌⊗◌, ◌⊘◌, ◌≼◌, ◌≺◌, of_ℕ, nought, one, lt, le, int,
}
use oanda_trader.Sizing.{get_or}
use oanda_trader.Sizing.Scaling.{
  Precision, whole_units, tens, decimals, AutoScale, sized, min_of_four, round_units, units_by_risk,
  candidate, minimum_units, accept_units, scale_units, calculate_auto_scaled_units,
}

-- A precision that does not round to tens.
abbrev pub is_single : Precision → Bool
is_single (tens n) = false
is_single _ = true

module _ ⦃F : Float⦄ where
  -- Units within every limit: the margin behind the buffer, the risk of the trade, the largest order,
  -- the largest size in an instrument, the least size and the least value.
  pub record Fits (a : AutoScale) (price rate units : Num) : Type 0 where
    pub by_margin : units ≼ (a.available_margin ⊗ (one ⊖ a.margin_buffer)) ⊘ (price ⊗ rate)
    pub by_risk : units ≼ (a.balance ⊗ a.risk_per_trade) ⊘ (a.stop_loss_pips ⊗ a.pip_value)
    pub stopped : (nought ≺ a.stop_loss_pips) × (nought ≺ a.pip_value)
    pub by_order : units ≼ get_or a.maximum_order_units (of_ℕ 100_000_000)
    pub by_instrument : units ≼ a.max_units_per_instrument
    pub large : minimum_units a ≼ units
    pub valued : a.min_trade_value ≼ units ⊗ price

  int-le : (x u : Num) → nought ≺ u → u ≼ int x → u ≼ x
  int-le x u h k = elim (Bool-cases (lt x nought)) [
    | inl e ↦
        let down = F.trunc_mono x nought (ground arith) in
        absurd (omega (arith, down, F.trunc_of_ℕ 0))
    | inr e ↦ omega (arith, F.trunc_le x (ground arith))
  ]

  round_units-le :
      (p : Precision) (u x : Num) → is_single p ≡ true → round_units p x ≡ u → nought ≺ u → u ≼ x
  unfolding round_units
  round_units-le whole_units u x h e k = int-le x u k (ground arith)
  round_units-le (tens n) u x h e k = absurd (ground arith)
  round_units-le (decimals n) u x h e k = int-le x u k (ground arith)

  accept_units-sized :
      (a : AutoScale) (price c u r : Num)
      → accept_units a price c ≡ sized u r
      → (c ≡ u) × (minimum_units a ≼ u) × (a.min_trade_value ≼ u ⊗ price)
  unfolding accept_units
  accept_units-sized a price c u r e = ground arith

  candidate-le :
      (a : AutoScale) (m r u : Num)
      → is_single a.trade_units_precision ≡ true
      → candidate a m r ≡ u
      → nought ≺ u
      → (u ≼ m)
        × (u ≼ r)
        × (u ≼ get_or a.maximum_order_units (of_ℕ 100_000_000))
        × (u ≼ a.max_units_per_instrument)
  unfolding candidate
  candidate-le a m r u s e p =
      let order = get_or a.maximum_order_units (of_ℕ 100_000_000) in
      let least = min_of_four m r order a.max_units_per_instrument in
      let below = round_units-le a.trade_units_precision u least s e p in
      (ground (arith, below), ground (arith, below), ground (arith, below), ground (arith, below))

  units_by_risk-ok :
      (a : AutoScale) (r u : Num)
      → units_by_risk a ≡ ok r
      → nought ≺ u
      → u ≼ r
      → (u ≼ (a.balance ⊗ a.risk_per_trade) ⊘ (a.stop_loss_pips ⊗ a.pip_value))
        × (nought ≺ a.stop_loss_pips)
        × (nought ≺ a.pip_value)
  unfolding units_by_risk
  units_by_risk-ok a r u e p k =
      let x = (a.balance ⊗ a.risk_per_trade) ⊘ (a.stop_loss_pips ⊗ a.pip_value) in
      let cut = int-le x u p in ground (arith, cut)

  -- The part of `scale_units` behind its guards.
  priced-Fits :
      (a : AutoScale) (price rate u r : Num)
      → is_single a.trade_units_precision ≡ true
      → nought ≺ minimum_units a
      → ◌>>=◌
          (divide (a.available_margin ⊗ (one ⊖ a.margin_buffer)) (price ⊗ rate))
          (λ m. ◌>>=◌ (units_by_risk a) (λ k. ok (accept_units a price (candidate a (int m) k))))
        ≡ ok (sized u r)
      → Fits a price rate u
  priced-Fits a price rate u r s p h =
      let effective = a.available_margin ⊗ (one ⊖ a.margin_buffer) in
      let (m, em, h') = >>=-ok (divide effective (price ⊗ rate)) _ (sized u r) h in
      let (k, ek, h'') = >>=-ok (units_by_risk a) _ (sized u r) h' in
      let accepted : accept_units a price (candidate a (int m) k) ≡ sized u r = ground arith in
      let (c, large, valued) = accept_units-sized a price (candidate a (int m) k) u r accepted in
      let positive : nought ≺ u = omega (arith, large, p) in
      let (by_m, by_k, by_order, by_instrument) = candidate-le a (int m) k u s c positive in
      let (by_risk, stop, pip) = units_by_risk-ok a k u ek positive by_k in
      let quotient : m ≡ effective ⊘ (price ⊗ rate) = ground arith in
      record {
        by_margin = int-le _ u positive (rw (sym quotient) by_m);
        by_risk = by_risk;
        stopped = (stop, pip);
        by_order = by_order;
        by_instrument = by_instrument;
        large = large;
        valued = valued;
      }

  scale_units-Fits :
      (a : AutoScale) (price rate u r : Num)
      → is_single a.trade_units_precision ≡ true
      → nought ≺ minimum_units a
      → scale_units a price rate ≡ ok (sized u r)
      → Fits a price rate u
  unfolding scale_units
  scale_units-Fits a price rate u r s p h =
      let effective = a.available_margin ⊗ (one ⊖ a.margin_buffer) in
      elim (Bool-cases (le effective nought)) [
        | inl e ↦ absurd (ground arith)
        | inr e ↦ elim (Bool-cases (le price nought || le rate nought)) [
          | inl f ↦ absurd (ground arith)
          | inr f ↦ priced-Fits a price rate u r s p (ground arith)
        ]
      ]

  -- A size that the code gives, for a precision that does not round to tens and a least size above
  -- 0, keeps all the limits at once: the margin left by the buffer, the risk of the trade with a
  -- positive stop and pip value, the largest order, the largest size of an instrument, the least
  -- size and the least value.
  pub calculate_auto_scaled_units-Fits :
      (a : AutoScale) (price rate u r : Num)
      → a.current_price ≡ some price
      → a.margin_rate ≡ some rate
      → is_single a.trade_units_precision ≡ true
      → nought ≺ minimum_units a
      → calculate_auto_scaled_units a ≡ ok (sized u r)
      → Fits a price rate u
  unfolding calculate_auto_scaled_units
  calculate_auto_scaled_units-Fits a price rate u r ep er s p h =
      scale_units-Fits a price rate u r s p (ground arith)
