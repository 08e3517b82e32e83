-- ===== src/Validation/Candles/Rows.antt =====
-- The rows of data that pass the checks of `validate_candle_data` in validation.py.
use oanda_trader.Base.{
  ◌≡◌, refl, Bool, false, not, none, some, List, [], ◌∷◌, arith, filter, ltb, All, is_some, Float,
  Num, ◌≼◌, ◌≺◌, nought, Bool-cases, inl, inr,
}
use oanda_trader.Strategies.{Cell, Candle}
use oanda_trader.Validation.Candles.{
  CandleVerdict, valid_candles, Field, price_columns, count_of, is_invalid, at_most_zero, check_nan,
  check_positive, check_prices,
}

module _ ⦃F : Float⦄ where
  -- What holds of a row of valid data.
  pub record IsSound (c : Candle) : Type 0 where
    pub prices :
        (o h l k : Num) × (c.open_price ≡ some o)
        × (c.high ≡ some h)
        × (c.low ≡ some l)
        × (c.close ≡ some k)
        × (nought ≺ l)
        × (l ≼ o)
        × (o ≼ h)
        × (l ≼ k)
        × (k ≼ h)

  none_pass :
      (test : Candle → Bool) (df : List Candle)
      → ltb 0 (count_of test df) ≡ false
      → All (λ c. test c ≡ false) df
  unfolding filter
  none_pass test [] h = tt
  none_pass test (c ∷ df) h = elim (Bool-cases (test c)) [
    | inl e ↦ absurd (ground (arith, e))
    | inr e ↦ (e, none_pass test df (ground (arith, e)))
  ]

  pub check_nan-valid :
      (fields : List Field) (df : List Candle) (rest : CandleVerdict)
      → check_nan fields df rest ≡ valid_candles
      → (rest ≡ valid_candles) × All (λ f. All (λ c. not (is_some (f.1 c)) ≡ false) df) fields
  unfolding check_nan
  check_nan-valid [] df rest h = (h, tt)
  check_nan-valid ((name, cell) ∷ fields) df rest h =
      elim (Bool-cases (ltb 0 (count_of (λ c. not (is_some (cell c))) df))) [
        | inl e ↦ absurd (ground (arith, e))
        | inr e ↦
            let ih = check_nan-valid fields df rest (ground (arith, e)) in
            (ih.0, (none_pass (λ c. not (is_some (cell c))) df e, ih.1))
      ]

  check_positive-valid :
      (fields : List Field) (df : List Candle)
      → check_positive fields df ≡ valid_candles
      → All (λ f. All (λ c. at_most_zero (f.1 c) ≡ false) df) fields
  unfolding check_positive
  check_positive-valid [] df h = tt
  check_positive-valid ((name, cell) ∷ fields) df h =
      elim (Bool-cases (ltb 0 (count_of (λ c. at_most_zero (cell c)) df))) [
        | inl e ↦ absurd (ground (arith, e))
        | inr e ↦ (
          none_pass (λ c. at_most_zero (cell c)) df e,
          check_positive-valid fields df (ground (arith, e)),
        )
      ]

  pub check_prices-valid :
      (df : List Candle)
      → check_prices df ≡ valid_candles
      → All (λ c. is_invalid c ≡ false) df
        × All (λ f. All (λ c. at_most_zero (f.1 c) ≡ false) df) price_columns
  unfolding check_prices
  check_prices-valid df h = elim (Bool-cases (ltb 0 (count_of is_invalid df))) [
    | inl e ↦ absurd (ground (arith, e))
    | inr e ↦ (none_pass is_invalid df e, check_positive-valid price_columns df (ground (arith, e)))
  ]

  value_of : (o : Cell) → not (is_some o) ≡ false → (a : Num) × (o ≡ some a)
  value_of none h = absurd (ground arith)
  value_of (some a) h = (a, refl)

  row-IsSound :
      (c : Candle)
      → not (is_some c.open_price) ≡ false
      → not (is_some c.high) ≡ false
      → not (is_some c.low) ≡ false
      → not (is_some c.close) ≡ false
      → is_invalid c ≡ false
      → at_most_zero c.low ≡ false
      → IsSound c
  row-IsSound c p q r s invalid positive =
      let (o, eo) = value_of c.open_price p in
      let (h, eh) = value_of c.high q in
      let (l, el) = value_of c.low r in
      let (k, ek) = value_of c.close s in
      record {
        prices = (
          o,
          h,
          l,
          k,
          eo,
          eh,
          el,
          ek,
          ground (arith, el, positive),
          ground (arith, eo, eh, el, ek, invalid),
          ground (arith, eo, eh, el, ek, invalid),
          ground (arith, eo, eh, el, ek, invalid),
          ground (arith, eo, eh, el, ek, invalid),
        );
      }

  pub rows-IsSound :
      (df : List Candle)
      → All (λ f. All (λ c. not (is_some (f.1 c)) ≡ false) df) price_columns
      → All (λ c. is_invalid c ≡ false) df
      → All (λ f. All (λ c. at_most_zero (f.1 c) ≡ false) df) price_columns
      → All IsSound df
  rows-IsSound [] p q r = tt
  rows-IsSound (c ∷ df) ((a, as_), ((b, bs), ((d, ds), ((e, es), u)))) (q, qs)
        ((f, fs), ((g, gs), ((i, is_), ((j, js), w)))) =
      (
        row-IsSound c a b d e q i,
        rows-IsSound df (as_, (bs, (ds, (es, u)))) qs (fs, (gs, (is_, (js, w)))),
      )
