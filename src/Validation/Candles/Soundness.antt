-- ===== src/Validation/Candles/Soundness.antt =====
-- The data that `validate_candle_data` of validation.py accepts.
use oanda_trader.Base.{
  ℕ, ◌≤◌, ◌≡◌, ◌≢◌, ◌↔◌, ◌∙◌, refl, Bool, true, false, not, List, [], ◌∷◌, arith, length, All-map,
  not-ltb→le, filter, ltb, String, contains, All, is_some, Float, Bool-cases, inl, inr,
}
use oanda_trader.Strategies.{Candle}
use oanda_trader.Validation.Candles.{
  CandleVerdict, valid_candles, Field, price_columns, required_columns, count_of, is_invalid,
  at_most_zero, check_nan, check_positive, check_prices, least_candles, validate_candle_data,
}
use oanda_trader.Validation.Candles.Rows.{
  IsSound, check_nan-valid, check_prices-valid, rows-IsSound,
}

module _ ⦃F : Float⦄ where
  all_pass :
      (test : Candle → Bool) (df : List Candle)
      → All (λ c. test c ≡ false) df
      → ltb 0 (count_of test df) ≡ false
  unfolding filter
  all_pass test [] h = refl
  all_pass test (c ∷ df) (e, h) = rw e (all_pass test df h)

  IsSound-tests :
      (c : Candle)
      → IsSound c
      → All (λ (f : Field). not (is_some (f.1 c)) ≡ false) price_columns
        × (is_invalid c ≡ false)
        × All (λ (f : Field). at_most_zero (f.1 c) ≡ false) price_columns
  IsSound-tests c s =
      let (o, h, l, k, eo, eh, el, ek, pos, lo, oh, lk, kh) = s.prices in
      (
        (ground (arith, eo), (ground (arith, eh), (ground (arith, el), (ground (arith, ek), tt)))),
        ground (arith, eo, eh, el, ek, lo, oh, lk, kh),
        (
          ground (arith, eo, pos, lo),
          (
            ground (arith, eh, pos, lo, oh),
            (ground (arith, el, pos), (ground (arith, ek, pos, lk), tt)),
          ),
        ),
      )

  check_nan-all :
      (fields : List Field) (df : List Candle) (rest : CandleVerdict)
      → All (λ f. All (λ c. not (is_some (f.1 c)) ≡ false) df) fields
      → check_nan fields df rest ≡ rest
  unfolding check_nan
  check_nan-all [] df rest h = refl
  check_nan-all ((name, cell) ∷ fields) df rest (h, hs) =
      rw (all_pass (λ c. not (is_some (cell c))) df h) (check_nan-all fields df rest hs)

  check_positive-all :
      (fields : List Field) (df : List Candle)
      → All (λ f. All (λ c. at_most_zero (f.1 c) ≡ false) df) fields
      → check_positive fields df ≡ valid_candles
  unfolding check_positive
  check_positive-all [] df h = refl
  check_positive-all ((name, cell) ∷ fields) df (h, hs) =
      rw (all_pass (λ c. at_most_zero (cell c)) df h) (check_positive-all fields df hs)

  nan_columns :
      (df : List Candle)
      → All IsSound df
      → All (λ (f : Field). All (λ c. not (is_some (f.1 c)) ≡ false) df) price_columns
  nan_columns df h = (
    All-map df (λ c k. (IsSound-tests c k).0.0) h,
    (
      All-map df (λ c k. (IsSound-tests c k).0.1.0) h,
      (
        All-map df (λ c k. (IsSound-tests c k).0.1.1.0) h,
        (All-map df (λ c k. (IsSound-tests c k).0.1.1.1.0) h, tt),
      ),
    ),
  )

  positive_columns :
      (df : List Candle)
      → All IsSound df
      → All (λ (f : Field). All (λ c. at_most_zero (f.1 c) ≡ false) df) price_columns
  positive_columns df h = (
    All-map df (λ c k. (IsSound-tests c k).2.0) h,
    (
      All-map df (λ c k. (IsSound-tests c k).2.1.0) h,
      (
        All-map df (λ c k. (IsSound-tests c k).2.1.1.0) h,
        (All-map df (λ c k. (IsSound-tests c k).2.1.1.1.0) h, tt),
      ),
    ),
  )

  check_prices-all : (df : List Candle) → All IsSound df → check_prices df ≡ valid_candles
  unfolding check_prices
  check_prices-all df h =
      rw (all_pass is_invalid df (All-map df (λ c k. (IsSound-tests c k).1) h))
        (check_positive-all price_columns df (positive_columns df h))

  -- The checks on the rows accept just sound rows.
  rows_iff :
      (df : List Candle)
      → (check_nan price_columns df (check_prices df) ≡ valid_candles) ↔ All IsSound df
  rows_iff df = (
    λ e.
        let (f, nan) = check_nan-valid price_columns df (check_prices df) e in
        let (q, r) = check_prices-valid df f in rows-IsSound df nan q r,
    λ h.
        check_nan-all price_columns df (check_prices df) (nan_columns df h) ∙ check_prices-all df h,
  )

  missing_lem :
      (columns wanted : List String)
      → (ltb 0 (length (filter (λ col. not (contains col columns)) wanted)) ≡ false)
        ↔ All (λ col. contains col columns ≡ true) wanted
  unfolding filter
  missing_lem columns [] = (λ e. tt, λ h. refl)
  missing_lem columns (w ∷ ws) = elim (Bool-cases (contains w columns)) [
    | inl e ↦ rw e (λ h. (refl, (missing_lem columns ws).0 h), λ p. (missing_lem columns ws).1 p.1)
    | inr e ↦ rw e (λ h. absurd (ground (arith, h)), λ p. absurd (ground (arith, p.0)))
  ]

  -- Data are valid exactly if there are candles, as many as the least number, every required column
  -- is there, and in every row the four prices are there, positive, and the open and the close lie
  -- between the low and the high. The least number is 1 for an instrument with 10Y in its name.
  pub validate_candle_data_iff :
      (columns : List String) (df : List Candle) (instrument : String) (min_candles : ℕ)
      → (validate_candle_data columns df instrument min_candles ≡ valid_candles) ↔ (
          (df ≢ [])
          × (least_candles instrument min_candles ≤ length df)
          × All (λ col. contains col columns ≡ true) required_columns
          × All IsSound df)
  unfolding validate_candle_data
  validate_candle_data_iff columns [] instrument n =
      (λ e. absurd (ground arith), λ p. absurd (p.0 refl))
  validate_candle_data_iff columns (c ∷ cs) instrument n =
      let few = ltb (length (c ∷ cs)) (least_candles instrument n) in
      let nonempty : c ∷ cs ≢ [] = ground arith in
      let enough = not-ltb→le (length (c ∷ cs)) (least_candles instrument n) in
      let missing = missing_lem columns required_columns in
      elim (Bool-cases few) [
        | inl h ↦ rw h (λ e. absurd (ground arith), λ p. absurd (ground (arith, p.1, h)))
        | inr h ↦
            elim (Bool-cases
              (ltb 0 (length (filter (λ col. not (contains col columns)) required_columns)))) [
                | inl k ↦
                    rw (h, k)
                      (λ e. absurd (ground arith), λ p. absurd (ground (arith, missing.1 p.2, k)))
                | inr k ↦
                    rw (h, k)
                      (
                        λ e. (nonempty, enough h, missing.0 k, (rows_iff (c ∷ cs)).0 e),
                        λ p. (rows_iff (c ∷ cs)).1 p.3,
                      )
              ]
      ]
