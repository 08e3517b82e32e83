-- ===== src/Pairs/Qualification.antt =====
-- persistent_pairs.py: `check_pair_qualification`, and the data that validation.py accepts. The frame
-- is its rows, `none` where there is no frame; the sum that pandas computes of the volumes is an
-- argument. The name of the instrument and `strategy_func` are not used by the code.
use oanda_trader.Base.{
  ℕ, ◌≤◌, ◌≡◌, ◌↔◌, refl, Bool, true, false, not, ◌||◌, Option, none, some, List, [], ◌∷◌, arith,
  length, ltb, not-ltb→le, if◌then◌else◌, String, All, All-map, is_some, Float, Num, ◌≺◌, nought,
  eq, Bool-cases, inl, inr,
}
use oanda_trader.Strategies.{Cell, Candle}
use oanda_trader.Validation.Candles.{
  valid_candles, at_most_zero, least_candles, validate_candle_data,
}
use oanda_trader.Validation.Candles.Rows.{IsSound}
use oanda_trader.Validation.Candles.Soundness.{validate_candle_data_iff}

module _ ⦃F : Float⦄ where
  -- `.any().any()` of a test on the cells of the four prices.
  abbrev pub any_price : (Cell → Bool) → Candle → Bool
  any_price test c = test c.open_price || (test c.high || (test c.low || test c.close))

  unfoldable pub any_row : (Candle → Bool) → List Candle → Bool
  any_row test [] = false
  any_row test (c ∷ cs) = if test c then true else any_row test cs

  unfoldable pub check_pair_qualification : (List Candle → Num) → Option (List Candle) → Bool
  unfolding any_row
  check_pair_qualification volume_sum none = false
  check_pair_qualification volume_sum (some data_df) =
      if ltb (length data_df) 30
      then false
      else (if any_row (any_price (λ a. not (is_some a))) data_df
          then false
          else (if any_row (any_price at_most_zero) data_df
              then false
              else not (eq (volume_sum data_df) nought)))

  abbrev pub IsPositive : Cell → Type 0
  IsPositive none = ⊥
  IsPositive (some a) = nought ≺ a

  -- The four prices are there and are positive.
  abbrev pub IsPriced : Candle → Type 0
  IsPriced c = IsPositive c.open_price × IsPositive c.high × IsPositive c.low × IsPositive c.close

  abbrev pub Qualifies : (List Candle → Num) → Option (List Candle) → Type 0
  Qualifies volume_sum none = ⊥
  Qualifies volume_sum (some df) =
      (30 ≤ length df) × All IsPriced df × (eq (volume_sum df) nought ≡ false)

  IsPositive-iff :
      (a : Cell) → ((not (is_some a) ≡ false) × (at_most_zero a ≡ false)) ↔ IsPositive a
  IsPositive-iff none = (λ h. absurd (ground (arith, h.0)), λ h. absurd h)
  IsPositive-iff (some a) = (λ h. ground (arith, h.1), λ h. (refl, ground (arith, h)))

  neither :
      (a b c d : Bool)
      → (a || (b || (c || d)) ≡ false) ↔ ((a ≡ false) × (b ≡ false) × (c ≡ false) × (d ≡ false))
  neither true b c d = (λ e. absurd (ground (arith, e)), λ e. absurd (ground (arith, e.0)))
  neither false true c d = (λ e. absurd (ground (arith, e)), λ e. absurd (ground (arith, e.1)))
  neither false false true d = (λ e. absurd (ground (arith, e)), λ e. absurd (ground (arith, e.2)))
  neither false false false d = (λ e. (refl, refl, refl, e), λ e. e.3)

  -- The two tests on a row.
  IsPriced-iff :
      (c : Candle)
      → ((any_price (λ a. not (is_some a)) c ≡ false) × (any_price at_most_zero c ≡ false))
        ↔ IsPriced c
  IsPriced-iff c =
      let missing =
        neither (not (is_some c.open_price)) (not (is_some c.high)) (not (is_some c.low))
          (not (is_some c.close)) in
      let low =
        neither (at_most_zero c.open_price) (at_most_zero c.high) (at_most_zero c.low)
          (at_most_zero c.close) in
      let o = IsPositive-iff c.open_price in
      let h = IsPositive-iff c.high in
      let l = IsPositive-iff c.low in
      let k = IsPositive-iff c.close in
      (
        λ e.
            let (a, b, d, f) = missing.0 e.0 in
            let (a', b', d', f') = low.0 e.1 in
            (o.0 (a, a'), h.0 (b, b'), l.0 (d, d'), k.0 (f, f')),
        λ p.
            let (a, a') = o.1 p.0 in
            let (b, b') = h.1 p.1 in
            let (d, d') = l.1 p.2 in
            let (f, f') = k.1 p.3 in (missing.1 (a, b, d, f), low.1 (a', b', d', f')),
      )

  All-both :
      (df : List Candle)
      → All (λ c. any_price (λ a. not (is_some a)) c ≡ false) df
      → All (λ c. any_price at_most_zero c ≡ false) df
      → All IsPriced df
  All-both [] h k = tt
  All-both (c ∷ df) (h, hs) (k, ks) = ((IsPriced-iff c).0 (h, k), All-both df hs ks)

  any_row_iff :
      (test : Candle → Bool) (df : List Candle)
      → (any_row test df ≡ false) ↔ All (λ c. test c ≡ false) df
  unfolding any_row
  any_row_iff test [] = (λ e. tt, λ h. refl)
  any_row_iff test (c ∷ df) = elim (Bool-cases (test c)) [
    | inl e ↦ rw e (λ h. absurd (ground (arith, h)), λ h. absurd (ground (arith, h.0)))
    | inr e ↦ rw e (λ h. (refl, (any_row_iff test df).0 h), λ h. (any_row_iff test df).1 h.1)
  ]

  rows_iff :
      (df : List Candle)
      → ((any_row (any_price (λ a. not (is_some a))) df ≡ false)
          × (any_row (any_price at_most_zero) df ≡ false))
        ↔ All IsPriced df
  rows_iff df =
      let missing = any_row_iff (any_price (λ a. not (is_some a))) df in
      let low = any_row_iff (any_price at_most_zero) df in
      (
        λ e. All-both df (missing.0 e.0) (low.0 e.1),
        λ p. (
          missing.1 (All-map df (λ c h. ((IsPriced-iff c).1 h).0) p),
          low.1 (All-map df (λ c h. ((IsPriced-iff c).1 h).1) p),
        ),
      )

  gates :
      (a b c d : Bool)
      → ((if a then false else (if b then false else (if c then false else not d))) ≡ true)
        ↔ ((a ≡ false) × (b ≡ false) × (c ≡ false) × (d ≡ false))
  gates true b c d = (λ e. absurd (ground (arith, e)), λ e. absurd (ground (arith, e.0)))
  gates false true c d = (λ e. absurd (ground (arith, e)), λ e. absurd (ground (arith, e.1)))
  gates false false true d = (λ e. absurd (ground (arith, e)), λ e. absurd (ground (arith, e.2)))
  gates false false false d = (λ e. (refl, refl, refl, ground (arith, e)), λ e. ground (arith, e.3))

  -- A pair qualifies exactly if there are 30 rows or more, in each of which the four prices are there
  -- and positive, and the sum of the volumes is not 0.
  pub check_pair_qualification_iff :
      (volume_sum : List Candle → Num) (data_df : Option (List Candle))
      → (check_pair_qualification volume_sum data_df ≡ true) ↔ Qualifies volume_sum data_df
  unfolding check_pair_qualification
  check_pair_qualification_iff volume_sum none = (λ e. absurd (ground (arith, e)), λ h. absurd h)
  check_pair_qualification_iff volume_sum (some df) =
      let gate =
        gates (ltb (length df) 30) (any_row (any_price (λ a. not (is_some a))) df)
          (any_row (any_price at_most_zero) df) (eq (volume_sum df) nought) in
      (
        λ e.
            let (few, missing, low, quiet) = gate.0 e in
            (not-ltb→le (length df) 30 few, (rows_iff df).0 (missing, low), quiet),
        λ h.
            let (missing, low) = (rows_iff df).1 h.1 in
            let enough : ltb (length df) 30 ≡ false = ground (arith, h.0) in
            gate.1 (enough, missing, low, h.2),
      )

  IsSound-IsPriced : (c : Candle) → IsSound c → IsPriced c
  IsSound-IsPriced c s =
      let (o, h, l, k, eo, eh, el, ek, pos, lo, oh, lk, kh) = s.prices in
      rw (eo, eh, el, ek)
        (omega (arith, pos, lo), omega (arith, pos, lo, oh), pos, omega (arith, pos, lk))

  -- Data that `validate_candle_data` accepts qualify the pair too, if it asks for 30 candles or more,
  -- the instrument is not one of those for which it asks for one only, and the sum of the volumes is
  -- not 0.
  pub check_pair_qualification-validate_candle_data :
      (volume_sum : List Candle → Num) (columns : List String) (df : List Candle)
      (instrument : String) (min_candles : ℕ)
      → 30 ≤ least_candles instrument min_candles
      → eq (volume_sum df) nought ≡ false
      → validate_candle_data columns df instrument min_candles ≡ valid_candles
      → check_pair_qualification volume_sum (some df) ≡ true
  check_pair_qualification-validate_candle_data volume_sum columns df instrument n h v e =
      let (some_rows, enough, _, sound) = (validate_candle_data_iff columns df instrument n).0 e in
      (check_pair_qualification_iff volume_sum (some df)).1
        (omega (arith, h, enough), All-map df IsSound-IsPriced sound, v)
