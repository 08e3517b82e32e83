-- ===== src/Predictor/Features.antt =====
-- ml_predictor.py: `_engineer_features`, row by row, and what they are on sound rows. A quotient of
-- pandas by 0 is infinite, and NaN for 0 / 0; `fillna` fills NaN only.
use oanda_trader.Base.{
  suc, ◌≡◌, refl, ap, Bool, true, false, Option, none, some, List, [], ◌∷◌, arith, length, take,
  ltb, if◌then◌else◌, All, Float, Num, Numpy, ◌⊕◌, ◌⊖◌, ◌⊘◌, ◌≼◌, ◌≺◌, dec, of_ℕ, nought, one, eq,
  Bool-cases, inl, inr,
}
use oanda_trader.Base.NumberLaws.{
  half_le-one, ≼_refl, ≼_trans, dec_nonneg, ⊖_nonneg, ⊘_nonneg, ⊘-le-one,
}
use oanda_trader.Strategies.{Cell, Candle}
use oanda_trader.Validation.Candles.Rows.{IsSound}

module _ ⦃F : Float⦄ where
  -- A float as pandas computes it.
  pub data Value : Type 0 where
    finite : Num → Value
    infinite nan : Value

  abbrev pub divide_values : Num → Num → Value
  divide_values a b =
      if eq b nought then (if eq a nought then nan else infinite) else finite (a ⊘ b)

  -- `f(a) / b` of cells that may be NaN
  abbrev pub quotient : Cell → Cell → Value
  quotient (some a) (some b) = divide_values a b
  quotient _ _ = nan

  abbrev pub both_cells : (Num → Num → Num) → Cell → Cell → Cell
  both_cells f (some a) (some b) = some (f a b)
  both_cells f _ _ = none

  -- `.fillna(d)`
  abbrev pub fillna : Num → Value → Value
  fillna d nan = finite d
  fillna d v = v

  -- A row of the frame with the bands, which are used if the frame has their columns.
  pub record Row : Type 0 where
    pub candle : Candle
    pub bb_upper : Cell
    pub bb_lower : Cell

  pub record Features : Type 0 where
    pub price_change : Value
    pub high_low_range : Value
    pub close_position_in_range : Value
    pub bb_width : Value
    pub volume_ratio : Value

  -- The values of cells, if none is missing.
  abbrev pub all_values : List Cell → Option (List Num)
  all_values [] = some []
  all_values (none ∷ cells) = none
  all_values (some a ∷ cells) = elim (all_values cells) [ none ↦ none | some as_ ↦ some (a ∷ as_) ]

  abbrev pub mean_of : Numpy → Option (List Num) → Cell
  mean_of np none = none
  mean_of np (some as_) = some (np.mean as_)

  -- `rolling(20).mean()` at a row, from its volume and those before it, the latest first.
  unfoldable pub volume_mean : Numpy → List Cell → Cell
  volume_mean np recent =
      if ltb (length recent) 20 then none else mean_of np (all_values (take 20 recent))

  abbrev pub band_width : Cell → Cell → Value
  band_width upper lower =
      quotient (both_cells (λ a b. a ⊖ b) upper lower)
        (both_cells (λ a b. (a ⊕ b) ⊘ of_ℕ 2) upper lower)

  module _ (np : Numpy) (has_bands has_volume : Bool) where
    -- `recent` has the volumes up to the row.
    unfoldable pub features_of : List Cell → Row → Features
    unfolding volume_mean
    features_of recent r =
        let c = r.candle in
        record {
          price_change = quotient (both_cells (λ a b. a ⊖ b) c.close c.open_price) c.open_price;
          high_low_range = quotient (both_cells (λ a b. a ⊖ b) c.high c.low) c.close;
          close_position_in_range = fillna (dec 5 1) (
              quotient (both_cells (λ a b. a ⊖ b) c.close c.low)
                (both_cells (λ a b. a ⊖ b) c.high c.low));
          bb_width = if has_bands then band_width r.bb_upper r.bb_lower else finite nought;
          volume_ratio =
              if has_volume
              then fillna one (quotient c.volume (volume_mean np recent))
              else finite one;
        }

    unfoldable pub features_from : List Cell → List Row → List Features
    unfolding features_of
    features_from before [] = []
    features_from before (r ∷ rows) =
        let recent = r.candle.volume ∷ before in features_of recent r ∷ features_from recent rows

    unfoldable pub engineer_features : List Row → List Features
    unfolding features_from
    engineer_features rows = features_from [] rows

  -- A share.
  abbrev pub IsShare : Value → Type 0
  IsShare (finite a) = (nought ≼ a) × (a ≼ one)
  IsShare _ = ⊥

  abbrev pub IsNonneg : Value → Type 0
  IsNonneg (finite a) = nought ≼ a
  IsNonneg _ = ⊥

  -- A part over a whole, filled where both are 0.
  share_filled : (a b : Num) → nought ≼ a → a ≼ b → IsShare (fillna (dec 5 1) (divide_values a b))
  share_filled a b h k = elim (Bool-cases (eq b nought)) [
    | inl e ↦
        let z : eq a nought ≡ true = ground (arith, h, k, e) in
        rw (e, z) (dec_nonneg 5 1, half_le-one)
    | inr e ↦
        let positive : nought ≺ b = ground (arith, h, k, e) in
        rw e (⊘_nonneg a b h positive, ⊘-le-one a b k positive)
  ]

  range-IsNonneg : (a b : Num) → nought ≼ a → nought ≺ b → IsNonneg (divide_values a b)
  range-IsNonneg a b h k =
      let e : eq b nought ≡ false = ground (arith, k) in rw e (⊘_nonneg a b h k)

  -- What holds of the features of a sound row.
  pub record AreFeatures (f : Features) : Type 0 where
    pub position : IsShare f.close_position_in_range
    pub range : IsNonneg f.high_low_range

  module _ (np : Numpy) (has_bands has_volume : Bool) where
    features_of-AreFeatures :
        (recent : List Cell) (r : Row)
        → IsSound r.candle
        → AreFeatures (features_of np has_bands has_volume recent r)
    unfolding features_of
    features_of-AreFeatures recent r s =
        let (o, h, l, k, eo, eh, el, ek, pos, lo, oh, lk, kh) = s.prices in
        let inside : k ⊖ l ≼ h ⊖ l = F.sub_mono k h l l kh (≼_refl l) in
        let whole : l ≼ h = ≼_trans l k h lk kh in
        record {
          position = rw (eh, el, ek) (share_filled (k ⊖ l) (h ⊖ l) (⊖_nonneg k l lk) inside);
          range =
              rw (eh, el, ek)
                (range-IsNonneg (h ⊖ l) k (⊖_nonneg h l whole) (omega (arith, pos, lk)));
        }

    features_from-AreFeatures :
        (before : List Cell) (rows : List Row)
        → All (λ (r : Row). IsSound r.candle) rows
        → (length (features_from np has_bands has_volume before rows) ≡ length rows)
          × All AreFeatures (features_from np has_bands has_volume before rows)
    unfolding features_from
    features_from-AreFeatures before [] h = (refl, tt)
    features_from-AreFeatures before (r ∷ rows) (h, hs) =
        let recent = r.candle.volume ∷ before in
        let (n, fs) = features_from-AreFeatures recent rows hs in
        (ap suc n, (features_of-AreFeatures recent r h, fs))

    -- On rows that the validation accepts, whose prices are positive and in order, there is a row of
    -- features for each: the position of the close in the range is a finite number from 0 to 1, also
    -- where the range is empty, and the relative range is finite and not negative.
    pub engineer_features-AreFeatures :
        (rows : List Row)
        → All (λ (r : Row). IsSound r.candle) rows
        → (length (engineer_features np has_bands has_volume rows) ≡ length rows)
          × All AreFeatures (engineer_features np has_bands has_volume rows)
    unfolding engineer_features
    engineer_features-AreFeatures rows h = features_from-AreFeatures [] rows h
