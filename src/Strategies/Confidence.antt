-- ===== src/Strategies/Confidence.antt =====
-- What a reading of strategies.py says: when there is a signal, and how sure it is.
use oanda_trader.Base.{
  ℕ, ◌≡◌, ◌≤◌, ◌↔◌, refl, is_some, Bool, true, false, ◌&&◌, ◌||◌, Option, none, some, List, [], ◌∷◌,
  ◌++◌, arith, if◌then◌else◌, Float, Num, ◌⊕◌, ◌≼◌, dec, nought, one, All,
}
use oanda_trader.Base.NumberLaws.{dec_nonneg, le-⊕, le-⊕_right, ⊕_nonneg, ≼_refl, ≼_trans}
use oanda_trader.Analytics.{sum, sum_from}
use oanda_trader.Timeframe.{buy, sell}
use oanda_trader.Strategies.{
  Cell, below, Candle, Library, Table, Reading, no_reading, rsi_oversold, rsi_overbought,
  macd_bullish_cross, macd_bearish_cross, price_near_lower, price_near_upper, confidence_factors,
  confidence_of, read_table, checked_table, calculate_indicators, advanced_scalp,
}

module _ ⦃F : Float⦄ where
  le-sum_from : (acc : Num) (xs : List Num) → All (λ x. nought ≼ x) xs → acc ≼ sum_from acc xs
  unfolding sum_from
  le-sum_from acc [] h = ≼_refl acc
  le-sum_from acc (x ∷ xs) (h, hs) =
      ≼_trans acc (acc ⊕ x) _ (le-⊕ acc x h) (le-sum_from (acc ⊕ x) xs hs)

  pub part_le-one : (m : ℕ) → m ≤ 10 → dec m 1 ≼ one
  part_le-one m h = omega (arith, F.dec_mono m 10 1 h, F.dec_shift 1 0)

  abbrev AreNonneg : List Num → Type 0
  AreNonneg = All (λ x. nought ≼ x)

  ++-AreNonneg : (xs ys : List Num) → AreNonneg xs → AreNonneg ys → AreNonneg (xs ++ ys)
  ++-AreNonneg [] ys h k = k
  ++-AreNonneg (x ∷ xs) ys (p, h) k = (p, ++-AreNonneg xs ys h k)

  if-AreNonneg : (b : Bool) (m : ℕ) → AreNonneg (if b then dec m 1 ∷ [] else [])
  if-AreNonneg true m = (dec_nonneg m 1, tt)
  if-AreNonneg false m = tt

  -- The sum is at least what it starts from, and at least each part.
  le-sum_append :
      (acc x : Num) (xs ys : List Num)
      → nought ≼ acc
      → nought ≼ x
      → AreNonneg xs
      → AreNonneg ys
      → x ≼ sum_from acc (xs ++ x ∷ ys)
  unfolding sum_from
  le-sum_append acc x [] ys h k l m =
      ≼_trans x (acc ⊕ x) _ (le-⊕_right acc x h) (le-sum_from (acc ⊕ x) ys m)
  le-sum_append acc x (w ∷ xs) ys h k (l, ls) m =
      le-sum_append (acc ⊕ w) x xs ys (⊕_nonneg acc w h l) k ls m

  base-AreNonneg :
      (extreme near : Bool)
      → AreNonneg (if extreme then dec 3 1 ∷ [] else (if near then dec 2 1 ∷ [] else []))
  base-AreNonneg true near = (dec_nonneg 3 1, tt)
  base-AreNonneg false near = if-AreNonneg near 2

  -- Three tenths of the sum are those of the crossing.
  factors_lem :
      (extreme near squeeze volume histogram : Bool)
      → dec 3 1 ≼ sum (confidence_factors extreme near squeeze volume histogram)
  factors_lem extreme near squeeze volume histogram =
      le-sum_append nought (dec 3 1)
        (if extreme then dec 3 1 ∷ [] else (if near then dec 2 1 ∷ [] else [])) _ (≼_refl nought)
        (dec_nonneg 3 1) (base-AreNonneg extreme near)
        (++-AreNonneg (if squeeze then dec 1 1 ∷ [] else []) _ (if-AreNonneg squeeze 1) (
          ++-AreNonneg (if volume then dec 2 1 ∷ [] else []) _ (if-AreNonneg volume 2)
            (if-AreNonneg histogram 1)))

  confidence_of_lem :
      (extreme near squeeze volume histogram : Bool)
      → let c = confidence_of (confidence_factors extreme near squeeze volume histogram) in
        (dec 3 1 ≼ c) × (c ≼ one)
  unfolding confidence_of
  confidence_of_lem extreme near squeeze volume histogram = (
    ground (arith, factors_lem extreme near squeeze volume histogram, part_le-one 3 (omega arith)),
    ground arith,
  )

  -- How sure a reading is.
  abbrev pub IsRated : Reading → Type 0
  IsRated r = elim r.signal [
    | none ↦ r.confidence ≡ nought
    | some s ↦ (dec 3 1 ≼ r.confidence) × (r.confidence ≼ one)
  ]

  below_asymm : (a b : Cell) → below a b ≡ true → below b a ≡ false
  below_asymm (some a) (some b) h = ground arith
  below_asymm none b h = absurd (ground arith)
  below_asymm (some a) none h = absurd (ground arith)

  -- The conditions of the two signals, as they stand in the code.
  abbrev pub buy_test : Table → Bool
  buy_test t = (rsi_oversold t || price_near_lower t) && macd_bullish_cross t

  abbrev pub sell_test : Table → Bool
  sell_test t = (rsi_overbought t || price_near_upper t) && macd_bearish_cross t

  abbrev pub is_ready : Table → Bool
  is_ready t = is_some (t.rsi 0) && (is_some (t.macd 0) && is_some (t.atr 0))

  -- A crossing goes one way.
  buy_test-sell_test : (t : Table) → buy_test t ≡ true → sell_test t ≡ false
  buy_test-sell_test t h = ground (arith, below_asymm (t.macd 1) (t.macd_signal 1))

  -- What the reading of a table is worth, if there is a table.
  abbrev pub IsReading : Option Table → Reading → Type 0
  IsReading none r = (r.signal ≡ none) × (r.confidence ≡ nought)
  IsReading (some t) r =
      ((r.signal ≡ some buy) ↔ (is_ready t && buy_test t ≡ true))
      × ((r.signal ≡ some sell) ↔ (is_ready t && sell_test t ≡ true))
      × IsRated r

  -- A reading that is chosen by two tests that exclude each other.
  choice_lem :
      (b s : Bool) (x y atr : Num)
      → (b ≡ true → s ≡ false)
      → (dec 3 1 ≼ x) × (x ≼ one)
      → (dec 3 1 ≼ y) × (y ≼ one)
      → let r : Reading =
          if b
          then record { signal = some buy; confidence = x; atr = atr }
          else (if s
              then record { signal = some sell; confidence = y; atr = atr }
              else record { signal = none; confidence = nought; atr = atr }) in
        ((r.signal ≡ some buy) ↔ (b ≡ true)) × ((r.signal ≡ some sell) ↔ (s ≡ true)) × IsRated r
  choice_lem true true x y atr h k l = absurd (ground (arith, h refl))
  choice_lem true false x y atr h k l =
      ((λ e. refl, λ e. refl), (λ e. absurd (ground arith), λ e. absurd (ground arith)), k)
  choice_lem false true x y atr h k l =
      ((λ e. absurd (ground arith), λ e. absurd (ground arith)), (λ e. refl, λ e. refl), l)
  choice_lem false false x y atr h k l = (
    (λ e. absurd (ground arith), λ e. absurd (ground arith)),
    (λ e. absurd (ground arith), λ e. absurd (ground arith)),
    refl,
  )

  module _ (lib : Library) where
    read_table_lem :
        (t : Table) (ratio atr : Num)
        → let r = read_table lib t ratio atr in
          ((r.signal ≡ some buy) ↔ (buy_test t ≡ true))
          × ((r.signal ≡ some sell) ↔ (sell_test t ≡ true))
          × IsRated r
    unfolding read_table
    read_table_lem t ratio atr =
        choice_lem (buy_test t) (sell_test t) _ _ atr (buy_test-sell_test t)
          (confidence_of_lem _ _ _ _ _) (confidence_of_lem _ _ _ _ _)

    no_reading_lem :
        (b s : Bool)
        → ((none ≡ some buy) ↔ (false && b ≡ true))
          × ((none ≡ some sell) ↔ (false && s ≡ true))
          × IsRated no_reading
    no_reading_lem b s = (
      (λ e. absurd (ground arith), λ e. absurd (ground arith)),
      (λ e. absurd (ground arith), λ e. absurd (ground arith)),
      refl,
    )

    checked_table_lem :
        (t : Table) (ratio : Num) (rsi macd atr : Cell)
        → let r = checked_table lib t ratio rsi macd atr in
          let ready = is_some rsi && (is_some macd && is_some atr) in
          ((r.signal ≡ some buy) ↔ (ready && buy_test t ≡ true))
          × ((r.signal ≡ some sell) ↔ (ready && sell_test t ≡ true))
          × IsRated r
    checked_table_lem t ratio (some rsi) (some macd) (some atr) = read_table_lem t ratio atr
    checked_table_lem t ratio none macd atr = no_reading_lem (buy_test t) (sell_test t)
    checked_table_lem t ratio (some rsi) none atr = no_reading_lem (buy_test t) (sell_test t)
    checked_table_lem t ratio (some rsi) (some macd) none =
        no_reading_lem (buy_test t) (sell_test t)

    read_all_lem :
        (table : Option Table) (ratio : Num)
        → IsReading table (elim table [
          | none ↦ no_reading
          | some t ↦ checked_table lib t ratio (t.rsi 0) (t.macd 0) (t.atr 0)
        ])
    read_all_lem none ratio = (refl, refl)
    read_all_lem (some t) ratio = checked_table_lem t ratio (t.rsi 0) (t.macd 0) (t.atr 0)

    read_all-IsRated :
        (table : Option Table) (ratio : Num)
        → IsRated (elim table [
          | none ↦ no_reading
          | some t ↦ checked_table lib t ratio (t.rsi 0) (t.macd 0) (t.atr 0)
        ])
    read_all-IsRated none ratio = refl
    read_all-IsRated (some t) ratio = (checked_table_lem t ratio (t.rsi 0) (t.macd 0) (t.atr 0)).2

    -- The reading is that of the table, if there is one.
    pub advanced_scalp-IsReading :
        (df : List Candle) (atr_period volume_ma_period : ℕ) (ratio : Num)
        → IsReading
            (calculate_indicators lib df atr_period volume_ma_period)
            (advanced_scalp lib df atr_period volume_ma_period ratio)
    unfolding advanced_scalp
    advanced_scalp-IsReading df atr_period volume_ma_period ratio =
        read_all_lem (calculate_indicators lib df atr_period volume_ma_period) ratio

    -- Whatever the table, the reading is rated.
    pub advanced_scalp-IsRated :
        (df : List Candle) (atr_period volume_ma_period : ℕ) (ratio : Num)
        → IsRated (advanced_scalp lib df atr_period volume_ma_period ratio)
    unfolding advanced_scalp
    advanced_scalp-IsRated df a v ratio = read_all-IsRated (calculate_indicators lib df a v) ratio
