-- ===== src/Strategies/Conditions.antt =====
-- When `advanced_scalp` of strategies.py gives a signal, by the columns that it reads.
use oanda_trader.Base.{
  ℕ, ◌≤◌, ◌≡◌, ◌↔◌, ◌⊎◌, inl, inr, refl, is_some, Bool, true, false, ◌&&◌, ◌||◌, none, some, List,
  arith, length, ltb, Bool-cases, Float, Num, ◌⊗◌, ◌≺◌, nought, dec, of_ℕ,
}
use mathlib.Core.Path.{subst}
use oanda_trader.Timeframe.{buy, sell}
use oanda_trader.Strategies.{
  Cell, below, both, Candle, Library, Table, Reading, rows_needed, indicator_table,
  calculate_indicators, advanced_scalp,
}
use oanda_trader.Strategies.Confidence.{
  IsRated, IsReading, is_ready, buy_test, sell_test, advanced_scalp-IsReading,
}

module _ {A B : Type 0} (a b : Bool) (f : (a ≡ true) ↔ A) (g : (b ≡ true) ↔ B) where
  and_iff : (a && b ≡ true) ↔ A × B
  and_iff = (λ h. (f.0 (ground arith), g.0 (ground arith)), λ (x, y). ground (arith, f.1 x, g.1 y))

  or_iff : (a || b ≡ true) ↔ A ⊎ B
  or_iff = (
    λ h. elim (Bool-cases a) [ inl e ↦ inl (f.0 e) | inr e ↦ inr (g.0 (ground arith)) ],
    λ h. elim h [ inl x ↦ ground (arith, f.1 x) | inr y ↦ ground (arith, g.1 y) ],
  )

module _ ⦃F : Float⦄ where
  -- A cell has a number.
  abbrev pub Known : Cell → Type 0
  Known c = (x : Num) × (c ≡ some x)

  is_some-Known : (c : Cell) → (is_some c ≡ true) ↔ Known c
  is_some-Known (some x) = (λ h. (x, refl), λ k. refl)
  is_some-Known none = (λ h. absurd (ground arith), λ (x, e). absurd (ground arith))

  -- Two cells have numbers, the first of which is the smaller.
  abbrev pub Below : Cell → Cell → Type 0
  Below c d = (x : Num) × (y : Num) × (c ≡ some x) × (d ≡ some y) × (x ≺ y)

  Below-below : (c d : Cell) (x y : Num) → c ≡ some x → d ≡ some y → x ≺ y → below c d ≡ true
  Below-below c d x y e f h = rw (e, f) (ground arith)

  below_iff : (c d : Cell) → (below c d ≡ true) ↔ Below c d
  below_iff (some x) (some y) =
      (λ h. (x, y, refl, refl, ground arith), λ (u, v, e, f, h). Below-below _ _ u v e f h)
  below_iff none d = (λ h. absurd (ground arith), λ (u, v, e, f, h). absurd (ground arith))
  below_iff (some x) none = (λ h. absurd (ground arith), λ (u, v, e, f, h). absurd (ground arith))

  -- A price is less than another one taken a number of times.
  abbrev pub IsUnder : Cell → Cell → Num → Type 0
  IsUnder price band times =
      (x : Num) × (y : Num) × (price ≡ some x) × (band ≡ some y) × (x ≺ y ⊗ times)

  abbrev pub IsOver : Cell → Cell → Num → Type 0
  IsOver price band times =
      (x : Num) × (y : Num) × (price ≡ some x) × (band ≡ some y) × (y ⊗ times ≺ x)

  IsUnder-below :
      (price band : Cell) (times x y : Num)
      → price ≡ some x
      → band ≡ some y
      → x ≺ y ⊗ times
      → below price (both (λ a b. a ⊗ b) band (some times)) ≡ true
  IsUnder-below price band times x y e f h = rw (e, f) (ground arith)

  IsOver-below :
      (price band : Cell) (times x y : Num)
      → price ≡ some x
      → band ≡ some y
      → y ⊗ times ≺ x
      → below (both (λ a b. a ⊗ b) band (some times)) price ≡ true
  IsOver-below price band times x y e f h = rw (e, f) (ground arith)

  below-IsUnder :
      (price band : Cell) (times : Num)
      → (below price (both (λ a b. a ⊗ b) band (some times)) ≡ true) ↔ IsUnder price band times
  below-IsUnder (some x) (some y) times =
      (λ h. (x, y, refl, refl, ground arith), λ (u, v, e, f, h). IsUnder-below _ _ times u v e f h)
  below-IsUnder none band times =
      (λ h. absurd (ground arith), λ (u, v, e, f, h). absurd (ground arith))
  below-IsUnder (some x) none times =
      (λ h. absurd (ground arith), λ (u, v, e, f, h). absurd (ground arith))

  below-IsOver :
      (price band : Cell) (times : Num)
      → (below (both (λ a b. a ⊗ b) band (some times)) price ≡ true) ↔ IsOver price band times
  below-IsOver (some x) (some y) times =
      (λ h. (x, y, refl, refl, ground arith), λ (u, v, e, f, h). IsOver-below _ _ times u v e f h)
  below-IsOver none none times =
      (λ h. absurd (ground arith), λ (u, v, e, f, h). absurd (ground arith))
  below-IsOver none (some y) times =
      (λ h. absurd (ground arith), λ (u, v, e, f, h). absurd (ground arith))
  below-IsOver (some x) none times =
      (λ h. absurd (ground arith), λ (u, v, e, f, h). absurd (ground arith))

  module _ (lib : Library) (df : List Candle) where
    -- RSI under 30 or the price near the lower band, and the MACD rises through its signal.
    abbrev pub Buys : Type 0
    Buys =
        (Below (lib.rsi 14 df 0) (some (of_ℕ 30))
          ⊎ IsUnder (lib.close df 0) (lib.bollinger_lband 20 2 df 0) (dec 101 2))
        × (Below (lib.macd df 1) (lib.macd_signal df 1)
            × Below (lib.macd_signal df 0) (lib.macd df 0))

    -- RSI over 70 or the price near the upper band, and the MACD falls through its signal.
    abbrev pub Sells : Type 0
    Sells =
        (Below (some (of_ℕ 70)) (lib.rsi 14 df 0)
          ⊎ IsOver (lib.close df 0) (lib.bollinger_hband 20 2 df 0) (dec 99 2))
        × (Below (lib.macd_signal df 1) (lib.macd df 1)
            × Below (lib.macd df 0) (lib.macd_signal df 0))

    module _ (atr_period volume_ma_period : ℕ) where
      -- There are rows for every window, and the last one has RSI, MACD and ATR.
      abbrev pub IsReadable : Type 0
      IsReadable =
          ((26 ≤ length df) × (atr_period ≤ length df) × (volume_ma_period ≤ length df))
          × (Known (lib.rsi 14 df 0)
              × (Known (lib.macd df 0) × Known (lib.average_true_range atr_period df 0)))

      -- When a reading signals, and how sure it is.
      abbrev pub IsScalp : Reading → Type 0
      IsScalp r =
          ((r.signal ≡ some buy) ↔ (IsReadable × Buys))
          × ((r.signal ≡ some sell) ↔ (IsReadable × Sells))
          × IsRated r

      abbrev table : Table
      table = indicator_table lib df atr_period volume_ma_period

      buys_iff : (buy_test table ≡ true) ↔ Buys
      buys_iff =
          and_iff _ _ (or_iff _ _ (below_iff _ _) (below-IsUnder _ _ _))
            (and_iff _ _ (below_iff _ _) (below_iff _ _))

      sells_iff : (sell_test table ≡ true) ↔ Sells
      sells_iff =
          and_iff _ _ (or_iff _ _ (below_iff _ _) (below-IsOver _ _ _))
            (and_iff _ _ (below_iff _ _) (below_iff _ _))

      ready_iff : (is_ready table ≡ true) ↔ (
          Known (lib.rsi 14 df 0)
          × (Known (lib.macd df 0) × Known (lib.average_true_range atr_period df 0)))
      ready_iff = and_iff _ _ (is_some-Known _) (and_iff _ _ (is_some-Known _) (is_some-Known _))

      -- With enough rows.
      with_rows :
          {S C : Type 0}
          → (26 ≤ length df) × (atr_period ≤ length df) × (volume_ma_period ≤ length df)
          → {b : Bool} → S ↔ (is_ready table && b ≡ true)
          → (b ≡ true) ↔ C
          → S ↔ (IsReadable × C)
      with_rows rows {b} f g =
          let h = and_iff (is_ready table) b ready_iff g in
          (λ s. let (k, c) = h.0 (f.0 s) in ((rows, k), c), λ ((e, k), c). f.1 (h.1 (k, c)))

      read_rows :
          (r : Reading)
          → (26 ≤ length df) × (atr_period ≤ length df) × (volume_ma_period ≤ length df)
          → IsReading (some table) r
          → IsScalp r
      read_rows r rows (f, g, rated) =
          (with_rows rows f buys_iff, with_rows rows g sells_iff, rated)

      no_rows :
          (r : Reading)
          → (26 ≤ length df) × (atr_period ≤ length df) × (volume_ma_period ≤ length df) ↔ ⊥
          → (r.signal ≡ none) × (r.confidence ≡ nought)
          → IsScalp r
      no_rows r few (e, f) = (
        (λ h. absurd (ground (arith, e, h)), λ (k, c). absurd (few.0 k.0)),
        (λ h. absurd (ground (arith, e, h)), λ (k, c). absurd (few.0 k.0)),
        rw (e, IsRated) f,
      )

      table_none :
          ltb (length df) (rows_needed atr_period volume_ma_period) ≡ true
          → calculate_indicators lib df atr_period volume_ma_period ≡ none
      unfolding calculate_indicators
      table_none h = rw h refl

      table_enough :
          ltb (length df) (rows_needed atr_period volume_ma_period) ≡ false
          → calculate_indicators lib df atr_period volume_ma_period ≡ some table
      unfolding calculate_indicators
      table_enough h = rw h refl

      -- The strategy buys exactly if there are 26 rows and as many as each window, the last row has
      -- RSI, MACD and ATR, the RSI is under 30 or the price under 1.01 times the lower band, and the
      -- MACD rises through its signal line from the row before; it sells exactly if there are the rows
      -- and the values, the RSI is over 70 or the price over 0.99 times the upper band, and the MACD
      -- falls through its signal line. A signal has a confidence of three tenths at least and of 1 at
      -- most, and no signal has none.
      pub advanced_scalp-IsScalp :
          (ratio : Num) → IsScalp (advanced_scalp lib df atr_period volume_ma_period ratio)
      advanced_scalp-IsScalp ratio =
          let r = advanced_scalp lib df atr_period volume_ma_period ratio in
          let reading = advanced_scalp-IsReading lib df atr_period volume_ma_period ratio in
          elim (Bool-cases (ltb (length df) (rows_needed atr_period volume_ma_period))) [
            | inl e ↦
                no_rows r (λ h. ground arith, λ h. absurd h)
                  (subst (λ t. IsReading t r) (table_none e) reading)
            | inr e ↦
                read_rows r (ground arith, ground arith, ground arith)
                  (subst (λ t. IsReading t r) (table_enough e) reading)
          ]
