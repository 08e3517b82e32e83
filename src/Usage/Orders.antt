-- ===== src/Usage/Orders.antt =====
-- The trades that example_usage.py shows, against the orders of backtest.py with the same settings.
use oanda_trader.Base.{
  ℕ, ◌≤◌, ◌≡◌, ◌⊎◌, ◌∙◌, ap, refl, true, false, Option, none, some, List, [], ◌∷◌, arith, length,
  ltb, Bool-cases, inl, inr, Float, Num, ◌≺◌, dec, nought, lt,
}
use oanda_trader.Timeframe.{Signal, buy, sell}
use oanda_trader.Strategies.{
  Candle, Library, Reading, Table, calculate_indicators, advanced_scalp, get_signal_with_confidence,
}
use oanda_trader.Backtest.{Order, market, stop, limit, Params, bracket, orders_for, scalp_next}
use oanda_trader.Config.{confidence_threshold, atr_stop_multiplier, atr_profit_multiplier}
use oanda_trader.Usage.{
  Shown, no_indicators, no_trade_signal, signal_rejected, trade_generated, generated, show_reading,
  demonstrate_strategy,
}

module _ ⦃F : Float⦄ where
  -- `AdvancedScalpStrategy.params`
  abbrev pub scalp_params : Params
  scalp_params = record {
    atr_stop_mult = atr_stop_multiplier;
    atr_profit_mult = atr_profit_multiplier;
    confidence_threshold = confidence_threshold;
  }

  abbrev pub opposite : Signal → Signal
  opposite buy = sell
  opposite sell = buy

  -- A trade that is shown is an entry with its two orders, and without one there are no orders.
  abbrev pub AreOrders : Shown → List Order → Type 0
  AreOrders no_indicators orders = orders ≡ []
  AreOrders no_trade_signal orders = orders ≡ []
  AreOrders (signal_rejected c) orders = orders ≡ []
  AreOrders (trade_generated s entry loss profit) orders =
      (p : Num) × (q : Num) × (loss ≡ some p)
      × (profit ≡ some q)
      × (orders ≡ market s ∷ stop (opposite s) p ∷ limit (opposite s) q ∷ [])

  generated-bracket :
      (s : Signal) (close atr : Num)
      → nought ≺ atr
      → AreOrders (generated s (some close) atr) (bracket scalp_params s atr close)
  unfolding generated bracket
  generated-bracket buy close atr h =
      let positive : lt nought atr ≡ true = ground (arith, h) in
      (_, _, refl, refl, rw positive refl)
  generated-bracket sell close atr h =
      let positive : lt nought atr ≡ true = ground (arith, h) in
      (_, _, refl, refl, rw positive refl)

  -- The two tests on the confidence are the same.
  shown-orders_for :
      (o : Option Signal) (c atr close : Num)
      → nought ≺ atr
      → let r : Reading = record { signal = o; confidence = c; atr = atr } in
        AreOrders (show_reading (some close) r) (orders_for scalp_params false close r)
  unfolding show_reading orders_for
  shown-orders_for none c atr close h = refl
  shown-orders_for (some s) c atr close h = elim (Bool-cases (lt c confidence_threshold)) [
    | inl e ↦ rw e refl
    | inr e ↦ rw e (generated-bracket s close atr h)
  ]

  module _ (lib : Library) where
    -- The table, if there are rows enough for it.
    table_cases :
        (df : List Candle)
        → (calculate_indicators lib df 14 20 ≡ none)
          ⊎ ((t : Table) × (calculate_indicators lib df 14 20 ≡ some t) × (t.close ≡ lib.close df))
    unfolding calculate_indicators
    table_cases df = elim (Bool-cases (ltb (length df) 26)) [
      | inl few ↦ rw few (inl refl)
      | inr enough ↦ rw enough (inr (_, refl, refl))
    ]

    short_reading :
        (df : List Candle)
        → calculate_indicators lib df 14 20 ≡ none
        → (advanced_scalp lib df 14 20 (dec 12 1)).atr ≡ nought
    unfolding advanced_scalp
    short_reading df few = rw (few, advanced_scalp) refl

    demonstrated :
        (df : List Candle) (t : Table) (close : Num)
        → calculate_indicators lib df 14 20 ≡ some t
        → t.close 0 ≡ some close
        → demonstrate_strategy lib df
          ≡ show_reading (some close) (advanced_scalp lib df 14 20 (dec 12 1))
    unfolding demonstrate_strategy
    demonstrated df t close e h = rw (e, demonstrate_strategy, h) refl

    -- For the same candles, from the fiftieth bar on and with no position held: the orders that the
    -- backtest gives with the settings are just the trade that the example shows, a market order with
    -- a stop at its stop loss and a limit at its take profit, and there are none where it shows no
    -- trade, if the close of the last row is the bar's, and the average true range is positive.
    pub demonstrate_strategy-scalp_next :
        (df : List Candle) (bars : ℕ) (close : Num)
        → 50 ≤ bars
        → lib.close df 0 ≡ some close
        → nought ≺ (advanced_scalp lib df 14 20 (dec 12 1)).atr
        → AreOrders (demonstrate_strategy lib df) (scalp_next lib scalp_params bars df false close)
    unfolding scalp_next get_signal_with_confidence
    demonstrate_strategy-scalp_next df bars close h e positive =
        let r = advanced_scalp lib df 14 20 (dec 12 1) in
        let enough : ltb bars 50 ≡ false = ground (arith, h) in
        elim (table_cases df) [
          | inl few ↦
              absurd (let zero_atr = short_reading df few in ground (arith, positive, zero_atr))
          | inr (t, f, g) ↦
              let shown = demonstrated df t close f (ap (λ c. c 0) g ∙ e) in
              rw (shown, enough) (shown-orders_for r.signal r.confidence r.atr close positive)
        ]
