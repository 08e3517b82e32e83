-- ===== src/Backtest/Orders.antt =====
-- The orders of `AdvancedScalpStrategy.next` in backtest.py.
use oanda_trader.Base.{
  ℕ, ◌≤◌, ◌<◌, ◌≡◌, ◌⊎◌, refl, inl, inr, Bool, true, false, Option, none, some, List, [], ◌∷◌,
  arith, ltb, Bool-cases, Float, Num, ◌≼◌, ◌≺◌, dec, nought, lt,
}
use oanda_trader.Base.NumberLaws.{dec_nonneg, ⊗_nonneg, le-⊕, ⊖-le}
use oanda_trader.Timeframe.{Signal, buy, sell}
use oanda_trader.Strategies.{Candle, Library, Reading, get_signal_with_confidence}
use oanda_trader.Backtest.{
  Order, market, stop, limit, Params, distance, bracket, orders_for, scalp_next,
}

module _ ⦃F : Float⦄ where
  -- An entry with a stop on the side of loss and a limit on the side of profit.
  abbrev pub IsProtected : Num → Signal → List Order → Type 0
  IsProtected close buy orders =
      (p : Num) × (q : Num) × (orders ≡ market buy ∷ stop sell p ∷ limit sell q ∷ [])
      × (p ≼ close)
      × (close ≼ q)
  IsProtected close sell orders =
      (p : Num) × (q : Num) × (orders ≡ market sell ∷ stop buy p ∷ limit buy q ∷ [])
      × (close ≼ p)
      × (q ≼ close)

  -- What the orders of a bar are.
  abbrev pub IsEntry : Params → ℕ → Bool → Num → Reading → List Order → Type 0
  IsEntry p bars position close r orders =
      ((orders ≡ [])
        × ((bars < 50)
            ⊎ (position ≡ true)
            ⊎ (r.signal ≡ none)
            ⊎ (r.confidence ≺ p.confidence_threshold)))
      ⊎ ((50 ≤ bars)
          × (position ≡ false)
          × (p.confidence_threshold ≼ r.confidence)
          × ((s : Signal) × (r.signal ≡ some s) × IsProtected close s orders))

  distance_nonneg : (atr mult : Num) (n : ℕ) → nought ≼ mult → nought ≼ distance atr mult (dec n 3)
  distance_nonneg atr mult n h = elim (Bool-cases (lt nought atr)) [
    | inl e ↦ rw e (⊗_nonneg atr mult (ground arith) h)
    | inr e ↦ rw e (dec_nonneg n 3)
  ]

  module _ (p : Params) (stops : nought ≼ p.atr_stop_mult)
      (profits : nought ≼ p.atr_profit_mult) where
    bracket-IsProtected :
        (s : Signal) (atr close : Num) → IsProtected close s (bracket p s atr close)
    unfolding bracket
    bracket-IsProtected buy atr close = (
      _,
      _,
      refl,
      ⊖-le close _ (distance_nonneg atr p.atr_stop_mult 1 stops),
      le-⊕ close _ (distance_nonneg atr p.atr_profit_mult 2 profits),
    )
    bracket-IsProtected sell atr close = (
      _,
      _,
      refl,
      le-⊕ close _ (distance_nonneg atr p.atr_stop_mult 1 stops),
      ⊖-le close _ (distance_nonneg atr p.atr_profit_mult 2 profits),
    )

    signal-IsEntry :
        (bars : ℕ) (position : Bool) (close : Num) (o : Option Signal) (c atr : Num)
        → 50 ≤ bars
        → let r : Reading = record { signal = o; confidence = c; atr = atr } in
          IsEntry p bars position close r (orders_for p position close r)
    unfolding orders_for
    signal-IsEntry bars position close none c atr h = inl (refl, inr (inr (inl refl)))
    signal-IsEntry bars true close (some s) c atr h = inl (ground arith, inr (inl refl))
    signal-IsEntry bars false close (some s) c atr h =
        elim (Bool-cases (lt c p.confidence_threshold)) [
          | inl e ↦ rw e (inl (refl, inr (inr (inr (ground arith)))))
          | inr e ↦ rw e (inr (h, refl, ground arith, (s, refl, bracket-IsProtected s atr close)))
        ]

    -- With stop and profit multipliers that are not negative, a bar gives either no orders, with fewer
    -- than 50 bars, a position held, no signal or too little confidence, or, with none of these, one
    -- entry the way of the signal, a stop on the side of loss of the close, or at it, and a limit on
    -- the side of profit, or at it.
    pub scalp_next-IsEntry :
        (lib : Library) (bars : ℕ) (recent : List Candle) (position : Bool) (close : Num)
        → IsEntry p bars position close
            (get_signal_with_confidence lib recent "advanced_scalp")
            (scalp_next lib p bars recent position close)
    unfolding scalp_next
    scalp_next-IsEntry lib bars recent position close = elim (Bool-cases (ltb bars 50)) [
      | inl e ↦ rw e (inl (refl, inl (ground arith)))
      | inr e ↦
          let r = get_signal_with_confidence lib recent "advanced_scalp" in
          rw e (signal-IsEntry bars position close r.signal r.confidence r.atr (ground arith))
    ]
