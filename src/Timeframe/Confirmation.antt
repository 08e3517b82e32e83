-- ===== src/Timeframe/Confirmation.antt =====
-- What a confirmation by multi_timeframe.py says, and the trend it rests on.
use oanda_trader.Base.{
  ℕ, ◌+◌, ◌≤◌, ◌<◌, ◌≡◌, ◌⊎◌, refl, inl, inr, Option, none, some, List, [], ◌∷◌, ◌++◌, arith, ltb,
  Bool-cases, Option-cases, if◌then◌else◌, Float, Num, ◌≼◌, ◌≺◌, dec, of_ℕ, nought, one, lt,
}
use oanda_trader.Base.NumberLaws.{dec_nonneg, le-⊕, ⊖-le}
use oanda_trader.Timeframe.{
  Signal, buy, sell, Support, strong, moderate, weak, contradiction, neutral, count, support,
  Indicators, Frame, vote, trend_signals, majority, get_trend_direction, adjusted_confidence,
  confirm_signal, analyze_multi_timeframe,
}

module _ ⦃F : Float⦄ where
  abbrev pub above : Num → Num → ℕ
  above a b = if lt b a then 1 else 0

  -- How many of the three indicators point up, and how many down.
  abbrev pub ups : Indicators → ℕ
  ups l = above l.macd l.macd_signal + above l.close l.bb_middle + above l.rsi (of_ℕ 50)

  abbrev pub downs : Indicators → ℕ
  downs l = above l.macd_signal l.macd + above l.bb_middle l.close + above (of_ℕ 50) l.rsi

  count-append : (s : Signal) (xs ys : List Signal) → count s (xs ++ ys) ≡ count s xs + count s ys
  unfolding count
  count-append s [] ys = omega arith
  count-append s (x ∷ xs) ys = ground (arith, count-append s xs ys)

  count-vote :
      (a b : Num) → (count buy (vote a b) ≡ above a b) × (count sell (vote a b) ≡ above b a)
  unfolding count vote
  count-vote a b = ground arith

  count-trend_signals :
      (l : Indicators)
      → (count buy (trend_signals l) ≡ ups l) × (count sell (trend_signals l) ≡ downs l)
  unfolding trend_signals
  count-trend_signals l =
      let rest = vote l.close l.bb_middle ++ vote l.rsi (of_ℕ 50) in
      let buys : count buy (trend_signals l)
          ≡ count buy (vote l.macd l.macd_signal) + count buy rest =
        count-append buy (vote l.macd l.macd_signal) rest in
      let sells : count sell (trend_signals l)
          ≡ count sell (vote l.macd l.macd_signal) + count sell rest =
        count-append sell (vote l.macd l.macd_signal) rest in
      let buys' = count-append buy (vote l.close l.bb_middle) (vote l.rsi (of_ℕ 50)) in
      let sells' = count-append sell (vote l.close l.bb_middle) (vote l.rsi (of_ℕ 50)) in
      let (a, b) = count-vote l.macd l.macd_signal in
      let (c, d) = count-vote l.close l.bb_middle in
      let (e, f) = count-vote l.rsi (of_ℕ 50) in
      (omega (arith, buys, buys', a, c, e), omega (arith, sells, sells', b, d, f))

  -- What a trend says of the frame.
  abbrev pub IsTrend : Frame → Option Signal → Type 0
  IsTrend f (some buy) =
      (50 ≤ f.rows) × ((l : Indicators) × (f.latest ≡ some l) × (downs l < ups l))
  IsTrend f (some sell) =
      (50 ≤ f.rows) × ((l : Indicators) × (f.latest ≡ some l) × (ups l < downs l))
  IsTrend f none =
      (f.rows < 50)
      ⊎ (f.latest ≡ none)
      ⊎ ((l : Indicators) × (f.latest ≡ some l) × (ups l ≡ downs l))

  -- The trend of a frame with at least 50 rows and a row of indicators goes the way of the majority
  -- among MACD, price against the middle band, and RSI against 50; there is none at a tie, nor for
  -- fewer rows or no indicators.
  get_trend_direction-IsTrend : (f : Frame) → IsTrend f (get_trend_direction f)
  unfolding get_trend_direction majority
  get_trend_direction-IsTrend f = elim (Bool-cases (ltb f.rows 50)) [
    | inl e ↦ rw e (inl (ground arith))
    | inr e ↦ elim (Option-cases f.latest) [
      | inl g ↦ rw (e, g) (inr (inl refl))
      | inr (l, g) ↦
          let (up, down) = count-trend_signals l in
          elim (Bool-cases (ltb (downs l) (ups l))) [
            | inl h ↦ rw (e, g, up, down, h) (ground arith, (l, refl, ground arith))
            | inr h ↦ elim (Bool-cases (ltb (ups l) (downs l))) [
              | inl k ↦ rw (e, g, up, down, h, k) (ground arith, (l, refl, ground arith))
              | inr k ↦ rw (e, g, up, down, h, k) (inr (inr (l, refl, ground arith)))
            ]
          ]
    ]
  ]

  -- Which way the higher timeframe shifts a confidence.
  abbrev pub Shifts : Support → Num → Num → Type 0
  Shifts contradiction c c' = c' ≼ c
  Shifts neutral c c' = c' ≼ c
  Shifts _ c c' = c ≼ c'

  adjusted_confidence-Shifts :
      (s : Support) (c : Num) → nought ≼ c → c ≼ one → Shifts s c (adjusted_confidence s c)
  unfolding adjusted_confidence
  adjusted_confidence-Shifts strong c h k = ground (arith, le-⊕ c (dec 15 2) (dec_nonneg 15 2))
  adjusted_confidence-Shifts moderate c h k = ground (arith, le-⊕ c (dec 10 2) (dec_nonneg 10 2))
  adjusted_confidence-Shifts weak c h k = ground (arith, le-⊕ c (dec 5 2) (dec_nonneg 5 2))
  adjusted_confidence-Shifts contradiction c h k =
      ground (arith, ⊖-le c (dec 15 2) (dec_nonneg 15 2))
  adjusted_confidence-Shifts neutral c h k = ground (arith, ⊖-le c (dec 5 2) (dec_nonneg 5 2))

  adjusted_confidence_range :
      (s : Support) (c : Num) → (nought ≼ adjusted_confidence s c) × (adjusted_confidence s c ≼ one)
  unfolding adjusted_confidence
  adjusted_confidence_range s c = ground (arith, dec_nonneg 1 0)

  -- A signal that is passed on, or not, at a confidence.
  abbrev pub IsChosen : Signal → Num → Option Signal → Type 0
  IsChosen p c none = c ≺ dec 6 1
  IsChosen p c (some s) = (s ≡ p) × (dec 6 1 ≼ c)

  -- The answer for a signal: its confidence lies between 0 and 1, and the signal is the given one.
  pub record IsConfirmed (p : Signal) (c atr : Num) (f : Frame) (r : Option Signal × Num × Num)
      : Type 0 where
    pub range : (nought ≼ r.1) × (r.1 ≼ one)
    pub chosen : IsChosen p r.1 r.0
    pub shifted : Shifts (support (get_trend_direction f) f.signal p) c r.1
    pub atr_same : r.2 ≡ atr

  confirm_signal-IsConfirmed :
      (p : Signal) (c atr : Num) (f : Frame)
      → nought ≼ c
      → c ≼ one
      → IsConfirmed p c atr f (confirm_signal (some p) c atr f)
  unfolding confirm_signal
  confirm_signal-IsConfirmed p c atr f h k =
      let s = support (get_trend_direction f) f.signal p in
      let shift = adjusted_confidence-Shifts s c h k in
      let range = adjusted_confidence_range s c in
      elim (Bool-cases (lt (adjusted_confidence s c) (dec 6 1))) [
        | inl e ↦
            rw e (record { range = range; chosen = ground arith; shifted = shift; atr_same = refl })
        | inr e ↦ rw e (record {
          range = range;
          chosen = (refl, ground arith);
          shifted = shift;
          atr_same = refl;
        })
      ]

  -- Without a signal in the primary frame there is no signal, with confidence and ATR 0.
  abbrev pub IsAnalysis : Option Signal → Frame → Frame → Option Signal × Num × Num → Type 0
  IsAnalysis none primary higher r = r ≡ (none, nought, nought)
  IsAnalysis (some p) primary higher r = IsConfirmed p primary.confidence primary.atr higher r

  -- For a primary confidence between 0 and 1: without a primary signal the answer is none, with
  -- confidence 0. Otherwise the adjusted confidence lies between 0 and 1, and is not below the
  -- primary one if the higher timeframe supports the signal, and not above it if that contradicts it
  -- or is neutral; the primary signal is passed on at 0.6 or more, and none below; the ATR stays.
  pub analyze_multi_timeframe-IsAnalysis :
      (primary higher : Frame)
      → nought ≼ primary.confidence
      → primary.confidence ≼ one
      → IsAnalysis primary.signal primary higher (analyze_multi_timeframe primary higher)
  unfolding analyze_multi_timeframe
  analyze_multi_timeframe-IsAnalysis primary higher h k = elim (Option-cases primary.signal) [
    | inl e ↦ rw e refl
    | inr (p, e) ↦ rw e (confirm_signal-IsConfirmed p primary.confidence primary.atr higher h k)
  ]
