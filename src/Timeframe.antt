-- ===== src/Timeframe.antt =====
-- multi_timeframe.py: the class `MultiTimeframeAnalyzer`. A frame stands for its table of prices: its
-- length, the last row of the indicators, and the signal that the strategy finds in it, which are
-- computed outside by pandas and the library of indicators.
use oanda_trader.Base.{
  ℕ, suc, Bool, true, false, Option, none, some, List, [], ◌∷◌, ◌++◌, ltb, if◌then◌else◌, Float,
  Num, ◌⊕◌, ◌⊖◌, dec, of_ℕ, nought, one, lt, max, min,
}
pub mod Confirmation

pub data Signal : Type 0 where
  buy sell : Signal

-- How the higher timeframe stands to a signal.
pub data Support : Type 0 where
  strong moderate weak contradiction neutral : Support

-- `a == b`
abbrev pub same_signal : Signal → Signal → Bool
same_signal buy buy = true
same_signal sell sell = true
same_signal _ _ = false

-- `trend == signal`, for one that may be `None`
abbrev pub is_signal : Option Signal → Signal → Bool
is_signal none s = false
is_signal (some t) s = same_signal t s

-- `signals.count(s)`
unfoldable pub count : Signal → List Signal → ℕ
count s [] = 0
count s (t ∷ ts) = if same_signal t s then suc (count s ts) else count s ts

-- The tests on the trend and the signal of the higher timeframe, in their order.
unfoldable pub support : Option Signal → Option Signal → Signal → Support
support trend signal primary = elim (is_signal trend primary) [
  | true ↦ elim (is_signal signal primary) [ true ↦ strong | false ↦ moderate ]
  | false ↦ elim trend [
    | none ↦ elim (is_signal signal primary) [ true ↦ weak | false ↦ neutral ]
    | some t ↦ contradiction
  ]
]

module _ ⦃F : Float⦄ where
  -- The last row of the indicators.
  pub record Indicators : Type 0 where
    pub macd : Num
    pub macd_signal : Num
    pub close : Num
    pub bb_middle : Num
    pub rsi : Num

  pub record Frame : Type 0 where
    pub rows : ℕ
    pub latest : Option Indicators
    pub signal : Option Signal
    pub confidence : Num
    pub atr : Num

  -- `'BUY'` where a > b, `'SELL'` where a < b, and nothing otherwise.
  unfoldable pub vote : Num → Num → List Signal
  vote a b = if lt b a then buy ∷ [] else (if lt a b then sell ∷ [] else [])

  unfoldable pub trend_signals : Indicators → List Signal
  unfolding vote
  trend_signals l = vote l.macd l.macd_signal ++ (vote l.close l.bb_middle ++ vote l.rsi (of_ℕ 50))

  unfoldable pub majority : List Signal → Option Signal
  unfolding count
  majority votes =
      if ltb (count sell votes) (count buy votes)
      then some buy
      else (if ltb (count buy votes) (count sell votes) then some sell else none)

  unfoldable pub get_trend_direction : Frame → Option Signal
  unfolding trend_signals majority
  get_trend_direction f =
      if ltb f.rows 50
      then none
      else elim f.latest [ none ↦ none | some l ↦ majority (trend_signals l) ]

  abbrev pub boosted : Support → Num → Num
  boosted strong c = c ⊕ dec 15 2
  boosted moderate c = c ⊕ dec 10 2
  boosted weak c = c ⊕ dec 5 2
  boosted contradiction c = c ⊖ dec 15 2
  boosted neutral c = c ⊖ dec 5 2

  unfoldable pub adjusted_confidence : Support → Num → Num
  adjusted_confidence s c = min one (max nought (boosted s c))

  unfoldable pub confirm_signal : Option Signal → Num → Num → Frame → Option Signal × Num × Num
  unfolding get_trend_direction support adjusted_confidence
  confirm_signal none c atr f = (none, nought, atr)
  confirm_signal (some p) c atr f =
      let adjusted = adjusted_confidence (support (get_trend_direction f) f.signal p) c in
      if lt adjusted (dec 6 1) then (none, adjusted, atr) else (some p, adjusted, atr)

  unfoldable pub analyze_multi_timeframe : Frame → Frame → Option Signal × Num × Num
  unfolding confirm_signal
  analyze_multi_timeframe primary higher = elim primary.signal [
    | none ↦ (none, nought, nought)
    | some p ↦ confirm_signal (some p) primary.confidence primary.atr higher
  ]
