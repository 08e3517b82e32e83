-- ===== src/Database/Readings.antt =====
-- database.py: the table `volatility_readings` as the list of its rows.
use oanda_trader.Base.{
  ℕ, Bool, false, Option, none, some, List, [], ◌∷◌, ◌++◌, take, String, Float, Num, nought,
}

module _ ⦃F : Float⦄ where
  -- The dictionary that is stored: all but the first two keys may be missing.
  pub record ReadingData : Type 0 where
    pub avg_atr : Num
    pub volatility_state : String
    pub confidence : Option Num
    pub readings_count : Option ℕ
    pub consecutive_low_cycles : Option ℕ
    pub adjustment_mode : Option String
    pub threshold_adjusted : Option Bool
    pub stops_adjusted : Option Bool
    pub cycle_skipped : Option Bool

  pub record ReadingRow : Type 0 where
    pub avg_atr : Num
    pub volatility_state : String
    pub confidence : Num
    pub readings_count : ℕ
    pub consecutive_low_cycles : ℕ
    pub adjustment_mode : String
    pub threshold_adjusted : Bool
    pub stops_adjusted : Bool
    pub cycle_skipped : Bool

  -- `d.get(k, default)`
  abbrev pub or_else : {A : Type 0} → A → Option A → A
  or_else d none = d
  or_else d (some a) = a

  -- The table after the insert.
  unfoldable pub store_volatility_reading : List ReadingRow → ReadingData → List ReadingRow
  store_volatility_reading rows d =
      rows
      ++ (record {
        avg_atr = d.avg_atr;
        volatility_state = d.volatility_state;
        confidence = or_else nought d.confidence;
        readings_count = or_else 0 d.readings_count;
        consecutive_low_cycles = or_else 0 d.consecutive_low_cycles;
        adjustment_mode = or_else "none" d.adjustment_mode;
        threshold_adjusted = or_else false d.threshold_adjusted;
        stops_adjusted = or_else false d.stops_adjusted;
        cycle_skipped = or_else false d.cycle_skipped;
      }
          ∷ [])

  unfoldable pub get_recent_volatility_readings :
      (List ReadingRow → List ReadingRow) → List ReadingRow → ℕ → List ReadingRow
  get_recent_volatility_readings latest_first rows limit = take limit (latest_first rows)
