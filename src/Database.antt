-- ===== src/Database.antt =====
-- database.py: the table `threshold_adjustments` as the list of its rows in the order of their ids.
-- SQLite is not modelled: an insert adds a row with the next id, as the table's key says.
use oanda_trader.Base.{ℕ, ◌≡◌, refl, Option, none, some, List, [], ◌∷◌, ◌++◌, Float, Num}
pub mod Trades
pub mod Readings

-- The texts of `adjustment_reason`, without the figures in them.
pub data AdjustmentReason : Type 0 where
  no_signals strong_performance poor_performance marginal_performance manual_reset :
      AdjustmentReason

module _ ⦃F : Float⦄ where
  pub record ThresholdRow : Type 0 where
    pub old_threshold : Num
    pub new_threshold : Num
    pub adjustment_reason : AdjustmentReason
    pub cycles_without_signal : ℕ
    pub recent_win_rate : Option Num
    pub recent_profit_factor : Option Num
    pub total_trades_analyzed : ℕ

  -- The table after the insert.
  unfoldable pub store_threshold_adjustment : List ThresholdRow → ThresholdRow → List ThresholdRow
  store_threshold_adjustment rows row = rows ++ (row ∷ [])

  -- The row with the highest id.
  unfoldable pub get_last_threshold : List ThresholdRow → Option Num
  get_last_threshold [] = none
  get_last_threshold (row ∷ []) = some row.new_threshold
  get_last_threshold (row ∷ next ∷ rows) = get_last_threshold (next ∷ rows)

  pub get_last_threshold-store :
      (rows : List ThresholdRow) (row : ThresholdRow)
      → get_last_threshold (store_threshold_adjustment rows row) ≡ some row.new_threshold
  unfolding get_last_threshold store_threshold_adjustment
  get_last_threshold-store [] row = refl
  get_last_threshold-store (r ∷ []) row = refl
  get_last_threshold-store (r ∷ s ∷ rows) row = get_last_threshold-store (s ∷ rows) row
