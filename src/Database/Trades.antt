-- ===== src/Database/Trades.antt =====
-- database.py: the table `trades` as the list of its rows, and the readings of the volatility. The
-- order that a query asks for is an argument, `latest_first`, since SQLite sorts the rows.
use oanda_trader.Base.{
  ℕ, suc, ◌==◌, Bool, true, false, ◌&&◌, Option, none, some, List, [], ◌∷◌, ◌++◌, map, length,
  filter, take, ltb, if◌then◌else◌, String, same_text, Float, Num, Numpy, ◌⊖◌, ◌⊘◌, dec, of_ℕ,
  nought, one, lt, abs,
}
use oanda_trader.Analytics.{is_win, is_loss, present, sum, sum_from, ratio}
use oanda_trader.Database.{ThresholdRow}
pub mod Rows
pub mod Metrics
pub mod Order

module _ ⦃F : Float⦄ where
  -- The keys that `store_trade` reads: those that it reads with a default may be missing.
  pub record TradeData : Type 0 where
    pub instrument : String
    pub signal : String
    pub confidence : Num
    pub entry_price : Num
    pub stop_loss : Option Num
    pub take_profit : Option Num
    pub units : Num
    pub atr : Option Num
    pub ml_prediction : Option Num
    pub position_size_pct : Option Num

  pub record TradeRow : Type 0 where
    pub id : ℕ
    pub instrument : String
    pub signal : String
    pub confidence : Num
    pub entry_price : Num
    pub stop_loss : Num
    pub take_profit : Num
    pub units : Num
    pub atr : Num
    pub ml_prediction : Num
    pub position_size_pct : Num
    pub entry_time : Num
    pub exit_price : Option Num
    pub exit_time : Option Num
    pub pnl : Option Num
    pub status : String

  -- The rows, and the id that the next one gets, which is higher than any before.
  pub record TradeTable : Type 0 where
    pub rows : List TradeRow
    pub next_id : ℕ

  abbrev pub new_table : TradeTable
  new_table = record { rows = []; next_id = 1 }

  abbrev pub or_value : Num → Option Num → Num
  or_value d none = d
  or_value d (some a) = a

  unfoldable pub trade_row : ℕ → TradeData → Num → TradeRow
  trade_row id d now = record {
    id = id;
    instrument = d.instrument;
    signal = d.signal;
    confidence = d.confidence;
    entry_price = d.entry_price;
    stop_loss = or_value nought d.stop_loss;
    take_profit = or_value nought d.take_profit;
    units = d.units;
    atr = or_value nought d.atr;
    ml_prediction = or_value (dec 5 1) d.ml_prediction;
    position_size_pct = or_value nought d.position_size_pct;
    entry_time = now;
    exit_price = none;
    exit_time = none;
    pnl = none;
    status = "OPEN";
  }

  -- The table after the insert, and the id of the trade.
  unfoldable pub store_trade : TradeTable → TradeData → Num → TradeTable × ℕ
  unfolding trade_row
  store_trade t d now = (
    record { rows = t.rows ++ (trade_row t.next_id d now ∷ []); next_id = suc t.next_id },
    t.next_id,
  )

  abbrev pub exited : Num → Num → Num → String → TradeRow → TradeRow
  exited exit_price pnl now status r = record r {
    exit_price = some exit_price;
    exit_time = some now;
    pnl = some pnl;
    status = status;
  }

  -- `UPDATE … WHERE id = ?`
  unfoldable pub update_rows : ℕ → (TradeRow → TradeRow) → List TradeRow → List TradeRow
  update_rows id f [] = []
  update_rows id f (r ∷ rs) = (if r.id == id then f r else r) ∷ update_rows id f rs

  unfoldable pub update_trade_exit : TradeTable → ℕ → Num → Num → Num → TradeTable
  unfolding update_rows
  update_trade_exit t trade_id exit_price pnl now = record t {
    rows = update_rows trade_id (exited exit_price pnl now "CLOSED") t.rows;
  }

  -- `upper` is `str.upper`.
  unfoldable pub update_trade :
      (String → String) → TradeTable → ℕ → Num → Num → String → Num → TradeTable
  unfolding update_rows
  update_trade upper t trade_id exit_price pnl status now = record t {
    rows = update_rows trade_id (exited exit_price pnl now (upper status)) t.rows;
  }

  unfoldable pub get_recent_trades :
      (List TradeRow → List TradeRow) → TradeTable → ℕ → List TradeRow
  get_recent_trades latest_first t limit = take limit (latest_first t.rows)

  unfoldable pub get_recent_threshold_adjustments :
      (List ThresholdRow → List ThresholdRow) → List ThresholdRow → ℕ → List ThresholdRow
  get_recent_threshold_adjustments latest_first rows limit = take limit (latest_first rows)

  pub record TradeMetrics : Type 0 where
    pub total_trades : ℕ
    pub win_rate : Num
    pub avg_win : Num
    pub avg_loss : Num
    pub sharpe : Num
    pub profit_factor : Num

  abbrev pub no_trades : TradeMetrics
  no_trades = record {
    total_trades = 0;
    win_rate = dec 5 1;
    avg_win = nought;
    avg_loss = nought;
    sharpe = nought;
    profit_factor = one;
  }

  -- `sum(xs) / len(xs) if xs else 0.0`
  unfoldable pub average : List Num → Num
  unfolding sum_from
  average [] = nought
  average (x ∷ xs) = sum (x ∷ xs) ⊘ of_ℕ (length (x ∷ xs))

  unfoldable pub profit_factor_of : Num → Num → Num
  profit_factor_of total_wins total_losses =
      if lt nought total_losses
      then total_wins ⊘ total_losses
      else (if lt nought total_wins then of_ℕ 2 else one)

  -- The closed trades of the last days; the times and the days are in one unit.
  abbrev pub is_recent : Num → Num → TradeRow → Bool
  is_recent now days r = same_text r.status "CLOSED" && lt (now ⊖ days) r.entry_time

  module _ (series : Numpy) where
    -- `mean / std` of a pandas series, whose deviation is an argument like its mean
    unfoldable pub sharpe_of : List Num → Num
    sharpe_of pnls =
        if ltb 1 (length pnls) then ratio (series.mean pnls) (series.std pnls) else nought

    unfoldable pub metrics_of : List Num → TradeMetrics
    unfolding average profit_factor_of sharpe_of filter sum_from
    metrics_of [] = no_trades
    metrics_of (p ∷ ps) =
        let pnls = p ∷ ps in
        let wins = filter is_win pnls in
        let losses = map (λ q. abs q) (filter is_loss pnls) in
        record {
          total_trades = length pnls;
          win_rate = of_ℕ (length wins) ⊘ of_ℕ (length pnls);
          avg_win = average wins;
          avg_loss = average losses;
          sharpe = sharpe_of pnls;
          profit_factor = profit_factor_of (sum wins) (sum losses);
        }

    unfoldable pub get_performance_metrics :
        (List TradeRow → List TradeRow) → TradeTable → Num → Num → TradeMetrics
    unfolding metrics_of present filter
    get_performance_metrics latest_first t now days =
        metrics_of
          (present (λ (r : TradeRow). r.pnl) (latest_first (filter (is_recent now days) t.rows)))
