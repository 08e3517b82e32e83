-- ===== src/Database/Trades/Rows.antt =====
-- The rows of the table `trades` of database.py over runs.
use oanda_trader.Base.{
  ℕ, suc, ◌<◌, ◌==◌, ◌≡◌, ◌≢◌, refl, sym, ◌∙◌, Option, none, some, List, [], ◌∷◌, ◌++◌, arith, All,
  if◌then◌else◌, String, Float, Num,
}
use oanda_trader.Database.Trades.{
  TradeData, TradeRow, TradeTable, new_table, trade_row, store_trade, exited, update_rows,
  update_trade_exit,
}

module _ ⦃F : Float⦄ where
  -- The row with an id.
  unfoldable pub find_row : ℕ → List TradeRow → Option TradeRow
  find_row id [] = none
  find_row id (r ∷ rs) = if r.id == id then some r else find_row id rs

  abbrev mapped : (TradeRow → TradeRow) → Option TradeRow → Option TradeRow
  mapped f none = none
  mapped f (some r) = some (f r)

  find_row-append_other :
      (id : ℕ) (rs : List TradeRow) (r : TradeRow)
      → r.id ≢ id
      → find_row id (rs ++ (r ∷ [])) ≡ find_row id rs
  unfolding find_row
  find_row-append_other id [] r h = ground (arith, h)
  find_row-append_other id (s ∷ rs) r h = ground (arith, find_row-append_other id rs r h)

  find_row-append_new :
      (next : ℕ) (rs : List TradeRow) (r : TradeRow)
      → All (λ s. s.id < next) rs
      → r.id ≡ next
      → find_row next (rs ++ (r ∷ [])) ≡ some r
  unfolding find_row
  find_row-append_new next [] r h e = ground (arith, e)
  find_row-append_new next (s ∷ rs) r (h, hs) e =
      ground (arith, h, find_row-append_new next rs r hs e)

  find_row-update_rows :
      (id asked : ℕ) (p q now : Num) (status : String) (rs : List TradeRow)
      → find_row asked (update_rows id (exited p q now status) rs) ≡ (
          if asked == id
          then mapped (exited p q now status) (find_row asked rs)
          else find_row asked rs)
  unfolding find_row update_rows
  find_row-update_rows id asked p q now status [] = ground arith
  find_row-update_rows id asked p q now status (r ∷ rs) =
      ground (arith, find_row-update_rows id asked p q now status rs)

  -- Every id is below the next one.
  abbrev AreNumbered : TradeTable → Type 0
  AreNumbered t = All (λ r. r.id < t.next_id) t.rows

  -- What happens to the table: a trade is stored, or one of any id is closed.
  pub data Event : Type 0 where
    store : TradeData → Num → Event
    exit : ℕ → Num → Num → Num → Event

  unfoldable pub handle : TradeTable → Event → TradeTable
  unfolding store_trade update_trade_exit
  handle t (store d now) = (store_trade t d now).0
  handle t (exit id price pnl now) = update_trade_exit t id price pnl now

  unfoldable pub handle_all : TradeTable → List Event → TradeTable
  unfolding handle
  handle_all t [] = t
  handle_all t (e ∷ es) = handle_all (handle t e) es

  append-numbered :
      (next : ℕ) (rs : List TradeRow) (r : TradeRow)
      → All (λ s. s.id < next) rs
      → r.id ≡ next
      → All (λ s. s.id < suc next) (rs ++ (r ∷ []))
  append-numbered next [] r h e = (omega (arith, e), tt)
  append-numbered next (s ∷ rs) r (h, hs) e = (omega (arith, h), append-numbered next rs r hs e)

  update_rows-numbered :
      (id next : ℕ) (p q now : Num) (status : String) (rs : List TradeRow)
      → All (λ s. s.id < next) rs
      → All (λ s. s.id < next) (update_rows id (exited p q now status) rs)
  unfolding update_rows
  update_rows-numbered id next p q now status [] h = tt
  update_rows-numbered id next p q now status (r ∷ rs) (h, hs) =
      (ground (arith, h), update_rows-numbered id next p q now status rs hs)

  handle-AreNumbered : (t : TradeTable) (e : Event) → AreNumbered t → AreNumbered (handle t e)
  unfolding handle store_trade update_trade_exit trade_row
  handle-AreNumbered t (store d now) h =
      append-numbered t.next_id t.rows (trade_row t.next_id d now) h refl
  handle-AreNumbered t (exit id p q now) h =
      update_rows-numbered id t.next_id p q now "CLOSED" t.rows h

  handle_all-AreNumbered :
      (t : TradeTable) (es : List Event) → AreNumbered t → AreNumbered (handle_all t es)
  unfolding handle_all
  handle_all-AreNumbered t [] h = h
  handle_all-AreNumbered t (e ∷ es) h =
      handle_all-AreNumbered (handle t e) es (handle-AreNumbered t e h)

  stored_lem :
      (next : ℕ) (rs : List TradeRow) (r : TradeRow) (p q now : Num)
      → All (λ s. s.id < next) rs
      → r.id ≡ next
      → let rows = update_rows next (exited p q now "CLOSED") (rs ++ (r ∷ [])) in
        (find_row next rows ≡ some (exited p q now "CLOSED" r))
        × ((other : ℕ) → other ≢ next → find_row other rows ≡ find_row other rs)
  stored_lem next rs r p q now h e =
      let found = find_row-append_new next rs r h e in
      (
        rw (find_row-update_rows next next p q now "CLOSED" (rs ++ (r ∷ [])), found) (ground arith),
        λ other k.
            let kept = find_row-append_other other rs r (λ f. k (sym f ∙ e)) in
            rw (find_row-update_rows next other p q now "CLOSED" (rs ++ (r ∷ [])), kept)
              (ground (arith, k)),
      )

  -- Whatever was stored and closed before in a new table, a trade that is stored and then closed by
  -- the id that the store gave back is found under it as it was stored, with its exit and its result,
  -- and no row of another id is changed by the two.
  pub update_trade_exit-store_trade :
      (es : List Event) (d : TradeData) (now price pnl later : Num)
      → let t = handle_all new_table es in
        let (t', id) = store_trade t d now in
        let rows = (update_trade_exit t' id price pnl later).rows in
        (find_row id rows ≡ some (exited price pnl later "CLOSED" (trade_row id d now)))
        × ((other : ℕ) → other ≢ id → find_row other rows ≡ find_row other t.rows)
  unfolding store_trade update_trade_exit trade_row
  update_trade_exit-store_trade es d now price pnl later =
      let t = handle_all new_table es in
      stored_lem t.next_id t.rows (trade_row t.next_id d now) price pnl later
        (handle_all-AreNumbered new_table es tt) refl
