-- ===== src/Sessions/Restarts.antt =====
-- The checks of demo_threshold_persistence.py.
use oanda_trader.Base.{
  ℕ, ◌≡◌, refl, Bool, true, false, none, some, List, [], ◌∷◌, arith, is_some, String, Float, Num,
  Numpy, ◌≼◌, ◌≃◌, dec, eq,
}
use oanda_trader.Database.{ThresholdRow, get_last_threshold}
use oanda_trader.Database.Trades.{TradeRow, TradeMetrics, get_performance_metrics, new_table}
use oanda_trader.Threshold.{ThresholdManager, new_manager, starting_threshold, update_on_cycle}
use oanda_trader.Threshold.Bounds.{Event, cycle, trade, handle, handle_all}
use oanda_trader.Threshold.Persistence.{restart_same, handle_all-IsSaved, new_manager-IsSaved}
use oanda_trader.Threshold.Bounds.{new_manager-IsValid}
use oanda_trader.Sessions.{
  DemoReport, as_performance, demo_manager, quiet_cycles, stored_rows, session1, session2,
  demo_rounds, demo_persistence, loads_saved,
}

module _ ⦃F : Float⦄ where
  -- What the demonstration claims: the first start is at the base, the first two cycles adjust
  -- nothing, and each restart loads the threshold of the session before, in the bounds.
  pub record IsRemembered (r : DemoReport) : Type 0 where
    pub fresh : r.fresh_threshold ≡ dec 8 1
    pub third : (b : Bool) × (r.cycle_flags ≡ false ∷ false ∷ b ∷ [])
    pub loads_first : (loads_saved r).0 ≡ true
    pub loads_second : (loads_saved r).1 ≡ true
    pub low : dec 5 1 ≼ r.final_loaded_threshold
    pub high : r.final_loaded_threshold ≼ dec 95 2

  low_fits : dec 5 1 ≼ dec 8 1
  low_fits = F.dec_mono 5 8 1 (omega arith)

  high_fits : dec 8 1 ≼ dec 95 2
  high_fits = omega (arith, F.dec_mono 80 95 2 (omega arith), F.dec_shift 8 1)

  some-stored_rows : (m : ThresholdManager) → is_some m.db ≡ true → some (stored_rows m) ≡ m.db
  some-stored_rows m h = ground arith

  -- The manager of a session, after its events.
  abbrev after : List ThresholdRow → List Event → ThresholdManager
  after rows es = handle_all (demo_manager rows) es

  -- A restart loads the threshold of the session.
  reloaded :
      (rows : List ThresholdRow) (es : List Event)
      → (demo_manager (stored_rows (after rows es))).current_threshold
        ≃ (after rows es).current_threshold
  unfolding demo_manager
  reloaded rows es =
      let m = after rows es in
      let start = new_manager (dec 8 1) (some rows) (dec 5 1) (dec 95 2) 3 (dec 5 2) none in
      let saved =
        handle_all-IsSaved (dec 8 1) (dec 5 1) (dec 95 2) start es
          (new_manager-IsValid (dec 8 1) (some rows) (dec 5 1) (dec 95 2) 3 (dec 5 2) none low_fits
            high_fits)
          (new_manager-IsSaved (dec 8 1) rows (dec 5 1) (dec 95 2) 3 (dec 5 2) none) in
      rw (some-stored_rows m saved.stored) (
        restart_same (dec 8 1) rows (dec 5 1) (dec 95 2) 3 3 (dec 5 2) (dec 5 2) none none es
          low_fits high_fits)

  ≃-eq : (a b : Num) → a ≃ b → eq a b ≡ true
  ≃-eq a b h = ground arith

  reloaded_eq :
      (rows : List ThresholdRow) (es : List Event) (m : ThresholdManager)
      → m ≡ after rows es
      → eq (demo_manager (stored_rows m)).current_threshold m.current_threshold ≡ true
  reloaded_eq rows es m e = rw e (≃-eq _ _ (reloaded rows es))

  abbrev quiet_events : List Event
  quiet_events = cycle 0 ∷ cycle 0 ∷ cycle 0 ∷ []

  session1-after : session1.0 ≡ after [] quiet_events
  unfolding session1 quiet_cycles handle handle_all
  session1-after = refl

  session1-flags : (b : Bool) × (session1.1 ≡ false ∷ false ∷ b ∷ [])
  unfolding session1 quiet_cycles update_on_cycle demo_manager new_manager
  session1-flags = (_, refl)

  session2-after :
      (rows : List ThresholdRow) (p : TradeMetrics)
      → (session2 (demo_manager rows) p).0 ≡ after rows (trade true (some (as_performance p)) ∷ [])
  unfolding session2 handle handle_all
  session2-after rows p = refl

  fresh_base : (demo_manager []).current_threshold ≡ dec 8 1
  unfolding demo_manager new_manager starting_threshold get_last_threshold
  fresh_base = refl

  loaded_bounds :
      (rows : List ThresholdRow)
      → (dec 5 1 ≼ (demo_manager rows).current_threshold)
        × ((demo_manager rows).current_threshold ≼ dec 95 2)
  unfolding demo_manager new_manager
  loaded_bounds rows =
      let v =
        new_manager-IsValid (dec 8 1) (some rows) (dec 5 1) (dec 95 2) 3 (dec 5 2) none low_fits
          high_fits in
      (v.current_low, v.current_high)

  -- Whatever the clock shows, in whatever order the queries give their rows, and whatever their
  -- figures are: the demonstration's first threshold is its base 0.8, its first two cycles adjust
  -- nothing, both of its checks that a restart loads the threshold of the session before succeed,
  -- and the last threshold is between 0.5 and 0.95.
  pub demo_persistence-IsRemembered :
      (series : Numpy) (upper : String → String) (opened ended : ℕ → Num)
      (latest_first : List TradeRow → List TradeRow)
      (newest_first : List ThresholdRow → List ThresholdRow) (now days : Num)
      → IsRemembered (demo_persistence series upper opened ended latest_first newest_first now days)
  unfolding demo_persistence
  demo_persistence-IsRemembered series upper opened ended latest_first newest_first now days =
      let trades = demo_rounds upper opened ended 8 0 new_table in
      let performance = get_performance_metrics series latest_first trades now days in
      let rows = stored_rows session1.0 in
      let es : List Event = trade true (some (as_performance performance)) ∷ [] in
      record {
        fresh = fresh_base;
        third = session1-flags;
        loads_first = reloaded_eq [] quiet_events session1.0 session1-after;
        loads_second =
            reloaded_eq rows es (session2 (demo_manager rows) performance).0
              (session2-after rows performance);
        low = (loaded_bounds _).0;
        high = (loaded_bounds _).1;
      }
