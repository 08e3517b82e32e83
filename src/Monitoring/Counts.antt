-- ===== src/Monitoring/Counts.antt =====
-- The counters of monitoring.py over every run, against the events themselves.
use oanda_trader.Base.{
  ℕ, suc, ◌+◌, ◌≤◌, ◌≡◌, refl, Bool, true, false, Option, none, some, List, [], ◌∷◌, length,
  length-append, arith, Option-cases, Bool-cases, inl, inr, String, Dict, lookup, insert, Float,
  Num,
}
use oanda_trader.Monitoring.{
  push_recent, increment, Rejection, ApiError, Monitor, new_monitor, count_error, record_api_call,
  record_trade_attempt, record_cycle, reset,
}

length-push_recent {ℓ} :
    {A : Type ℓ} (n : ℕ) (xs : List A) (x : A) → length xs ≤ n → length (push_recent n xs x) ≤ n
unfolding push_recent
length-push_recent n [] x h = ground arith
length-push_recent n (y ∷ xs) x h = ground (arith, length-append xs (x ∷ []))

-- The sum of the counts of a dictionary.
unfoldable pub total : Dict ℕ → ℕ
total [] = 0
total ((k, n) ∷ d) = n + total d

abbrev count_at : String → Dict ℕ → ℕ
count_at k d = elim (lookup k d) [ none ↦ 0 | some n ↦ n ]

total-insert : (k : String) (n : ℕ) (d : Dict ℕ) → total (insert k n d) + count_at k d ≡ total d + n
unfolding total insert lookup
total-insert k n [] = omega arith
total-insert k n ((j, i) ∷ d) = ground (arith, total-insert k n d)

total-increment : (k : String) (d : Dict ℕ) → total (increment k d) ≡ suc (total d)
unfolding increment
total-increment k d = elim (Option-cases (lookup k d)) [
  | inl e ↦ ground (arith, total-insert k 1 d)
  | inr (n, e) ↦ ground (arith, total-insert k (suc n) d)
]

module _ ⦃F : Float⦄ where
  -- What is reported to a monitor, each with the clock.
  pub data Event : Type 0 where
    api_call : Bool → Num → Option ApiError → Num → Event
    trade : Bool → Option Rejection → Num → Event
    cycle : Num → ℕ → Num → Event
    clear : Num → Event

  unfoldable pub handle : Monitor → Event → Monitor
  handle m (api_call success duration error now) = record_api_call m success duration error now
  handle m (trade success reason now) = record_trade_attempt m success reason now
  handle m (cycle duration signals now) = record_cycle m duration signals now
  handle m (clear now) = reset m now

  unfoldable pub handle_all : Monitor → List Event → Monitor
  handle_all m [] = m
  handle_all m (e ∷ es) = handle_all (handle m e) es

  -- The calls, and the trades, reported since the last reset, on top of numbers from before.
  unfoldable pub calls_since : ℕ → List Event → ℕ
  calls_since n [] = n
  calls_since n (api_call _ _ _ _ ∷ es) = calls_since (suc n) es
  calls_since n (clear _ ∷ es) = calls_since 0 es
  calls_since n (_ ∷ es) = calls_since n es

  unfoldable pub trades_since : ℕ → List Event → ℕ
  trades_since n [] = n
  trades_since n (trade _ _ _ ∷ es) = trades_since (suc n) es
  trades_since n (clear _ ∷ es) = trades_since 0 es
  trades_since n (_ ∷ es) = trades_since n es

  -- Counters that agree with each other, with so many calls and trades.
  pub record Agrees (window calls trades : ℕ) (m : Monitor) : Type 0 where
    pub window_same : m.window_size ≡ window
    pub all_calls : m.api_success_count + m.api_error_count ≡ calls
    pub all_trades : (m.trade_attempts ≡ trades) × (m.trade_successes + m.trade_failures ≡ trades)
    pub rejected : m.trades_rejected_by_risk + m.trades_rejected_by_validation ≤ m.trade_failures
    pub typed : total m.error_types ≤ m.api_error_count
    pub call_window : (length m.api_call_times ≤ window) × (length m.api_errors ≤ window)
    pub cycle_window : (length m.cycle_times ≤ window) × (length m.signals_found ≤ window)

  module _ (window calls trades : ℕ) (m : Monitor) (a : Agrees window calls trades m) where
    pushed :
        {A : Type 0} (xs : List A) (x : A)
        → length xs ≤ window
        → length (push_recent m.window_size xs x) ≤ window
    pushed xs x h =
        omega (
          arith,
          a.window_same,
          length-push_recent m.window_size xs x (omega (arith, a.window_same)),
        )

    counted :
        (error : Option ApiError) → total (count_error error m.error_types) ≤ m.api_error_count + 1
    counted none = omega (arith, a.typed)
    counted (some e) = omega (arith, a.typed, total-increment e.error_type m.error_types)

    record_api_call-Agrees :
        (success : Bool) (duration : Num) (error : Option ApiError) (now : Num)
        → Agrees window (suc calls) trades (record_api_call m success duration error now)
    unfolding record_api_call
    record_api_call-Agrees true duration error now = record {
      window_same = a.window_same;
      all_calls = omega (arith, a.all_calls);
      all_trades = a.all_trades;
      rejected = a.rejected;
      typed = a.typed;
      call_window = (pushed m.api_call_times duration a.call_window.0, a.call_window.1);
      cycle_window = a.cycle_window;
    }
    record_api_call-Agrees false duration error now = record {
      window_same = a.window_same;
      all_calls = omega (arith, a.all_calls);
      all_trades = a.all_trades;
      rejected = a.rejected;
      typed = counted error;
      call_window =
          (pushed m.api_call_times duration a.call_window.0, pushed m.api_errors _ a.call_window.1);
      cycle_window = a.cycle_window;
    }

    record_trade_attempt-Agrees :
        (success : Bool) (reason : Option Rejection) (now : Num)
        → Agrees window calls (suc trades) (record_trade_attempt m success reason now)
    unfolding record_trade_attempt
    record_trade_attempt-Agrees true reason now = ground (arith, a)
    record_trade_attempt-Agrees false none now = ground (arith, a)
    record_trade_attempt-Agrees false (some r) now = elim (Bool-cases r.mentions_risk) [
      | inl e ↦ rw e (ground (arith, a))
      | inr e ↦ elim (Bool-cases r.mentions_validation) [
        | inl f ↦ rw (e, f) (ground (arith, a))
        | inr f ↦ rw (e, f) (ground (arith, a))
      ]
    ]

    record_cycle-Agrees :
        (duration : Num) (signals : ℕ) (now : Num)
        → Agrees window calls trades (record_cycle m duration signals now)
    unfolding record_cycle
    record_cycle-Agrees duration signals now = record {
      window_same = a.window_same;
      all_calls = a.all_calls;
      all_trades = a.all_trades;
      rejected = a.rejected;
      typed = a.typed;
      call_window = a.call_window;
      cycle_window = (
        pushed m.cycle_times duration a.cycle_window.0,
        pushed m.signals_found signals a.cycle_window.1,
      );
    }

    reset-Agrees : (now : Num) → Agrees window 0 0 (reset m now)
    unfolding reset total
    reset-Agrees now = ground (arith, a.window_same)

  handle_all-Agrees :
      (window calls trades : ℕ) (m : Monitor) (es : List Event)
      → Agrees window calls trades m
      → Agrees window (calls_since calls es) (trades_since trades es) (handle_all m es)
  unfolding handle_all handle calls_since trades_since
  handle_all-Agrees window calls trades m [] a = a
  handle_all-Agrees window calls trades m (api_call s d e now ∷ es) a =
      handle_all-Agrees window (suc calls) trades (record_api_call m s d e now) es
        (record_api_call-Agrees window calls trades m a s d e now)
  handle_all-Agrees window calls trades m (trade s r now ∷ es) a =
      handle_all-Agrees window calls (suc trades) (record_trade_attempt m s r now) es
        (record_trade_attempt-Agrees window calls trades m a s r now)
  handle_all-Agrees window calls trades m (cycle d n now ∷ es) a =
      handle_all-Agrees window calls trades (record_cycle m d n now) es
        (record_cycle-Agrees window calls trades m a d n now)
  handle_all-Agrees window calls trades m (clear now ∷ es) a =
      handle_all-Agrees window 0 0 (reset m now) es (reset-Agrees window calls trades m a now)

  -- Over any events of a new monitor: the successes and errors of the API are together the calls
  -- since the last reset, the trade attempts are the trades since then and the sum of successes and
  -- failures, the rejections counted are at most the failures, the errors counted by type at most
  -- the errors, and no list of recent figures is longer than the window.
  pub handle_all-new_monitor :
      (window : ℕ) (now : Num) (es : List Event)
      → Agrees window
          (calls_since 0 es)
          (trades_since 0 es)
          (handle_all (new_monitor window now) es)
  unfolding new_monitor total
  handle_all-new_monitor window now es =
      handle_all-Agrees window 0 0 (new_monitor window now) es (record {
        window_same = refl;
        all_calls = refl;
        all_trades = (refl, refl);
        rejected = omega arith;
        typed = omega arith;
        call_window = (omega arith, omega arith);
        cycle_window = (omega arith, omega arith);
      })
