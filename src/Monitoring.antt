-- ===== src/Monitoring.antt =====
-- monitoring.py: the class `PerformanceMonitor`. The clock is read by the caller; an error is the name
-- of its type with its text, and a rejection the words that its reason mentions.
use oanda_trader.Base.{
  ℕ, suc, ◌+◌, Bool, true, false, ◌&&◌, not, Option, none, some, List, [], ◌∷◌, ◌++◌, length, ltb,
  if◌then◌else◌, String, Dict, lookup, insert, Float, Num, ◌⊖◌, ◌⊘◌, dec, of_ℕ, nought, lt,
}
pub mod Counts
pub mod Metrics
pub mod Health
pub mod Logging
pub mod Summary

-- `deque(maxlen=n).append(x)`: the oldest item goes where there are too many.
abbrev pub drop_oldest {ℓ} : {A : Type ℓ} → List A → List A
drop_oldest [] = []
drop_oldest (x ∷ xs) = xs

unfoldable pub push_recent {ℓ} : {A : Type ℓ} → ℕ → List A → A → List A
push_recent n xs x =
    let longer = xs ++ (x ∷ []) in if ltb n (length longer) then drop_oldest longer else longer

-- `counts[k] += 1` for a `defaultdict(int)`
unfoldable pub increment : String → Dict ℕ → Dict ℕ
increment k d = elim (lookup k d) [ none ↦ insert k 1 d | some n ↦ insert k (suc n) d ]

-- Whether a reason mentions 'risk', and whether 'validation'.
pub record Rejection : Type 0 where
  pub mentions_risk : Bool
  pub mentions_validation : Bool

pub record ApiError : Type 0 where
  pub error_type : String
  pub message : String

module _ ⦃F : Float⦄ where
  pub record Monitor : Type 0 where
    pub window_size : ℕ
    pub api_call_times : List Num
    pub api_errors : List (Num × String)
    pub api_error_count : ℕ
    pub api_success_count : ℕ
    pub trade_attempts : ℕ
    pub trade_successes : ℕ
    pub trade_failures : ℕ
    pub trades_rejected_by_risk : ℕ
    pub trades_rejected_by_validation : ℕ
    pub cycle_times : List Num
    pub signals_found : List ℕ
    pub error_types : Dict ℕ
    pub last_successful_api_call : Option Num
    pub last_successful_trade : Option Num
    pub last_cycle_time : Option Num
    pub start_time : Num

  unfoldable pub new_monitor : ℕ → Num → Monitor
  new_monitor window now = record {
    window_size = window;
    api_call_times = [];
    api_errors = [];
    api_error_count = 0;
    api_success_count = 0;
    trade_attempts = 0;
    trade_successes = 0;
    trade_failures = 0;
    trades_rejected_by_risk = 0;
    trades_rejected_by_validation = 0;
    cycle_times = [];
    signals_found = [];
    error_types = [];
    last_successful_api_call = none;
    last_successful_trade = none;
    last_cycle_time = none;
    start_time = now;
  }

  -- `str(error) if error else 'Unknown'`
  abbrev pub message_of : Option ApiError → String
  message_of none = "Unknown"
  message_of (some e) = e.message

  abbrev pub count_error : Option ApiError → Dict ℕ → Dict ℕ
  count_error none d = d
  count_error (some e) d = increment e.error_type d

  unfoldable pub record_api_call : Monitor → Bool → Num → Option ApiError → Num → Monitor
  unfolding push_recent increment
  record_api_call m true duration error now = record m {
    api_call_times = push_recent m.window_size m.api_call_times duration;
    api_success_count = m.api_success_count + 1;
    last_successful_api_call = some now;
  }
  record_api_call m false duration error now = record m {
    api_call_times = push_recent m.window_size m.api_call_times duration;
    api_error_count = m.api_error_count + 1;
    api_errors = push_recent m.window_size m.api_errors (now, message_of error);
    error_types = count_error error m.error_types;
  }

  -- A reason that mentions both counts as one of risk.
  abbrev pub count_rejection : Option Rejection → Monitor → Monitor
  count_rejection none m = m
  count_rejection (some r) m =
      if r.mentions_risk
      then record m { trades_rejected_by_risk = m.trades_rejected_by_risk + 1 }
      else (if r.mentions_validation
          then record m { trades_rejected_by_validation = m.trades_rejected_by_validation + 1 }
          else m)

  unfoldable pub record_trade_attempt : Monitor → Bool → Option Rejection → Num → Monitor
  record_trade_attempt m true reason now = record m {
    trade_attempts = m.trade_attempts + 1;
    trade_successes = m.trade_successes + 1;
    last_successful_trade = some now;
  }
  record_trade_attempt m false reason now =
      count_rejection reason
        (record m { trade_attempts = m.trade_attempts + 1; trade_failures = m.trade_failures + 1 })

  unfoldable pub record_cycle : Monitor → Num → ℕ → Num → Monitor
  unfolding push_recent
  record_cycle m duration signals now = record m {
    cycle_times = push_recent m.window_size m.cycle_times duration;
    signals_found = push_recent m.window_size m.signals_found signals;
    last_cycle_time = some now;
  }

  -- The dates of the last successes stay.
  unfoldable pub reset : Monitor → Num → Monitor
  reset m now = record m {
    api_call_times = [];
    api_errors = [];
    api_error_count = 0;
    api_success_count = 0;
    trade_attempts = 0;
    trade_successes = 0;
    trade_failures = 0;
    trades_rejected_by_risk = 0;
    trades_rejected_by_validation = 0;
    cycle_times = [];
    signals_found = [];
    error_types = [];
    start_time = now;
  }
