-- ===== src/Examples/Recovery.antt =====
-- Runs of error_recovery.py: a function that fails twice, and a breaker with threshold two.
use oanda_trader.Base.{
  ℕ, length, zero, suc, ◌≡◌, ◌≢◌, refl, true, Bool, none, some, List, [], ◌∷◌, arith, All, of_ℕ,
  nought, ◌⊖◌,
}
use oanda_trader.Base.Fixed.{fixed, plus, minus, times, over, whole}
use oanda_trader.Base.NumberLaws.{dec_nonneg}
use oanda_trader.Recovery.{
  Outcome, returned, raised, value, type_error, value_error, ExponentialBackoff, CircuitBreaker,
  open_state, new_breaker, call, execute_with_retry,
}
use oanda_trader.Recovery.{attempt_loop, attempt}
use oanda_trader.Recovery.Breaker.{IsValid, Event, failures, run, run-new_breaker}
use oanda_trader.Recovery.Backoff.{IsBackoff, Retried, execute_with_retry-Retried}
use oanda_trader.Recovery.Automaton.{counting, Trace, Reachable, view, run-Step}
use oanda_trader.Recovery.Automaton

program : Unit {0}
unfolding execute_with_retry attempt_loop attempt failures call new_breaker plus minus times over
    whole run
program = tt

abbrev backoff : ExponentialBackoff
backoff = record {
  base_delay = of_ℕ 1;
  max_delay = of_ℕ 3;
  max_retries = 5;
  backoff_factor = of_ℕ 2;
}

backoff-IsBackoff : IsBackoff backoff
backoff-IsBackoff = record {
  base_nonneg = dec_nonneg 1 0;
  factor_nonneg = dec_nonneg 2 0;
  max_nonneg = dec_nonneg 3 0;
}

-- Three failures, and then the result 7.
abbrev flaky : ℕ → Outcome ℕ ℕ
flaky zero = raised 100
flaky (suc zero) = raised 101
flaky (suc (suc zero)) = raised 102
flaky (suc (suc (suc n))) = returned 7

retry_runs : execute_with_retry backoff flaky ≡ (value 7, of_ℕ 1 ∷ of_ℕ 2 ∷ of_ℕ 3 ∷ [])
unfolding program
retry_runs = refl

abbrev broken : ℕ → Outcome ℕ ℕ
broken n = raised n

-- A negative delay ends the call with the exception of `time.sleep`.
negative_run :
    execute_with_retry (record backoff { base_delay = nought ⊖ of_ℕ 1 }) flaky ≡ (value_error, [])
unfolding program
negative_run = refl

abbrev any_error : ℕ → Bool
any_error e = true

abbrev failing : Event ℕ ℕ
failing = record { now = of_ℕ 1; outcome = raised 1; later = of_ℕ 2 }

abbrev three_failures : List (Event ℕ ℕ)
three_failures = failing ∷ failing ∷ failing ∷ []

run-new_breaker_example :
    let after = run any_error (new_breaker 2 (of_ℕ 30) none) three_failures in
    IsValid after.0 × All (λ r. r ≢ type_error) after.1
run-new_breaker_example = run-new_breaker any_error 2 (of_ℕ 30) none three_failures (omega arith)

abbrev tripped : CircuitBreaker
tripped = record {
  failure_threshold = 2;
  recovery_timeout = of_ℕ 30;
  failure_count = 2;
  last_failure_time = some (of_ℕ 10);
  state = open_state;
}

tripped-IsValid : IsValid tripped
tripped-IsValid = ground arith

abbrev two_failures : List (Event ℕ ℕ)
two_failures = failing ∷ failing ∷ []

execute_with_retry-Retried_example :
    Retried backoff flaky backoff-IsBackoff (execute_with_retry backoff flaky)
execute_with_retry-Retried_example =
    execute_with_retry-Retried backoff flaky backoff-IsBackoff (omega arith)

run-Step_example :
    let after = view (run any_error (new_breaker 2 (of_ℕ 30) none) three_failures).0 in
    Trace 2 (length three_failures) (counting 0) after × Reachable 2 (length three_failures) after
run-Step_example = run-Step any_error 2 (of_ℕ 30) none three_failures (omega arith)

refused_run :
    view (run any_error (new_breaker 2 (of_ℕ 30) none) three_failures).0 ≡ Automaton.tripped
unfolding program
refused_run = refl
