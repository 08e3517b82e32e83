-- ===== src/Recovery.antt =====
-- error_recovery.py: the retry loop with exponential backoff, and the circuit breaker. What the
-- protected function does is a parameter: `Outcome` is how one call of it ends. The clock is an
-- argument too: each reading of `time.time()` is a number that the caller gives.
use oanda_trader.Base.{
  ℕ, zero, suc, ◌+◌, Bool, true, false, Option, none, some, List, [], ◌∷◌, ◌==◌, leb, if◌then◌else◌,
  Float, Num, ◌⊖◌, ◌⊗◌, nought, lt, min,
}
pub mod Backoff
pub mod Breaker
pub mod Automaton

-- How a call of the protected function ends.
pub data Outcome (A E : Type 0) : Type 0 where
  returned : A → Outcome A E
  raised : E → Outcome A E

-- How a protected call ends for its caller: `refused` is the exception "Circuit breaker is open",
-- `type_error` a failure of the wrapper itself (`raise None`, or a difference with `None`), and
-- `value_error` the exception of `time.sleep` for a negative delay.
pub data Ending (A E : Type 0) : Type 0 where
  value : A → Ending A E
  error : E → Ending A E
  refused : Ending A E
  type_error : Ending A E
  value_error : Ending A E

pub data BreakerState : Type 0 where
  closed open_state half_open : BreakerState

module _ ⦃F : Float⦄ where
  pub record ExponentialBackoff : Type 0 where
    pub base_delay : Num
    pub max_delay : Num
    pub max_retries : ℕ
    pub backoff_factor : Num

  pub record CircuitBreaker : Type 0 where
    pub failure_threshold : ℕ
    pub recovery_timeout : Num
    pub failure_count : ℕ
    pub last_failure_time : Option Num
    pub state : BreakerState

  -- `raise last_exception`
  unfoldable pub raise_last : {A E : Type 0} → Option E → Ending A E
  raise_last none = type_error
  raise_last (some e) = error e

  -- The next value of `delay`.
  unfoldable pub next_delay : ExponentialBackoff → Num → Num
  next_delay b delay = min (delay ⊗ b.backoff_factor) b.max_delay

  module _ {A E : Type 0} (b : ExponentialBackoff) (func : ℕ → Outcome A E) where
    -- The loop, with the attempts that are left; the second part lists the sleeps.
    -- A negative delay is an exception in the handler, which leaves the loop.
    unfoldable pub attempt_loop : ℕ → ℕ → Num → Option E → Ending A E × List Num
    unfolding raise_last next_delay
    attempt_loop zero attempt delay last = (raise_last last, [])
    attempt_loop (suc left) attempt delay last = elim (func attempt) [
      | returned a ↦ (value a, [])
      | raised e ↦
          let rest = attempt_loop left (suc attempt) (next_delay b delay) (some e) in
          if suc attempt == b.max_retries
          then (raise_last (some e), [])
          else (if lt delay nought then (value_error, []) else (rest.0, delay ∷ rest.1))
    ]

    -- `func n` is how the call number `n` ends.
    unfoldable pub execute_with_retry : Ending A E × List Num
    execute_with_retry = attempt_loop b.max_retries 0 b.base_delay none

  -- The constructor.
  unfoldable pub new_breaker : ℕ → Num → Option Num → CircuitBreaker
  new_breaker threshold recovery timeout = record {
    failure_threshold = threshold;
    recovery_timeout = elim timeout [ none ↦ recovery | some t ↦ t ];
    failure_count = 0;
    last_failure_time = none;
    state = closed;
  }

  module _ {A E : Type 0} (is_expected : E → Bool) where
    -- The `try` block and its handler, entered in the state that the guard left.
    unfoldable pub attempt : CircuitBreaker → Outcome A E → Num → CircuitBreaker × Ending A E
    attempt c (returned a) later = elim c.state [
      | half_open ↦ (record c { state = closed; failure_count = 0 }, value a)
      | _ ↦ (c, value a)
    ]
    attempt c (raised e) later =
        let count = c.failure_count + 1 in
        let failed = record c { failure_count = count; last_failure_time = some later } in
        if is_expected e
        then (if leb c.failure_threshold count
            then (record failed { state = open_state }, error e)
            else (failed, error e))
        else (c, error e)

    -- One call: `now` is the clock at the guard, `outcome` what the function does if it is run, and
    -- `later` the clock in the handler.
    unfoldable pub call : CircuitBreaker → Num → Outcome A E → Num → CircuitBreaker × Ending A E
    unfolding attempt
    call c now outcome later = elim c.state [
      | open_state ↦ elim c.last_failure_time [
        | none ↦ (c, type_error)
        | some t ↦
            if lt c.recovery_timeout (now ⊖ t)
            then attempt (record c { state = half_open }) outcome later
            else (c, refused)
      ]
      | _ ↦ attempt c outcome later
    ]
