-- ===== src/Recovery/Breaker.antt =====
-- The states that `CircuitBreaker` of error_recovery.py passes through.
use oanda_trader.Base.{
  ℕ, ◌+◌, ◌≤◌, ◌<◌, ◌≡◌, ◌≢◌, refl, Bool, true, false, Option, some, List, [], ◌∷◌, arith, Float,
  Num, ◌⊖◌, ◌≼◌, ◌≺◌, is_some, All, if◌then◌else◌, Bool-cases, inl, inr,
}
use oanda_trader.Recovery.{
  Outcome, returned, raised, Ending, value, error, refused, type_error, BreakerState, closed,
  open_state, half_open, CircuitBreaker, new_breaker, attempt, call,
}

module _ ⦃F : Float⦄ where
  -- What each state says of the count and the date of the last failure.
  abbrev pub Counted : BreakerState → CircuitBreaker → Type 0
  Counted closed c = c.failure_count < c.failure_threshold
  Counted open_state c =
      (c.failure_threshold ≤ c.failure_count) × (is_some c.last_failure_time ≡ true)
  Counted half_open c = c.failure_threshold ≤ c.failure_count

  -- Below the threshold the breaker is closed, and an open one knows when it failed.
  pub record IsValid (c : CircuitBreaker) : Type 0 where
    pub counted : Counted c.state c
    pub positive : 0 < c.failure_threshold

  -- A call as the environment chooses it: the clock, what the function does, the clock afterwards.
  pub record Event (A E : Type 0) : Type 0 where
    pub now : Num
    pub outcome : Outcome A E
    pub later : Num

  pub new_breaker-IsValid :
      (threshold : ℕ) (recovery : Num) (timeout : Option Num)
      → 0 < threshold
      → IsValid (new_breaker threshold recovery timeout)
  unfolding new_breaker
  new_breaker-IsValid threshold recovery timeout h = ground arith

  module _ {A E : Type 0} (is_expected : E → Bool) where
    -- A valid breaker stays valid whatever a call does, and the wrapper itself never fails.
    pub call-IsValid :
        (c : CircuitBreaker) (now : Num) (o : Outcome A E) (later : Num)
        → IsValid c
        → IsValid (call is_expected c now o later).0
          × ((call is_expected c now o later).1 ≢ type_error)
          × ((call is_expected c now o later).0.failure_threshold ≡ c.failure_threshold)
    unfolding call attempt
    call-IsValid c now o later v = ground arith

    -- All the calls of a run, in order, each on the breaker that the one before left.
    unfoldable pub run : CircuitBreaker → List (Event A E) → CircuitBreaker × List (Ending A E)
    run c [] = (c, [])
    run c (e ∷ es) =
        let (c', r) = call is_expected c e.now e.outcome e.later in
        let (last, rs) = run c' es in (last, r ∷ rs)

    run-IsValid :
        (c : CircuitBreaker) (es : List (Event A E))
        → IsValid c
        → IsValid (run c es).0 × All (λ r. r ≢ type_error) (run c es).1
    unfolding run
    run-IsValid c [] v = (v, tt)
    run-IsValid c (e ∷ es) v =
        let (v', fine, _) = call-IsValid c e.now e.outcome e.later v in
        let (w, rest) = run-IsValid (call is_expected c e.now e.outcome e.later).0 es v' in
        (w, (fine, rest))

    -- Over every run of calls from a new breaker with a positive threshold, whatever the function
    -- does and the clock shows: in the state "closed" the failures are fewer than the threshold, in
    -- the other two they have reached it, an open breaker has the time of its failure, and the
    -- wrapper never fails itself.
    pub run-new_breaker :
        (threshold : ℕ) (recovery : Num) (timeout : Option Num) (es : List (Event A E))
        → 0 < threshold
        → IsValid (run (new_breaker threshold recovery timeout) es).0
          × All (λ r. r ≢ type_error) (run (new_breaker threshold recovery timeout) es).1
    run-new_breaker threshold recovery timeout es h =
        run-IsValid (new_breaker threshold recovery timeout) es
          (new_breaker-IsValid threshold recovery timeout h)

    -- An open breaker whose last failure is at most the recovery timeout ago refuses the call: the
    -- function does not matter, and the breaker stays as it is.
    call_refused :
        (c : CircuitBreaker) (now t : Num) (o : Outcome A E) (later : Num)
        → c.state ≡ open_state
        → c.last_failure_time ≡ some t
        → now ⊖ t ≼ c.recovery_timeout
        → call is_expected c now o later ≡ (c, refused)
    unfolding call
    call_refused c now t o later s d h = ground arith

    -- What a raised error does in a trial, by whether it is expected.
    abbrev pub RaisedInTrial :
        Bool → CircuitBreaker → Num → E → CircuitBreaker × Ending A E → Type 0
    RaisedInTrial true c later e after =
        (after.0.state ≡ open_state)
        × (after.0.failure_count ≡ c.failure_count + 1)
        × (after.0.last_failure_time ≡ some later)
        × (after.1 ≡ error e)
    RaisedInTrial false c later e after =
        (after.0.state ≡ half_open)
        × (after.0.failure_count ≡ c.failure_count)
        × (after.1 ≡ error e)

    -- What a trial call leaves, by how the function ends.
    abbrev pub Trial : Outcome A E → CircuitBreaker → Num → CircuitBreaker × Ending A E → Type 0
    Trial (returned a) c later after =
        (after.0.state ≡ closed) × (after.0.failure_count ≡ 0) × (after.1 ≡ value a)
    Trial (raised e) c later after = RaisedInTrial (is_expected e) c later e after

    -- Once the timeout has passed, an open valid breaker tries the function once: a result closes it
    -- and clears the count, an expected error opens it again with a new date and one more failure,
    -- and any other error leaves it half open with the same count. The caller gets what happened.
    call-Trial :
        (c : CircuitBreaker) (now t : Num) (o : Outcome A E) (later : Num)
        → IsValid c
        → c.state ≡ open_state
        → c.last_failure_time ≡ some t
        → c.recovery_timeout ≺ now ⊖ t
        → Trial o c later (call is_expected c now o later)
    unfolding call attempt
    call-Trial c now t (returned a) later v s d h = ground arith
    call-Trial c now t (raised e) later v s d h =
        let high : c.failure_threshold ≤ c.failure_count = ground (arith, v.counted) in
        elim (Bool-cases (is_expected e)) [
          | inl x ↦ rw x (ground (arith, high))
          | inr x ↦ rw x (ground arith)
        ]

    -- 1 if a call ended in an expected error, else 0.
    abbrev pub failed : Outcome A E → ℕ
    failed (returned _) = 0
    failed (raised x) = if is_expected x then 1 else 0

    -- How many calls of a run ended in expected errors.
    unfoldable pub failures : List (Event A E) → ℕ
    failures [] = 0
    failures (e ∷ es) = failed e.outcome + failures es

    call_closed :
        (c : CircuitBreaker) (now : Num) (o : Outcome A E) (later : Num)
        → c.state ≡ closed
        → c.failure_count + failed o < c.failure_threshold
        → let after = (call is_expected c now o later).0 in
          (after.state ≡ closed)
          × (after.failure_count ≡ c.failure_count + failed o)
          × (after.failure_threshold ≡ c.failure_threshold)
    unfolding call attempt
    call_closed c now (returned a) later s h = ground arith
    call_closed c now (raised x) later s h = ground arith

    run_closed :
        (c : CircuitBreaker) (es : List (Event A E))
        → c.state ≡ closed
        → c.failure_count + failures es < c.failure_threshold
        → let after = (run c es).0 in
          (after.state ≡ closed)
          × (after.failure_count ≡ c.failure_count + failures es)
          × (after.failure_threshold ≡ c.failure_threshold)
    unfolding run failures
    run_closed c [] s h = (s, omega arith, refl)
    run_closed c (e ∷ es) s h =
        let next = (call is_expected c e.now e.outcome e.later).0 in
        let (s', count, same) = call_closed c e.now e.outcome e.later s (omega arith) in
        let (s'', count', same') = run_closed next es s' (omega arith) in
        (s'', omega arith, omega arith)

    -- A closed breaker stays closed over a run whose expected errors, added to its count, are fewer
    -- than the threshold, however many results stand between them; and the expected error that then
    -- makes them reach the threshold opens it.
    run_opens :
        (c : CircuitBreaker) (es : List (Event A E)) (now later : Num) (x : E)
        → c.state ≡ closed
        → c.failure_count + failures es + 1 ≡ c.failure_threshold
        → is_expected x ≡ true
        → ((run c es).0.state ≡ closed)
          × ((call {A = A} is_expected (run c es).0 now (raised x) later).0.state ≡ open_state)
    unfolding call attempt
    run_opens c es now later x s h e =
        let (s', count, same) = run_closed c es s (omega arith) in (s', ground arith)
