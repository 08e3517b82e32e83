-- ===== src/Recovery/Automaton.antt =====
-- `CircuitBreaker` of error_recovery.py as an automaton: the specification has three states, of which
-- only the closed one counts, and knows neither the clock nor what the function returns.
use oanda_trader.Base.{
  ℕ, zero, suc, ◌+◌, ◌≤◌, ◌<◌, ◌≡◌, ◌⊎◌, refl, sym, ◌∙◌, Bool, true, Option, some, List, [], ◌∷◌,
  length, arith, Bool-cases, Option-cases, inl, inr, leb, lt, Float, Num, ◌⊖◌,
}
use mathlib.Core.Path.{subst}
use oanda_trader.Recovery.{
  Outcome, returned, raised, BreakerState, closed, open_state, half_open, CircuitBreaker,
  new_breaker, attempt, call,
}
use oanda_trader.Recovery.Breaker.{Counted, IsValid, Event, call-IsValid, new_breaker-IsValid, run}

-- A state of the specification.
pub data View : Type 0 where
  counting : ℕ → View
  tripped trying : View

-- What a trial may end in: a result, an expected error, or any other error.
pub data Trial : View → Type 0 where
  succeeds : Trial (counting 0)
  fails : Trial tripped
  passes_on : Trial trying

-- What one call may do, for a limit on the failures.
pub data Step (limit : ℕ) : View → View → Type 0 where
  passes : {n : ℕ} → Step limit (counting n) (counting n)
  counts : {n : ℕ} → n + 1 < limit → Step limit (counting n) (counting (n + 1))
  trips : {n : ℕ} → limit ≤ n + 1 → Step limit (counting n) tripped
  refuses : Step limit tripped tripped
  tries : {v : View} → Trial v → Step limit tripped v
  retries : {v : View} → Trial v → Step limit trying v

-- So many steps, one after another.
pub data Trace (limit : ℕ) : ℕ → View → View → Type 0 where
  here : {s : View} → Trace limit 0 s s
  next : {k : ℕ} {s t u : View} → Step limit s t → Trace limit k t u → Trace limit (suc k) s u

-- What can be reached in so many steps: a count needs as many, and a trip as many as the limit.
abbrev pub Reachable : ℕ → ℕ → View → Type 0
Reachable limit k (counting n) = n ≤ k
Reachable limit k _ = limit ≤ k

module _ (limit : ℕ) where
  Trial-Reachable : (k : ℕ) {v : View} → Trial v → limit ≤ k → Reachable limit (suc k) v
  Trial-Reachable k succeeds h = omega arith
  Trial-Reachable k fails h = omega (arith, h)
  Trial-Reachable k passes_on h = omega (arith, h)

  Step-Reachable :
      (k : ℕ) {t u : View} → Step limit t u → Reachable limit k t → Reachable limit (suc k) u
  Step-Reachable k passes h = omega (arith, h)
  Step-Reachable k (counts l) h = omega (arith, h)
  Step-Reachable k (trips l) h = omega (arith, h, l)
  Step-Reachable k refuses h = omega (arith, h)
  Step-Reachable k (tries t) h = Trial-Reachable k t h
  Step-Reachable k (retries t) h = Trial-Reachable k t h

  Trace-Reachable :
      (before k total : ℕ) {s u : View}
      → before + k ≡ total
      → Trace limit k s u
      → Reachable limit before s
      → Reachable limit total u
  Trace-Reachable before zero total {s} e here h =
      subst (λ n. Reachable limit n s) (omega (arith, e)) h
  Trace-Reachable before (suc k) total e (next s r) h =
      Trace-Reachable (suc before) k total (omega (arith, e)) r (Step-Reachable before s h)

State-cases : (s : BreakerState) → (s ≡ closed) ⊎ (s ≡ open_state) ⊎ (s ≡ half_open)
State-cases closed = inl refl
State-cases open_state = inr (inl refl)
State-cases half_open = inr (inr refl)

module _ ⦃F : Float⦄ where
  abbrev pub view_of : BreakerState → ℕ → View
  view_of closed n = counting n
  view_of open_state n = tripped
  view_of half_open n = trying

  abbrev pub view : CircuitBreaker → View
  view c = view_of c.state c.failure_count

  module _ {A E : Type 0} (is_expected : E → Bool) where
    attempt-Step :
        (c : CircuitBreaker) (o : Outcome A E) (later : Num)
        → c.state ≡ closed
        → Step c.failure_threshold
            (counting c.failure_count)
            (view (attempt is_expected c o later).0)
    unfolding attempt
    attempt-Step c (returned a) later s = rw s passes
    attempt-Step c (raised e) later s = elim (Bool-cases (is_expected e)) [
      | inl x ↦ elim (Bool-cases (leb c.failure_threshold (c.failure_count + 1))) [
        | inl t ↦ rw (s, x, t) (trips (ground (arith, t)))
        | inr t ↦ rw (s, x, t) (counts (ground (arith, t)))
      ]
      | inr x ↦ rw (s, x) passes
    ]

    -- A trial is entered with failures enough.
    attempt-Trial :
        (c : CircuitBreaker) (o : Outcome A E) (later : Num)
        → c.state ≡ half_open
        → c.failure_threshold ≤ c.failure_count
        → Trial (view (attempt is_expected c o later).0)
    unfolding attempt
    attempt-Trial c (returned a) later s h = rw s succeeds
    attempt-Trial c (raised e) later s h = elim (Bool-cases (is_expected e)) [
      | inl x ↦
          let enough : leb c.failure_threshold (c.failure_count + 1) ≡ true = ground (arith, h) in
          rw (s, x, enough) fails
      | inr x ↦ rw (s, x) passes_on
    ]

    -- An open breaker, by the time of its last failure.
    call-Step_open :
        (c : CircuitBreaker) (now : Num) (o : Outcome A E) (later : Num)
        → c.state ≡ open_state
        → Counted open_state c
        → Step c.failure_threshold tripped (view (call is_expected c now o later).0)
    unfolding call
    call-Step_open c now o later s (k, d) = elim (Option-cases c.last_failure_time) [
      | inl e ↦ absurd (ground (arith, d, e))
      | inr (t, e) ↦ elim (Bool-cases (lt c.recovery_timeout (now ⊖ t))) [
        | inl f ↦
            rw (s, e, f)
              (tries (
                attempt-Trial (record c { state = half_open; last_failure_time = some t }) o later
                  refl k))
        | inr f ↦ rw (s, e, f) refuses
      ]
    ]

    -- A valid breaker's call takes a step.
    call-Step :
        (c : CircuitBreaker) (now : Num) (o : Outcome A E) (later : Num)
        → IsValid c
        → Step c.failure_threshold (view c) (view (call is_expected c now o later).0)
    unfolding call
    call-Step c now o later v =
        let counted : (s : BreakerState) → c.state ≡ s → Counted s c =
          λ s e. subst (λ z. Counted z c) e v.counted in
        let after = (call is_expected c now o later).0 in
        let from : (s : BreakerState)
            → c.state ≡ s
            → Step c.failure_threshold (view_of s c.failure_count) (view after)
            → Step c.failure_threshold (view c) (view after) =
          λ s e h.
            subst (λ z. Step c.failure_threshold (view_of z c.failure_count) (view after)) (sym e)
              h in
        elim (State-cases c.state) [
          | inl e ↦ from closed e (rw (e, call) (attempt-Step c o later e))
          | inr (inl e) ↦ from open_state e (call-Step_open c now o later e (counted open_state e))
          | inr (inr e) ↦
              from half_open e
                (rw (e, call) (retries (attempt-Trial c o later e (counted half_open e))))
        ]

    run-Trace :
        (limit : ℕ) (c : CircuitBreaker) (es : List (Event A E))
        → IsValid c
        → c.failure_threshold ≡ limit
        → Trace limit (length es) (view c) (view (run is_expected c es).0)
    unfolding run
    run-Trace limit c [] v e = here
    run-Trace limit c (x ∷ es) v e =
        let c' = (call is_expected c x.now x.outcome x.later).0 in
        let (v', fine, same) = call-IsValid is_expected c x.now x.outcome x.later v in
        next (subst (λ n. Step n (view c) (view c')) e (call-Step c x.now x.outcome x.later v))
          (run-Trace limit c' es v' (same ∙ e))

    -- The breaker refines the automaton: any calls of a new breaker with a positive threshold are,
    -- seen through its state and its count, as many steps of the automaton from a count of 0; so the
    -- count is at most the number of the calls, and the breaker has left the state "closed" only if
    -- they are at least as many as the threshold.
    pub run-Step :
        (threshold : ℕ) (recovery : Num) (timeout : Option Num) (es : List (Event A E))
        → 0 < threshold
        → let after = view (run is_expected (new_breaker threshold recovery timeout) es).0 in
          Trace threshold (length es) (counting 0) after × Reachable threshold (length es) after
    unfolding new_breaker
    run-Step threshold recovery timeout es h =
        let start = new_breaker threshold recovery timeout in
        let r =
          run-Trace threshold start es (new_breaker-IsValid threshold recovery timeout h) refl in
        (r, Trace-Reachable threshold 0 (length es) (length es) (omega arith) r (omega arith))
