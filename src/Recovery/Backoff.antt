-- ===== src/Recovery/Backoff.antt =====
-- What `ExponentialBackoff.execute_with_retry` of error_recovery.py returns, and how long it sleeps.
use oanda_trader.Base.{
  ℕ, zero, suc, ◌+◌, ◌<◌, ◌≡◌, refl, ap, ◌⊎◌, inl, inr, Option, none, some, List, [], ◌∷◌, length,
  arith, Float, Num, ◌≼◌, ◌≺◌, ◌⊗◌, nought, lt, Bool-cases,
}
use mathlib.Core.Path.{subst}
use oanda_trader.Base.NumberLaws.{⊗_nonneg}
use native.Mathlib.Nat.{add-zero, zero-add}
use oanda_trader.Recovery.{
  Outcome, returned, raised, Ending, value, error, ExponentialBackoff, raise_last, next_delay,
  attempt_loop, execute_with_retry,
}

-- The calls numbered from `i` on, `k` of them, all raise.
abbrev pub Fails : {A E : Type 0} → (ℕ → Outcome A E) → ℕ → ℕ → Type 0
Fails func i zero = Unit
Fails {E} func i (suc k) = ((e : E) × (func i ≡ raised e)) × Fails func (suc i) k

Outcome-cases :
    {A E : Type 0} (o : Outcome A E) → ((a : A) × (o ≡ returned a)) ⊎ ((e : E) × (o ≡ raised e))
Outcome-cases (returned a) = inl (a, refl)
Outcome-cases (raised e) = inr (e, refl)

module _ ⦃F : Float⦄ (b : ExponentialBackoff) where
  -- The first `k` values of `delay`, from `d` on.
  unfoldable delays : Num → ℕ → List Num
  delays d zero = []
  delays d (suc k) = d ∷ delays (next_delay b d) k

  -- Sleeps of which the first is `d`: each next one is the factor times the one before, but
  -- `max_delay` where that is more.
  pub data Schedule : Num → List Num → Type 0 where
    finished : (d : Num) → Schedule d []
    grows :
        (d : Num) (ds : List Num)
        → d ⊗ b.backoff_factor ≼ b.max_delay
        → Schedule (d ⊗ b.backoff_factor) ds
        → Schedule d (d ∷ ds)
    is_cut :
        (d : Num) (ds : List Num)
        → b.max_delay ≺ d ⊗ b.backoff_factor
        → Schedule b.max_delay ds
        → Schedule d (d ∷ ds)

  next_delay-cases :
      (d : Num)
      → ((d ⊗ b.backoff_factor ≼ b.max_delay) × (next_delay b d ≡ d ⊗ b.backoff_factor))
        ⊎ ((b.max_delay ≺ d ⊗ b.backoff_factor) × (next_delay b d ≡ b.max_delay))
  unfolding next_delay
  next_delay-cases d = elim (Bool-cases (lt b.max_delay (d ⊗ b.backoff_factor))) [
    | inl e ↦ rw e (inr (ground arith, refl))
    | inr e ↦ rw e (inl (ground arith, refl))
  ]

  delays-Schedule : (d : Num) (k : ℕ) → Schedule d (delays d k)
  unfolding delays
  delays-Schedule d zero = finished d
  delays-Schedule d (suc k) = elim (next_delay-cases d) [
    | inl (h, e) ↦
        grows d _ h (
          subst (λ x. Schedule x (delays (next_delay b d) k)) e
            (delays-Schedule (next_delay b d) k))
    | inr (h, e) ↦
        is_cut d _ h (
          subst (λ x. Schedule x (delays (next_delay b d) k)) e
            (delays-Schedule (next_delay b d) k))
  ]

  length-delays : (d : Num) (k : ℕ) → length (delays d k) ≡ k
  unfolding delays
  length-delays d zero = refl
  length-delays d (suc k) = ap suc (length-delays (next_delay b d) k)

  -- The settings with which no delay is negative.
  pub record IsBackoff : Type 0 where
    pub base_nonneg : nought ≼ b.base_delay
    pub factor_nonneg : nought ≼ b.backoff_factor
    pub max_nonneg : nought ≼ b.max_delay

  next_delay-nonneg : (d : Num) → IsBackoff → nought ≼ d → nought ≼ next_delay b d
  next_delay-nonneg d ok h = elim (next_delay-cases d) [
    | inl (l, e) ↦ rw e (⊗_nonneg d b.backoff_factor h ok.factor_nonneg)
    | inr (l, e) ↦ rw e ok.max_nonneg
  ]

  module _ {A E : Type 0} (func : ℕ → Outcome A E) (valid : IsBackoff) where
    loop_success :
        (left i k : ℕ) (d : Num) (last : Option E) (a : A)
        → i + left ≡ b.max_retries
        → k < left
        → nought ≼ d
        → Fails func i k
        → func (i + k) ≡ returned a
        → attempt_loop b func left i d last ≡ (value a, delays d k)
    unfolding attempt_loop delays
    loop_success zero i k d last a s h n f r = absurd (omega arith)
    loop_success (suc left) i zero d last a s h n f r = ground arith
    loop_success (suc left) i (suc k) d last a s h n f r = ground (
      arith,
      loop_success left (suc i) k (next_delay b d) (some f.0.0) a,
      next_delay-nonneg d valid n,
    )

    loop_failure :
        (left i : ℕ) (d : Num) (last : Option E) (e : E)
        → i + suc left ≡ b.max_retries
        → nought ≼ d
        → Fails func i left
        → func (i + left) ≡ raised e
        → attempt_loop b func (suc left) i d last ≡ (error e, delays d left)
    unfolding attempt_loop delays raise_last
    loop_failure zero i d last e s n f r = ground arith
    loop_failure (suc left) i d last e s n f r = ground (
      arith,
      loop_failure left (suc i) (next_delay b d) (some f.0.0) e,
      next_delay-nonneg d valid n,
    )

    -- If the first `k` calls raise, with `k < max_retries`, and the next one returns, then its value
    -- is the result, and the sleeps are the first `k` delays: `base_delay` at first, and then each
    -- time the factor times the last one, cut at `max_delay`.
    execute_success :
        (k : ℕ) (a : A)
        → k < b.max_retries
        → Fails func 0 k
        → func k ≡ returned a
        → execute_with_retry b func ≡ (value a, delays b.base_delay k)
    unfolding execute_with_retry
    execute_success k a h f r =
        loop_success b.max_retries 0 k b.base_delay none a (omega arith) h valid.base_nonneg f
          (rw (zero-add k) r)

    -- If all `max_retries` calls raise, and there is at least one, the error of the last call is
    -- raised, after one sleep fewer than there were calls.
    execute_failure :
        (k : ℕ) (e : E)
        → suc k ≡ b.max_retries
        → Fails func 0 k
        → func k ≡ raised e
        → (execute_with_retry b func ≡ (error e, delays b.base_delay k))
          × (length (execute_with_retry b func).1 ≡ k)
    unfolding execute_with_retry
    execute_failure k e h f r =
        let result =
          subst (λ n. attempt_loop b func n 0 b.base_delay none ≡ (error e, delays b.base_delay k))
            h
            (loop_failure k 0 b.base_delay none e (omega arith) valid.base_nonneg f
              (rw (zero-add k) r)) in
        (result, rw result (length-delays b.base_delay k))

    -- The first call that returns, if one of so many does.
    first_return :
        (i n : ℕ)
        → ((k : ℕ) × (a : A) × (k < n) × Fails func i k × (func (i + k) ≡ returned a))
          ⊎ Fails func i n
    first_return i zero = inr tt
    first_return i (suc n) = elim (Outcome-cases (func i)) [
      | inl (a, e) ↦ inl (0, a, omega arith, tt, rw (add-zero i) e)
      | inr (x, e) ↦ elim (first_return (suc i) n) [
        | inl (k, a, h, f, r) ↦ inl (
          suc k,
          a,
          omega (arith, h),
          ((x, e), f),
          subst (λ j. func j ≡ returned a) (omega arith) r,
        )
        | inr f ↦ inr ((x, e), f)
      ]
    ]

    last_failure :
        (i k : ℕ) → Fails func i (suc k) → Fails func i k × ((e : E) × (func (i + k) ≡ raised e))
    last_failure i zero ((e, h), f) = (tt, (e, rw (add-zero i) h))
    last_failure i (suc k) (h, f) =
        let (f', (e, r)) = last_failure (suc i) k f in
        ((h, f'), (e, subst (λ j. func j ≡ raised e) (omega arith) r))

    -- The two ways in which a protected call ends, and how long it sleeps before.
    pub data Retried : Ending A E × List Num → Type 0 where
      in_time :
          (k : ℕ) (a : A) (sleeps : List Num)
          → k < b.max_retries
          → Fails func 0 k
          → func k ≡ returned a
          → length sleeps ≡ k
          → Schedule b.base_delay sleeps
          → Retried (value a, sleeps)
      too_late :
          (k : ℕ) (e : E) (sleeps : List Num)
          → suc k ≡ b.max_retries
          → Fails func 0 k
          → func k ≡ raised e
          → length sleeps ≡ k
          → Schedule b.base_delay sleeps
          → Retried (error e, sleeps)

    all_failed :
        (n : ℕ) → n ≡ b.max_retries → 0 < n → Fails func 0 n → Retried (execute_with_retry b func)
    all_failed zero m h f = absurd (omega (arith, h))
    all_failed (suc k) m h f =
        let (f', (e, r)) = last_failure 0 k f in
        let r' : func k ≡ raised e = rw (← zero-add k) r in
        rw (execute_failure k e m f' r').0
          (too_late k e _ m f' r' (length-delays b.base_delay k) (delays-Schedule b.base_delay k))

    -- With settings that are not negative, a protected call always ends, if at least one try is
    -- allowed: either with the value of the first call that returns, which is among the first
    -- `max_retries`, or with the error of the last of `max_retries` calls that all raise. The sleeps
    -- are one for each failed call but the last one allowed: `base_delay` at first, and then each time
    -- the factor times the last one, or `max_delay` where that is more.
    pub execute_with_retry-Retried : 0 < b.max_retries → Retried (execute_with_retry b func)
    execute_with_retry-Retried h = elim (first_return 0 b.max_retries) [
      | inl (k, a, l, f, r) ↦
          let r' : func k ≡ returned a = rw (← zero-add k) r in
          rw (execute_success k a l f r')
            (in_time k a _ l f r' (length-delays b.base_delay k) (delays-Schedule b.base_delay k))
      | inr f ↦ all_failed b.max_retries refl h f
    ]
