-- ===== src/Backtest/Walks.antt =====
-- The walks of `walk_forward_analysis` in backtest.py.
use oanda_trader.Base.{
  ℕ, zero, suc, ◌+◌, ◌-◌, ◌*◌, ◌/◌, ◌≤◌, ◌<◌, ◌≡◌, refl, false, Option, none, some, List, [], ◌∷◌,
  arith, length, take, drop, ltb, Bool-cases, inl, inr, ◌⊎◌, Float, Numpy, nought, eq, Result, ok,
  zero_division,
}
use mathlib.Core.Path.{ap₂, subst}
use native.Mathlib.Nat.{div-mul-le_self, suc-mul, lt-div-mul-add, le-div_iff_mul-le}
use oanda_trader.Backtest.{
  slice, Window, window, sufficient_test_period, calculate_performance_metrics, RunReport,
  RunMetrics, backtest, Walk, WalkForward, aggregate, walks_from, walk_forward_analysis,
}

-- A window is inside the data: it trains on just the rows before those that it tests on.
abbrev pub Inside : ℕ → ℕ → ℕ → Window → Type 0
Inside total train test w =
    (w.train_start + train ≡ w.train_end)
    × (w.test_start ≡ w.train_end)
    × (w.test_start + test ≡ w.test_end)
    × (w.test_end ≤ total)

-- The rows that a walk tests on, by their first and their number.
test_rows :
    {A : Type 0} (candles : List A) (walk train test : ℕ)
    → slice (walk * test + train) (walk * test + train + test) candles
      ≡ take test (drop (train + walk * test) candles)
test_rows candles walk train test = ap₂ (λ n k. take n (drop k candles)) (omega arith) (omega arith)

module _ ⦃F : Float⦄ where
  module _ {A : Type 0} (run : List A → RunReport) (candles : List A) (train test : ℕ) where
    -- The walks are numbered from `walk`, each inside the data; each tests on the rows after those of
    -- the walk before, and its figures are those of a run on just the rows that it tests on.
    abbrev pub Consecutive : ℕ → List Walk → Type 0
    Consecutive walk [] = Unit
    Consecutive walk (w ∷ ws) =
        (w.rows.walk_number ≡ suc walk)
        × (w.rows.test_start ≡ train + walk * test)
        × Inside (length candles) train test w.rows
        × (backtest (run (take test (drop (train + walk * test) candles))) ≡ ok w.metrics)
        × Consecutive (suc walk) ws

  Result-cases : {B : Type 0} (r : Result B) → ((b : B) × (r ≡ ok b)) ⊎ (r ≡ zero_division)
  Result-cases (ok b) = inl (b, refl)
  Result-cases zero_division = inr refl

  never_fails :
      (r : RunReport) → eq r.starting_value nought ≡ false → backtest r ≡ zero_division → ⊥
  unfolding backtest calculate_performance_metrics
  never_fails r h e = ground arith

  -- A run whose starting value is not 0 has metrics.
  backtest-ok :
      (r : RunReport) → eq r.starting_value nought ≡ false → (m : RunMetrics) × (backtest r ≡ ok m)
  backtest-ok r h = elim (Result-cases (backtest r)) [
    | inl e ↦ e
    | inr e ↦ absurd (never_fails r h e)
  ]

  module _ {A : Type 0} (run : List A → RunReport) (candles : List A) (train test : ℕ)
      (starts : (xs : List A) → eq (run xs).starting_value nought ≡ false) where
    walks_from_lem :
        (left walk : ℕ)
        → train + (walk * test + left * test) ≤ length candles
        → (ws : List Walk) × (walks_from run candles train test left walk ≡ ok ws)
          × (length ws ≡ left)
          × Consecutive run candles train test walk ws
    unfolding walks_from
    walks_from_lem zero walk h = ([], refl, refl, tt)
    walks_from_lem (suc left) walk h =
        let now = suc-mul left test in
        let next = suc-mul walk test in
        let fits : walk * test + train + test ≤ length candles = omega (arith, now) in
        let (m, e) =
          backtest-ok (run (slice (walk * test + train) (walk * test + train + test) candles))
            (starts _) in
        let inside : ltb (length candles) (walk * test + train + test) ≡ false =
          ground (arith, fits) in
        let (ws, f, g, c) = walks_from_lem left (suc walk) (omega (arith, now, next)) in
        (
          record { rows = window train test walk; metrics = m } ∷ ws,
          rw (inside, e, f) refl,
          omega (arith, g),
          (
            refl,
            omega arith,
            (omega arith, refl, refl, fits),
            subst (λ rows. backtest (run rows) ≡ ok m) (test_rows candles walk train test) e,
            c,
          ),
        )

  module _ {A : Type 0} (run : List A → RunReport) (candles : List A) (train test : ℕ) where
    -- What an analysis has done: it never fails, it is left out only for too little data, and
    -- otherwise its walks leave fewer rows than a test period untested at the end.
    abbrev pub IsAnalysis : Result (Option WalkForward) → Type 0
    IsAnalysis zero_division = ⊥
    IsAnalysis (ok none) = length candles < train + test
    IsAnalysis (ok (some f)) =
        (train + test ≤ length candles)
        × (f.num_walks ≡ length f.walks)
        × (1 ≤ f.num_walks)
        × (train + f.num_walks * test ≤ length candles)
        × (length candles < train + f.num_walks * test + test)
        × Consecutive run candles train test 0 f.walks

    aggregate-IsAnalysis :
        (np : Numpy) (n : ℕ) (ws : List Walk)
        → length ws ≡ n
        → (train + test ≤ length candles)
          × (1 ≤ n)
          × (train + n * test ≤ length candles)
          × (length candles < train + n * test + test)
        → Consecutive run candles train test 0 ws
        → IsAnalysis (ok (aggregate np ws))
    aggregate-IsAnalysis np n [] e (h, k, l, m) c = absurd (omega (arith, e))
    aggregate-IsAnalysis np n (w ∷ ws) e (h, k, l, m) c =
        (h, refl, omega (arith, k, e), rw e l, rw e m, c)

  -- With data for one walk at least, and runs whose starting value is not 0, the analysis ends with
  -- all the walks that fit: they are numbered from 1, each is inside the data and tests on a full
  -- period right after its training rows and the tests of the walk before, its figures are those of a
  -- backtest of just the rows of that test period, and fewer rows than a period are left over. With less data it gives nothing. A test period under 50 counts as 50.
  pub walk_forward_analysis-IsAnalysis :
      {A : Type 0} (np : Numpy) (run : List A → RunReport) (candles : List A)
      (train_period test_period : ℕ)
      → ((xs : List A) → eq (run xs).starting_value nought ≡ false)
      → IsAnalysis run candles train_period
          (sufficient_test_period test_period)
          (walk_forward_analysis np run candles train_period test_period)
  unfolding walk_forward_analysis
  walk_forward_analysis-IsAnalysis np run candles train_period test_period starts =
      let test : ℕ = sufficient_test_period test_period in
      let total : ℕ = length candles in
      let positive : 0 < test = ground arith in
      let num_walks : ℕ = (total - train_period) / test in
      elim (Bool-cases (ltb total (train_period + test))) [
        | inl h ↦ rw h (ground arith)
        | inr h ↦
            let enough : train_period + test ≤ total = ground arith in
            let one_fits : 1 ≤ num_walks = (le-div_iff_mul-le positive).1 (omega (arith, enough)) in
            let inside : train_period + num_walks * test ≤ total =
              omega (arith, div-mul-le_self (total - train_period) test, enough) in
            let last : total < train_period + num_walks * test + test =
              omega (arith, lt-div-mul-add {a = total - train_period} positive, enough) in
            let (ws, e, g, c) =
              walks_from_lem run candles train_period test starts num_walks 0
                (omega (arith, inside)) in
            rw (h, e)
              (aggregate-IsAnalysis run candles train_period test np num_walks ws g
                (enough, one_fits, inside, last) c)
      ]
