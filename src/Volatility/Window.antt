-- ===== src/Volatility/Window.antt =====
-- The memory of `VolatilityDetector` in volatility_detector.py, against the whole list of averages.
use mathlib.Core.List.{reverse, reverse-append}
use oanda_trader.Base.{
  Numpy, ℕ, zero, suc, ◌<◌, ◌≡◌, refl, sym, ap, ◌∙◌, inl, inr, List, [], ◌∷◌, ◌++◌, length, take,
  arith, ltb, List-cases, take-nil, length-append, Bool-cases, ltb→lt, not-ltb→le,
  take_of_length-le, length-take-le, if◌then◌else◌, Float, Num, lt,
}
use oanda_trader.Volatility.{
  VolatilityState, unknown, low, normal, high, AdjustmentMode, VolatilityDetector, new_detector,
  valid_atrs, drop_first, push_history, classify, record_average, detect_volatility,
}

module _ ⦃F : Float⦄ where
  reverse-cons : (x : Num) (xs : List Num) → reverse (x ∷ xs) ≡ reverse xs ++ (x ∷ [])
  reverse-cons x xs = reverse-append (x ∷ []) xs

  length-reverse : (xs : List Num) → length (reverse xs) ≡ length xs
  length-reverse [] = refl
  length-reverse (x ∷ xs) =
      ap length (reverse-cons x xs)
      ∙ omega (arith, length-append (reverse xs) (x ∷ []), length-reverse xs)

  drop_first-append :
      (xs ys : List Num) → 0 < length xs → drop_first (xs ++ ys) ≡ drop_first xs ++ ys
  drop_first-append [] ys h = absurd (omega arith)
  drop_first-append (x ∷ xs) ys h = refl

  drop_first-reverse :
      (n : ℕ) (xs : List Num) → length xs ≡ suc n → drop_first (reverse xs) ≡ reverse (take n xs)
  drop_first-reverse n [] h = absurd (omega arith)
  drop_first-reverse zero (x ∷ []) h = refl
  drop_first-reverse zero (x ∷ y ∷ xs) h = absurd (omega arith)
  drop_first-reverse (suc n) (x ∷ xs) h =
      ap drop_first (reverse-cons x xs)
      ∙ drop_first-append (reverse xs) (x ∷ []) (omega (arith, length-reverse xs))
      ∙ ap (λ l. l ++ (x ∷ [])) (drop_first-reverse n xs (omega arith))
      ∙ sym (reverse-cons x (take n xs))

  take-take : (n : ℕ) (x : Num) (xs : List Num) → take n (x ∷ take n xs) ≡ take n (x ∷ xs)
  take-take zero x xs = refl
  take-take (suc n) x [] = refl
  take-take (suc n) x (y ∷ xs) = ap (◌∷◌ x) (take-take n y xs)

  -- Pushing onto the last `window` averages gives the last `window` of the longer list.
  push-reverse :
      (window : ℕ) (xs : List Num) (x : Num)
      → push_history window (reverse (take window xs)) x ≡ reverse (take window (x ∷ xs))
  unfolding push_history
  push-reverse window xs x =
      let recent = take window xs in
      let pushed : length (reverse recent ++ (x ∷ [])) ≡ suc (length recent) =
        omega (arith, length-append (reverse recent) (x ∷ []), length-reverse recent) in
      elim (Bool-cases (ltb window (length (reverse recent ++ (x ∷ []))))) [
        | inl over ↦ rw over (
            ap drop_first (sym (reverse-cons x recent))
            ∙ drop_first-reverse window (x ∷ recent)
                (omega (arith, ltb→lt _ _ over, length-take-le window xs))
            ∙ ap reverse (take-take window x xs))
        | inr under ↦ rw under (
            sym (reverse-cons x recent)
            ∙ ap reverse (
                sym (take_of_length-le window (x ∷ recent) (omega (arith, not-ltb→le _ _ under)))
                ∙ take-take window x xs))
      ]

  -- The averages of the cycles that had a valid reading, latest first.
  unfoldable pub averages : Numpy → List (Num × List Num) → List Num
  averages np [] = []
  averages np ((now, readings) ∷ earlier) = elim (valid_atrs readings) [
    | [] ↦ averages np earlier
    | a ∷ rest ↦ np.mean (a ∷ rest) ∷ averages np earlier
  ]

  -- The detector after its cycles, latest first: each has the clock and its readings.
  unfoldable pub run : Numpy → VolatilityDetector → List (Num × List Num) → VolatilityDetector
  run np d [] = d
  run np d ((now, readings) ∷ earlier) = (detect_volatility np (run np d earlier) now readings).0

  -- How many averages at the head lie below the threshold.
  unfoldable pub leading_low : Num → List Num → ℕ
  leading_low t [] = 0
  leading_low t (x ∷ xs) = if lt x t then suc (leading_low t xs) else 0

  -- The state that the latest average stands for.
  unfoldable pub state_of : Num → Num → List Num → VolatilityState
  state_of low_t normal_t [] = unknown
  state_of low_t normal_t (x ∷ xs) =
      if lt x low_t then low else (if lt x normal_t then normal else high)

  -- What a detector remembers of the averages so far, latest first.
  pub record Remembers (low_t normal_t : Num) (mode : AdjustmentMode) (window : ℕ) (xs : List Num)
      (d : VolatilityDetector) : Type 0 where
    pub mode_same : d.adjustment_mode ≡ mode
    pub low_same : d.low_threshold ≡ low_t
    pub normal_same : d.normal_threshold ≡ normal_t
    pub window_same : d.atr_window ≡ window
    pub history : d.atr_history ≡ reverse (take window xs)
    pub count : d.consecutive_low_volatility_cycles ≡ leading_low low_t xs
    pub state : d.current_volatility_state ≡ state_of low_t normal_t xs

  record_average-Remembers :
      (np : Numpy) (low_t normal_t : Num) (mode : AdjustmentMode) (window : ℕ) (xs : List Num)
      (d : VolatilityDetector) (now : Num) (valid : List Num) (avg : Num)
      → Remembers low_t normal_t mode window xs d
      → Remembers low_t normal_t mode window (avg ∷ xs) (record_average np d now valid avg).0
  unfolding record_average leading_low state_of classify
  record_average-Remembers np low_t normal_t mode window xs d now valid avg r = record {
    mode_same = r.mode_same;
    low_same = r.low_same;
    normal_same = r.normal_same;
    window_same = r.window_same;
    history = rw (r.window_same, r.history) (push-reverse window xs avg);
    count = ground arith;
    state = ground arith;
  }

  new-Remembers :
      (low_t normal_t : Num) (mode : AdjustmentMode) (window : ℕ)
      → Remembers low_t normal_t mode window [] (new_detector low_t normal_t mode window)
  unfolding new_detector leading_low state_of
  new-Remembers low_t normal_t mode window = record {
    mode_same = refl;
    low_same = refl;
    normal_same = refl;
    window_same = refl;
    history = ap reverse (sym (take-nil window));
    count = refl;
    state = refl;
  }

  -- After any cycles of a new detector: the history is the last `atr_window` averages of the cycles
  -- that had a valid reading, oldest first, the count is the number of the latest averages in a row
  -- below the low threshold, and the state is the class of the latest average, unknown if none.
  pub run-Remembers :
      (np : Numpy) (low_t normal_t : Num) (mode : AdjustmentMode) (window : ℕ)
      (cycles : List (Num × List Num))
      → Remembers low_t normal_t mode window
          (averages np cycles)
          (run np (new_detector low_t normal_t mode window) cycles)
  unfolding run averages detect_volatility
  run-Remembers np low_t normal_t mode window [] = new-Remembers low_t normal_t mode window
  run-Remembers np low_t normal_t mode window ((now, readings) ∷ earlier) =
      let before = run np (new_detector low_t normal_t mode window) earlier in
      let ih = run-Remembers np low_t normal_t mode window earlier in
      elim (List-cases (valid_atrs readings)) [
        | inl e ↦ rw (e, averages, run, detect_volatility) ih
        | inr (a, rest, e) ↦
            rw (e, averages, run, detect_volatility)
              (record_average-Remembers np low_t normal_t mode window (averages np earlier) before
                now (a ∷ rest) (np.mean (a ∷ rest)) ih)
      ]
