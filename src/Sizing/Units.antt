-- ===== src/Sizing/Units.antt =====
-- The least and the largest sizes that `calculate_position_size` of position_sizing.py gives.
use oanda_trader.Base.{
  Result, ok, zero_division, ◌>>=◌, ◌≡◌, ◌⊎◌, refl, true, Option, none, some, arith, Bool-cases,
  inl, inr, ◌||◌, Float, Num, ◌⊖◌, ◌⊗◌, ◌⊘◌, ◌≼◌, ◌≺◌, dec, of_ℕ, nought, one, eq, le, abs, max,
  int,
}
use oanda_trader.Base.NumberLaws.{⊗_nonneg, ⊘_nonneg, dec_nonneg, ≼_refl}
use oanda_trader.Sizing.{
  PositionSizer, SizingMethod, fixed_percentage, kelly_criterion, Metrics,
  calculate_kelly_criterion, allowed_margin, calculate_margin_based, enforce_minimum_position_size,
  size_by_margin, size_by_kelly, size_by_percentage, size_by_method, calculate_position_size,
  calculate_fixed_percentage, kelly_units, get_or,
}

module _ ⦃F : Float⦄ where
  -- The size by margin is at least 100, and beyond 100 neither the margin left by the buffer nor the
  -- allowed share of the balance, each at the assumed leverage of 20, is exceeded.
  calculate_margin_based_range :
      (balance available price buffer usage : Num)
      → let units = calculate_margin_based balance available price buffer usage in
        (of_ℕ 100 ≼ units)
        × (units ≼ max (of_ℕ 100) (((available ⊗ (one ⊖ buffer)) ⊗ of_ℕ 20) ⊘ price))
        × (units ≼ max (of_ℕ 100) (((balance ⊗ usage) ⊗ of_ℕ 20) ⊘ price))
  unfolding calculate_margin_based allowed_margin
  calculate_margin_based_range balance available price buffer usage =
      let allowed = allowed_margin balance available buffer usage in
      elim (Bool-cases (le price nought)) [
        | inl e ↦ rw e (≼_refl _, ground arith, ground arith)
        | inr e ↦ elim (Bool-cases (le allowed nought)) [
          | inl f ↦ rw (e, f) (≼_refl _, ground arith, ground arith)
          | inr f ↦
              let p : nought ≺ price = ground arith in
              let q : nought ≼ allowed = ground arith in
              let room = available ⊗ (one ⊖ buffer) in
              let share = balance ⊗ usage in
              let twenty = ≼_refl (of_ℕ 20) in
              let leveraged = ⊗_nonneg allowed (of_ℕ 20) q (dec_nonneg 20 0) in
              let below = F.trunc_le _ (⊘_nonneg (allowed ⊗ of_ℕ 20) price leveraged p) in
              let by_room = F.div_mono (allowed ⊗ of_ℕ 20) (room ⊗ of_ℕ 20) price p (
                F.mul_mono allowed room (of_ℕ 20) (of_ℕ 20) q (dec_nonneg 20 0) (ground arith)
                  twenty) in
              let by_share = F.div_mono (allowed ⊗ of_ℕ 20) (share ⊗ of_ℕ 20) price p (
                F.mul_mono allowed share (of_ℕ 20) (of_ℕ 20) q (dec_nonneg 20 0) (ground arith)
                  twenty) in
              rw (e, f)
                (ground arith, ground (arith, below, by_room), ground (arith, below, by_share))
        ]
      ]

  -- Units that are enough: 100, and the least trade value at the risk of a unit.
  pub record IsEnough (s : PositionSizer) (stop pip units : Num) : Type 0 where
    pub at_least : of_ℕ 100 ≼ units
    pub valued : (stop ≼ nought) ⊎ (pip ≼ nought) ⊎ (int (s.min_trade_value ⊘ (stop ⊗ pip)) ≼ units)

  -- Whether the Kelly formula fails for these metrics, if it is used.
  abbrev pub KellyFails : PositionSizer → SizingMethod → Option Metrics → Type 0
  KellyFails s kelly_criterion (some m) =
      calculate_kelly_criterion s (get_or m.win_rate (dec 5 1)) (get_or m.average_profit (dec 10 1))
        (abs (get_or m.average_loss (nought ⊖ dec 10 1)))
      ≡ zero_division
  KellyFails s _ _ = ⊥

  -- What a call gives: enough units, or an error for a cause that the inputs show.
  abbrev pub IsSize : PositionSizer → Num → Num → Type 0 → Result (Num × Num) → Type 0
  IsSize s stop pip cause (ok r) = IsEnough s stop pip r.0
  IsSize s stop pip cause zero_division = (eq (stop ⊗ pip) nought ≡ true) ⊎ cause

  enforced :
      (s : PositionSizer) (units pip stop : Num) (risk : Num → Num) (cause : Type 0)
      → of_ℕ 100 ≼ units
      → IsSize s stop pip cause
          (◌>>=◌ (enforce_minimum_position_size s units pip stop) (λ u. ok (u, risk u)))
  unfolding enforce_minimum_position_size
  enforced s units pip stop risk cause h = elim (Bool-cases (le stop nought || le pip nought)) [
    | inl e ↦ rw e (record { at_least = ground arith; valued = ground arith })
    | inr e ↦ elim (Bool-cases (eq (stop ⊗ pip) nought)) [
      | inl f ↦ rw (e, f) (inl f)
      | inr f ↦ rw (e, f) (record { at_least = ground arith; valued = inr (inr (ground arith)) })
    ]
  ]

  -- A chain of two results: each step has its own reason to fail.
  >>=-IsSize :
      {A : Type 0} (s : PositionSizer) (stop pip : Num) (cause : Type 0) (r : Result A)
      (f : A → Result (Num × Num))
      → ((a : A) → r ≡ ok a → IsSize s stop pip cause (f a))
      → (r ≡ zero_division → (eq (stop ⊗ pip) nought ≡ true) ⊎ cause)
      → IsSize s stop pip cause (◌>>=◌ r f)
  >>=-IsSize s stop pip cause (ok a) f h k = h a refl
  >>=-IsSize s stop pip cause zero_division f h k = k refl

  size_by_margin-IsSize :
      (s : PositionSizer) (balance stop pip available price buffer : Num) (cause : Type 0)
      → IsSize s stop pip cause (size_by_margin s balance stop pip available price buffer)
  unfolding size_by_margin
  size_by_margin-IsSize s balance stop pip available price buffer cause =
      enforced s _ pip stop _ cause
        (calculate_margin_based_range balance available price buffer (dec 50 2)).0

  size_by_percentage-IsSize :
      (s : PositionSizer) (balance stop pip confidence : Num) (cause : Type 0)
      → IsSize s stop pip cause (size_by_percentage s balance stop pip confidence)
  unfolding size_by_percentage calculate_fixed_percentage
  size_by_percentage-IsSize s balance stop pip confidence cause =
      >>=-IsSize s stop pip cause (calculate_fixed_percentage s balance stop pip) _
        (λ sized e.
          enforced s (max (of_ℕ 100) (int (sized ⊗ confidence))) pip stop
            (λ u. s.risk_per_trade ⊗ confidence) cause (ground arith))
        (λ e. inl (ground arith))

  kelly_units_least : (risk stop pip u : Num) → kelly_units risk stop pip ≡ ok u → of_ℕ 100 ≼ u
  unfolding kelly_units
  kelly_units_least risk stop pip u h = ground arith

  kelly_units-zero :
      (risk stop pip : Num)
      → kelly_units risk stop pip ≡ zero_division
      → eq (stop ⊗ pip) nought ≡ true
  unfolding kelly_units
  kelly_units-zero risk stop pip h = ground arith

  size_by_kelly-IsSize :
      (s : PositionSizer) (balance stop pip : Num) (m : Metrics) (confidence : Num)
      → IsSize s stop pip
          (KellyFails s kelly_criterion (some m))
          (size_by_kelly s balance stop pip m confidence)
  unfolding size_by_kelly
  size_by_kelly-IsSize s balance stop pip m confidence =
      let cause = KellyFails s kelly_criterion (some m) in
      >>=-IsSize s stop pip cause
        (calculate_kelly_criterion s (get_or m.win_rate (dec 5 1))
          (get_or m.average_profit (dec 10 1)) (abs (get_or m.average_loss (nought ⊖ dec 10 1))))
        _
        (λ k e.
          >>=-IsSize s stop pip cause (kelly_units (balance ⊗ (k ⊗ confidence)) stop pip) _
            (λ u g.
              enforced s u pip stop (λ _. k ⊗ confidence) cause
                (kelly_units_least (balance ⊗ (k ⊗ confidence)) stop pip u g))
            (λ g. inl (kelly_units-zero (balance ⊗ (k ⊗ confidence)) stop pip g)))
        (λ e. inr e)

  size_by_method-IsSize :
      (s : PositionSizer) (method : SizingMethod) (balance stop pip : Num) (m : Option Metrics)
      (confidence : Num)
      → IsSize s stop pip
          (KellyFails s method m)
          (size_by_method s method balance stop pip m confidence)
  size_by_method-IsSize s kelly_criterion balance stop pip (some m) confidence =
      size_by_kelly-IsSize s balance stop pip m confidence
  size_by_method-IsSize s kelly_criterion balance stop pip none confidence =
      size_by_percentage-IsSize s balance stop pip confidence ⊥
  size_by_method-IsSize s fixed_percentage balance stop pip m confidence =
      size_by_percentage-IsSize s balance stop pip confidence ⊥

  -- Every call of `calculate_position_size`, whatever the method and the inputs are, gives at least
  -- 100 units, and with a positive stop and pip value at least the whole units that the least trade
  -- value buys; it fails, with a division by 0, only where the product of stop and pip value is 0 or
  -- the Kelly formula is used and fails.
  pub calculate_position_size-IsSize :
      (s : PositionSizer) (balance stop pip : Num) (metrics : Option Metrics) (confidence : Num)
      (available price : Option Num) (buffer : Num)
      → IsSize s stop pip
          (KellyFails s s.method metrics)
          (calculate_position_size s balance stop pip metrics confidence available price buffer)
  unfolding calculate_position_size
  calculate_position_size-IsSize s balance stop pip metrics confidence (some available) (some price)
        buffer =
      size_by_margin-IsSize s balance stop pip available price buffer _
  calculate_position_size-IsSize s balance stop pip metrics confidence none price buffer =
      size_by_method-IsSize s s.method balance stop pip metrics confidence
  calculate_position_size-IsSize s balance stop pip metrics confidence (some available) none
        buffer =
      size_by_method-IsSize s s.method balance stop pip metrics confidence
