-- ===== src/Sizing/Kelly.antt =====
-- The range of the Kelly share of position_sizing.py, and where its formula fails.
use oanda_trader.Base.{
  Result, ok, zero_division, ◌≡◌, true, false, arith, Bool-cases, inl, inr, Float, Num, ◌⊖◌, ◌⊗◌,
  ◌⊘◌, ◌≼◌, ◌≺◌, ◌≃◌, of_ℕ, nought, one, eq, abs,
}
use oanda_trader.Base.NumberLaws.{⊗_nonneg, dec_nonneg, ≼_refl}
use oanda_trader.Sizing.{PositionSizer, clamp_kelly, calculate_kelly_criterion}

module _ ⦃F : Float⦄ where
  -- Whether the ratio of wins to losses, which the formula divides by, is 0.
  abbrev pub RatioVanishes : Num → Num → Num → Type 0
  RatioVanishes win_rate avg_win avg_loss =
      (eq avg_loss nought ≡ false)
      × (eq win_rate nought ≡ false)
      × (eq (abs (avg_win ⊘ avg_loss)) nought ≡ true)

  -- What a call gives: a share in the range, or an error for a vanishing ratio.
  abbrev pub IsKelly : PositionSizer → Num → Num → Num → Result Num → Type 0
  IsKelly s win_rate avg_win avg_loss (ok k) = (nought ≼ k) × (k ≼ s.risk_per_trade ⊗ of_ℕ 2)
  IsKelly s win_rate avg_win avg_loss zero_division = RatioVanishes win_rate avg_win avg_loss

  clamp_kelly_range :
      (s : PositionSizer) (k : Num)
      → nought ≼ s.risk_per_trade
      → (nought ≼ clamp_kelly s k) × (clamp_kelly s k ≼ s.risk_per_trade ⊗ of_ℕ 2)
  unfolding clamp_kelly
  clamp_kelly_range s k h =
      let top = ⊗_nonneg s.risk_per_trade (of_ℕ 2) h (dec_nonneg 2 0) in ground (arith, top)

  -- For a risk per trade that is not negative, whatever the three figures are: a result lies between
  -- 0 and twice the risk per trade, and the call fails, with a division by 0, only if the ratio of
  -- the average win to the average loss is 0, with a loss and a win rate that are not.
  pub calculate_kelly_criterion-IsKelly :
      (s : PositionSizer) (win_rate avg_win avg_loss : Num)
      → nought ≼ s.risk_per_trade
      → IsKelly s win_rate avg_win avg_loss (calculate_kelly_criterion s win_rate avg_win avg_loss)
  unfolding calculate_kelly_criterion
  calculate_kelly_criterion-IsKelly s w a l h =
      let top = ⊗_nonneg s.risk_per_trade (of_ℕ 2) h (dec_nonneg 2 0) in
      let share = (one ⊖ w) ⊘ abs (a ⊘ l) in
      elim (Bool-cases (eq l nought)) [
        | inl e ↦ rw e (≼_refl nought, top)
        | inr e ↦ elim (Bool-cases (eq w nought)) [
          | inl f ↦ rw (e, f) (≼_refl nought, top)
          | inr f ↦ elim (Bool-cases (eq (abs (a ⊘ l)) nought)) [
            | inl g ↦ rw (e, f, g) (e, f, g)
            | inr g ↦ rw (e, f, g) (clamp_kelly_range s (w ⊖ share) h)
          ]
        ]
      ]

  no_wins :
      (avg_win avg_loss : Num)
      → avg_win ≃ nought
      → nought ≺ avg_loss
      → eq (abs (avg_win ⊘ avg_loss)) nought ≡ true
  no_wins a l (h, k) p =
      let zero = F.zero_div l p in
      let low = F.div_mono nought a l p k in
      let high = F.div_mono a nought l p h in ground (arith, zero, low, high)

  -- With an average win of 0, an average loss above 0 and a win rate that is not 0, the call fails
  -- with a division by 0, whatever the settings are.
  pub calculate_kelly_criterion_no_wins :
      (s : PositionSizer) (win_rate avg_win avg_loss : Num)
      → avg_win ≃ nought
      → nought ≺ avg_loss
      → eq win_rate nought ≡ false
      → calculate_kelly_criterion s win_rate avg_win avg_loss ≡ zero_division
  unfolding calculate_kelly_criterion
  calculate_kelly_criterion_no_wins s w a l h p q =
      let e : eq l nought ≡ false = ground arith in rw (e, q, no_wins a l h p)
