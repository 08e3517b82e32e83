-- ===== src/Analytics/Streaks.antt =====
-- The longest streaks of analytics.py, against the runs in the list of results.
use oanda_trader.Base.{
  ℕ, suc, ◌+◌, ◌≤◌, ◌≡◌, Bool, true, false, List, [], ◌∷◌, arith, ltb, if◌then◌else◌, Bool-cases,
  inl, inr, Float, Num,
}
use oanda_trader.Analytics.{is_win, is_loss, streak_loop, calculate_max_streak}

abbrev pub maximum : ℕ → ℕ → ℕ
maximum a b = if ltb a b then b else a

module _ {ℓ} {A : Type ℓ} (hit : A → Bool) where
  -- How many hits stand at the head.
  unfoldable pub leading : List A → ℕ
  leading [] = 0
  leading (x ∷ xs) = let rest = leading xs in if hit x then suc rest else 0

  -- The most hits in a row, starting anywhere.
  unfoldable pub longest_run : List A → ℕ
  unfolding leading
  longest_run [] = 0
  longest_run (x ∷ xs) = maximum (leading (x ∷ xs)) (longest_run xs)

  leading-le-longest_run : (xs : List A) → leading xs ≤ longest_run xs
  unfolding longest_run leading
  leading-le-longest_run [] = omega arith
  leading-le-longest_run (x ∷ xs) = ground arith

module _ ⦃F : Float⦄ where
  -- The loop in the middle: the streak that it is in goes on through the leading hits.
  streak_loop_lem :
      (hit : Num → Bool) (longest current : ℕ) (ps : List Num)
      → current ≤ longest
      → streak_loop hit longest current ps
        ≡ maximum longest (maximum (current + leading hit ps) (longest_run hit ps))
  unfolding streak_loop leading longest_run
  streak_loop_lem hit longest current [] h = ground arith
  streak_loop_lem hit longest current (p ∷ ps) h = elim (Bool-cases (hit p)) [
    | inl e ↦
        rw e (ground (arith, streak_loop_lem hit (maximum longest (suc current)) (suc current) ps))
    | inr e ↦ rw e (
        ground (arith, streak_loop_lem hit (maximum longest 0) 0 ps, leading-le-longest_run hit ps))
  ]

  -- The maximal streak of wins is the most wins in a row, over all places where a run may start, and
  -- that of losses the most losses in a row.
  calculate_max_streak_lem :
      (pnls : List Num)
      → (calculate_max_streak pnls true ≡ longest_run is_win pnls)
        × (calculate_max_streak pnls false ≡ longest_run is_loss pnls)
  unfolding calculate_max_streak
  calculate_max_streak_lem pnls = (
    ground (
      arith,
      streak_loop_lem (λ (p : Num). is_win p) 0 0 pnls,
      leading-le-longest_run (λ (p : Num). is_win p) pnls,
    ),
    ground (
      arith,
      streak_loop_lem (λ (p : Num). is_loss p) 0 0 pnls,
      leading-le-longest_run (λ (p : Num). is_loss p) pnls,
    ),
  )
