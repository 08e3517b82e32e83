-- ===== src/Trailing/Stops.antt =====
-- Where one call of trailing_stops.py may put a stop.
use oanda_trader.Base.{
  ℕ, ◌+◌, ◌≡◌, refl, Bool, true, false, none, some, arith, Bool-cases, inl, inr, String, lookup,
  Float, Num, ◌⊕◌, ◌⊖◌, ◌⊗◌, ◌⊘◌, ◌≼◌, dec, nought, lt, eq, max, min, Result, ok, zero_division,
}
use oanda_trader.Base.Dicts.{lookup-insert, same_text_refl}
use oanda_trader.Base.NumberLaws.{≼_refl}
use oanda_trader.Trailing.{
  Direction, buy, sell, TrailingState, TrailingStopManager, Update, should_activate_trailing,
  trailing_state, store, is_new_high, is_new_low, follow_long, follow_short, follow, gain, trail,
  calculate_new_stop_loss,
}

module _ ⦃F : Float⦄ where
  -- A stop that is no looser: not lower for a long position, not higher for a short one.
  abbrev pub Tightens : Direction → Num → Num → Type 0
  Tightens buy sl sl' = sl ≼ sl'
  Tightens sell sl sl' = sl' ≼ sl

  -- A stop that moved keeps half a move away from the price.
  abbrev pub KeepsRoom : Direction → Num → Num → Num → Type 0
  KeepsRoom buy price move sl' = sl' ≼ price ⊖ move ⊗ dec 5 1
  KeepsRoom sell price move sl' = price ⊕ move ⊗ dec 5 1 ≼ sl'

  -- An answer, by whether the stop should be moved.
  abbrev pub Moves : Bool → Direction → Num → Num → Num → Num → Type 0
  Moves true direction price move sl sl' =
      Tightens direction sl sl' × (eq sl sl' ≡ false) × KeepsRoom direction price move sl'
  Moves false direction price move sl sl' = sl' ≡ sl

  pub Tightens-refl : (d : Direction) (sl : Num) → Tightens d sl sl
  Tightens-refl buy sl = ≼_refl sl
  Tightens-refl sell sl = ≼_refl sl

  pub Tightens-trans :
      (d : Direction) (a b c : Num) → Tightens d a b → Tightens d b c → Tightens d a c
  Tightens-trans buy a b c h k = omega arith
  Tightens-trans sell a b c h k = omega arith

  pub Moves-Tightens :
      (b : Bool) (d : Direction) (price move sl sl' : Num)
      → Moves b d price move sl sl'
      → Tightens d sl sl'
  Moves-Tightens true d price move sl sl' h = h.0
  Moves-Tightens false d price move sl sl' h = rw h (Tightens-refl d sl)

  follow-Moves :
      (direction : Direction) (t : TrailingState) (price sl move pip : Num)
      → let u = (follow direction t price sl move pip).1 in
        Moves u.should_update direction price move sl u.new_sl_price
  unfolding follow_long follow_short
  follow-Moves buy t price sl move pip =
      let new = min (sl ⊕ move) (price ⊖ move ⊗ dec 5 1) in
      elim (Bool-cases (is_new_high t.highest_price price)) [
        | inl e ↦ elim (Bool-cases (lt sl new)) [
          | inl f ↦ rw (e, f) (ground arith, ground arith, ground arith)
          | inr f ↦ rw (e, f) refl
        ]
        | inr e ↦ rw e refl
      ]
  follow-Moves sell t price sl move pip =
      let new = max (sl ⊖ move) (price ⊕ move ⊗ dec 5 1) in
      elim (Bool-cases (is_new_low t.lowest_price price)) [
        | inl e ↦ elim (Bool-cases (lt new sl)) [
          | inl f ↦ rw (e, f) (ground arith, ground arith, ground arith)
          | inr f ↦ rw (e, f) refl
        ]
        | inr e ↦ rw e refl
      ]

  -- How often the stop of an instrument was moved, as the manager counts it.
  abbrev pub moves_of : TrailingStopManager → String → ℕ
  moves_of m i = elim (lookup i m.position_trailing_state) [ none ↦ 0 | some t ↦ t.total_moves ]

  abbrev pub one_if : Bool → ℕ
  one_if true = 1
  one_if false = 0

  follow_moves :
      (direction : Direction) (t : TrailingState) (price sl move pip : Num)
      → let r = follow direction t price sl move pip in
        r.0.total_moves ≡ t.total_moves + one_if r.1.should_update
  unfolding follow_long follow_short
  follow_moves buy t price sl move pip = ground arith
  follow_moves sell t price sl move pip = ground arith

  trailing_state_moves :
      (m : TrailingStopManager) (i : String) (sl : Num)
      → (trailing_state m i sl).total_moves ≡ moves_of m i
  unfolding trailing_state
  trailing_state_moves m i sl = ground arith

  moves_of-store :
      (m : TrailingStopManager) (i : String) (t : TrailingState)
      → moves_of (store m i t) i ≡ t.total_moves
  moves_of-store m i t =
      ground (arith, lookup-insert i i t m.position_trailing_state, same_text_refl i)

  -- What one step does to the stop, and to the count of its instrument.
  pub record IsStep (m : TrailingStopManager) (i : String) (direction : Direction)
      (price sl move : Num) (m' : TrailingStopManager) (u : Update) : Type 0 where
    pub stop_moves : Moves u.should_update direction price move sl u.new_sl_price
    pub counted : moves_of m' i ≡ moves_of m i + one_if u.should_update
    pub multiplier_same : m'.atr_multiplier ≡ m.atr_multiplier

  trail-IsStep :
      (m : TrailingStopManager) (i : String) (direction : Direction) (price sl atr pip profit : Num)
      → let r = trail m i direction price sl atr pip profit in
        IsStep m i direction price sl ((m.atr_multiplier ⊗ atr) ⊗ pip) r.0 r.1
  unfolding trail
  trail-IsStep m i direction price sl atr pip profit =
      let t = trailing_state m i sl in
      let move = (m.atr_multiplier ⊗ atr) ⊗ pip in
      elim (Bool-cases (should_activate_trailing m profit atr)) [
        | inl e ↦ rw e (record {
          stop_moves = follow-Moves direction t price sl move pip;
          counted = omega (
            arith,
            moves_of-store m i (follow direction t price sl move pip).0,
            follow_moves direction t price sl move pip,
            trailing_state_moves m i sl,
          );
          multiplier_same = refl;
        })
        | inr e ↦ rw e (record { stop_moves = refl; counted = omega arith; multiplier_same = refl })
      ]

  -- The result of one call: a step, or an error for a pip size of 0.
  abbrev pub IsStopUpdate :
      TrailingStopManager
      → String
      → Direction
      → Num
      → Num
      → Num
      → Num
      → Result (TrailingStopManager × Update)
      → Type 0
  IsStopUpdate m i direction price sl atr pip (ok r) =
      IsStep m i direction price sl ((m.atr_multiplier ⊗ atr) ⊗ pip) r.0 r.1
  IsStopUpdate m i direction price sl atr pip zero_division = eq pip nought ≡ true

  -- Every call of `calculate_new_stop_loss`: it fails, with a division by 0, only for a pip size of
  -- 0; otherwise the answer that the stop should move comes with a stop that differs from the old
  -- one, is no looser, and keeps half a move away from the price, and the answer that it should not
  -- with the old stop. The manager counts exactly the moves, and keeps its multiplier.
  pub calculate_new_stop_loss-IsStopUpdate :
      (m : TrailingStopManager) (i : String) (direction : Direction) (entry price sl atr pip : Num)
      → IsStopUpdate m i direction price sl atr pip
          (calculate_new_stop_loss m i direction entry price sl atr pip)
  unfolding calculate_new_stop_loss
  calculate_new_stop_loss-IsStopUpdate m i direction entry price sl atr pip =
      elim (Bool-cases (eq pip nought)) [
        | inl e ↦ rw e e
        | inr e ↦
            rw e (trail-IsStep m i direction price sl atr pip (gain direction entry price ⊘ pip))
      ]
