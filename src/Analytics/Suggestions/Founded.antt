-- ===== src/Analytics/Suggestions/Founded.antt =====
-- The suggestions of analytics.py: each has the ground that its text claims.
use oanda_trader.Base.{
  ℕ, ◌≤◌, ◌≡◌, ◌≢◌, refl, Option, List, [], ◌∷◌, ◌++◌, length, filter, ltb, if◌then◌else◌, Dict,
  Float, Num, Numpy, ◌⊘◌, ◌≼◌, ◌≺◌, dec, of_ℕ, nought, lt, arith, All, Bool-cases, Option-cases,
  List-cases, inl, inr, ◌⊎◌, ◌≃◌, max, min, ◌∙◌, String, lookup,
}
use mathlib.Core.Path.{subst, ap}
use mathlib.Core.List.{Memᴰ}
use oanda_trader.Analytics.Suggestions.Grounds.{
  Grounds, RateOf, IsReward, IsFounded, All-append, append_if_lem,
}
use oanda_trader.Analytics.Suggestions.Extremes.{
  max_by_lem, min_by_lem, max_by_member, min_by_member,
}
use oanda_trader.Analytics.{
  Trade, pnls_of, analyze_drawdown, summarize, is_win, is_loss, ratio, unless_empty, mean_loss,
}
use oanda_trader.Analytics.Groups.{
  GroupPerformance, analyze_by_instrument, analyze_by_signal, analyze_ml_effectiveness,
  analyze_by_time,
}
use oanda_trader.Analytics.Suggestions.{
  Suggestion, drawdown_alert, max_by, min_by, suggestions_of, win_rate_suggestions,
  risk_reward_suggestions, drawdown_suggestions, best_suggestions, worst_suggestions,
  instrument_suggestions, signal_suggestions, ml_suggestions, time_suggestions, win_rate_at,
  or_balanced, suggestions_from, generate_suggestions,
}

module _ ⦃F : Float⦄ where
  module _ (np : Numpy) where
    module _ (g : Grounds) where
      drawdown-IsFounded : All (IsFounded np g) (drawdown_suggestions g.drawdown)
      unfolding drawdown_suggestions
      drawdown-IsFounded = elim (Option-cases g.drawdown) [
        | inl e ↦ rw e tt
        | inr (d, e) ↦ rw (ap drawdown_suggestions e) (
            append_if_lem (IsFounded np g) d.alert (drawdown_alert d.current_drawdown_pct)
              (λ h. (d, e, h, refl)))
      ]

      instrument-IsFounded :
          (entries : Dict GroupPerformance)
          → entries ≡ g.instruments
          → All (IsFounded np g) (instrument_suggestions entries)
      unfolding instrument_suggestions
      instrument-IsFounded [] e = tt
      instrument-IsFounded (x ∷ xs) e =
          let total : String × GroupPerformance → Num = λ d. d.1.total_pnl in
          let best = max_by total x xs in
          let worst = min_by total x xs in
          All-append (IsFounded np g) (best_suggestions best) (worst_suggestions worst)
            (append_if_lem (IsFounded np g) _ _ (λ h. (
              best.1,
              subst (Memᴰ best) e (max_by_member total x xs),
              refl,
              refl,
              ground arith,
              subst (All (λ d. d.1.total_pnl ≼ best.1.total_pnl)) e (max_by_lem total x xs),
            )))
            (append_if_lem (IsFounded np g) _ _ (λ h. (
              worst.1,
              subst (Memᴰ worst) e (min_by_member total x xs),
              refl,
              refl,
              ground arith,
              ground arith,
              subst (All (λ d. worst.1.total_pnl ≼ d.1.total_pnl)) e (min_by_lem total x xs),
            )))

      time-IsFounded :
          (entries : Dict GroupPerformance)
          → entries ≡ g.times
          → All (IsFounded np g) (time_suggestions entries)
      unfolding time_suggestions
      time-IsFounded [] e = tt
      time-IsFounded (x ∷ xs) e =
          let mean : String × GroupPerformance → Num = λ d. d.1.avg_pnl in
          let best = max_by mean x xs in
          append_if_lem (IsFounded np g) _ _ (λ h. (
            best.1,
            subst (Memᴰ best) e (max_by_member mean x xs),
            refl,
            refl,
            ground arith,
            subst (All (λ d. d.1.avg_pnl ≼ best.1.avg_pnl)) e (max_by_lem mean x xs),
          ))

      win_rate-IsFounded :
          (r : Num)
          → r ≡ (summarize np g.pnls).win_rate
          → All (IsFounded np g) (win_rate_suggestions r)
      unfolding win_rate_suggestions
      win_rate-IsFounded r e = elim (Bool-cases (lt r (dec 45 2))) [
        | inl h ↦ rw h ((e, ground arith), tt)
        | inr h ↦ rw h (append_if_lem (IsFounded np g) _ _ (λ k. (e, ground arith)))
      ]

      risk_reward-IsFounded :
          (r : Num) → IsReward np g.pnls r → All (IsFounded np g) (risk_reward_suggestions r)
      unfolding risk_reward_suggestions
      risk_reward-IsFounded r e = elim (Bool-cases (lt r (dec 15 1))) [
        | inl h ↦ rw h ((e, ground arith), tt)
        | inr h ↦ rw h (append_if_lem (IsFounded np g) _ _ (λ k. (e, ground arith)))
      ]

      rate_at-RateOf :
          (k : String) (perf : Dict GroupPerformance) → RateOf k perf (win_rate_at k perf)
      rate_at-RateOf k perf = elim (Option-cases (lookup k perf)) [
        | inl e ↦ inl (e, rw (e, win_rate_at) refl)
        | inr (p, e) ↦ inr (p, e, rw (e, win_rate_at) refl)
      ]

      bias_lem :
          (x y : Num)
          → let k : String = if lt y x then "BUY" else "SELL" in
            (k ≡ "BUY") × (y ≺ x) × (max x y ≡ x) × (min x y ≡ y)
            ⊎ (k ≡ "SELL") × (x ≼ y) × (max x y ≃ y) × (min x y ≃ x)
      bias_lem x y = elim (Bool-cases (lt y x)) [
        | inl e ↦ inl (rw e refl, ground arith, ground arith, rw e refl)
        | inr e ↦ inr (rw e refl, ground arith, ground arith, ground arith)
      ]

      signal-IsFounded : All (IsFounded np g) (signal_suggestions g.signals)
      unfolding signal_suggestions
      signal-IsFounded =
          let buy_rate = win_rate_at "BUY" g.signals in
          let sell_rate = win_rate_at "SELL" g.signals in
          append_if_lem (IsFounded np g) _ _ (λ h. (
            buy_rate,
            sell_rate,
            rate_at-RateOf "BUY" g.signals,
            rate_at-RateOf "SELL" g.signals,
            ground arith,
            ground arith,
            bias_lem buy_rate sell_rate,
          ))

      ml-IsFounded : All (IsFounded np g) (ml_suggestions g.predictions)
      unfolding ml_suggestions
      ml-IsFounded = elim (Option-cases (lookup "high_ml_confidence" g.predictions)) [
        | inl e ↦ rw e tt
        | inr (high, e) ↦ elim (Option-cases (lookup "low_ml_confidence" g.predictions)) [
          | inl f ↦ rw (e, f) tt
          | inr (low, f) ↦
              rw (e, f)
                (append_if_lem (IsFounded np g) _ _ (λ h. (
                  high,
                  low,
                  e,
                  f,
                  rw (e, win_rate_at) refl,
                  rw (f, win_rate_at) refl,
                  ground arith,
                )))
        ]
      ]

      or_balanced-IsFounded :
          (ss : List Suggestion)
          → (g.asked ≤ g.available) × (g.pnls ≢ [])
          → All (IsFounded np g) ss
          → All (IsFounded np g) (or_balanced ss)
      or_balanced-IsFounded [] h hs = (h, tt)
      or_balanced-IsFounded (s ∷ ss) h hs = hs

      -- The seven parts of the suggestions, one after another.
      parts-IsFounded :
          (r rr : Num)
          → r ≡ (summarize np g.pnls).win_rate
          → IsReward np g.pnls rr
          → All (IsFounded np g) (
              win_rate_suggestions r
              ++ (risk_reward_suggestions rr
                  ++ (drawdown_suggestions g.drawdown
                      ++ (instrument_suggestions g.instruments
                          ++ (signal_suggestions g.signals
                              ++ (ml_suggestions g.predictions ++ time_suggestions g.times))))))
      parts-IsFounded r rr e f =
          let P = IsFounded np g in
          All-append P (win_rate_suggestions r) _ (win_rate-IsFounded r e) (
            All-append P (risk_reward_suggestions rr) _ (risk_reward-IsFounded rr f) (
              All-append P (drawdown_suggestions g.drawdown) _ drawdown-IsFounded (
                All-append P (instrument_suggestions g.instruments) _
                  (instrument-IsFounded g.instruments refl)
                  (All-append P (signal_suggestions g.signals) _ signal-IsFounded (
                    All-append P (ml_suggestions g.predictions) _ ml-IsFounded
                      (time-IsFounded g.times refl))))))

    win_rate_lem :
        (pnls : List Num)
        → of_ℕ (length (filter is_win pnls)) ⊘ of_ℕ (length pnls) ≡ (summarize np pnls).win_rate
    unfolding summarize
    win_rate_lem pnls = refl

    ratio-hundredth : (a : Num) → ratio a (dec 1 2) ≡ a ⊘ dec 1 2
    ratio-hundredth a =
        ground (arith, F.dec_lt 0 1 2 (omega arith) (omega arith) (omega arith), F.dec_zero 2)

    mean_loss_same :
        (d : Num) (losses : List Num)
        → losses ≢ []
        → mean_loss np d losses ≡ mean_loss np nought losses
    mean_loss_same d [] h = absurd (h refl)
    mean_loss_same d (l ∷ ls) h = refl

    reward_lem :
        (pnls : List Num)
        → let wins = filter is_win pnls in
          IsReward np pnls (
            ratio (unless_empty wins (np.mean wins)) (mean_loss np (dec 1 2) (filter is_loss pnls)))
    unfolding summarize
    reward_lem pnls =
        let wins = filter is_win pnls in
        let mean = unless_empty wins (np.mean wins) in
        elim (List-cases (filter is_loss pnls)) [
          | inl e ↦
              inl (e, ap (λ l. ratio mean (mean_loss np (dec 1 2) l)) e ∙ ratio-hundredth mean)
          | inr (l, ls, e) ↦
              let some_loss : filter is_loss pnls ≢ [] = λ h. ground arith in
              inr (some_loss, ap (ratio mean) (mean_loss_same (dec 1 2) _ some_loss))
        ]

    -- The grounds that the trades give.
    abbrev pub grounds_of : ℕ → Num → List Trade → Option Num → List Num → Grounds
    grounds_of n threshold ts balance pnls = record {
      asked = n;
      available = length ts;
      pnls = pnls;
      drawdown = analyze_drawdown threshold ts balance;
      instruments = analyze_by_instrument np ts;
      signals = analyze_by_signal np ts;
      predictions = analyze_ml_effectiveness np ts;
      times = analyze_by_time np ts;
    }

    suggestions_from-IsFounded :
        (n : ℕ) (threshold : Num) (ts : List Trade) (balance : Option Num) (pnls : List Num)
        → (n ≤ length ts) × (pnls ≢ [])
        → All
            (IsFounded np (grounds_of n threshold ts balance pnls))
            (suggestions_from np threshold ts balance pnls)
    unfolding suggestions_from
    suggestions_from-IsFounded n threshold ts balance pnls h =
        let g = grounds_of n threshold ts balance pnls in
        or_balanced-IsFounded g _ h (parts-IsFounded g _ _ (win_rate_lem pnls) (reward_lem pnls))

    -- The condition on a list of suggestions: there is one, and each is founded.
    abbrev pub AreFounded : Grounds → List Suggestion → Type 0
    AreFounded g ss = (ss ≢ []) × All (IsFounded np g) ss

    or_balanced-nonempty : (ss : List Suggestion) → or_balanced ss ≢ []
    or_balanced-nonempty [] = ground arith
    or_balanced-nonempty (s ∷ ss) = ground arith

    suggestions_of-AreFounded :
        (n : ℕ) (threshold : Num) (ts : List Trade) (balance : Option Num) (pnls : List Num)
        → n ≤ length ts
        → AreFounded
            (grounds_of n threshold ts balance pnls)
            (suggestions_of np threshold ts balance pnls)
    unfolding suggestions_from
    suggestions_of-AreFounded n threshold ts balance [] h = (ground arith, ((h, refl), tt))
    suggestions_of-AreFounded n threshold ts balance (p ∷ ps) h = (
      or_balanced-nonempty _,
      suggestions_from-IsFounded n threshold ts balance (p ∷ ps) (h, ground arith),
    )

    -- There is always a suggestion, and each has its ground: more trades are asked for only if there
    -- are too few; a win rate and a ratio of reward to risk are those of the summary, beyond the
    -- bounds, the ratio against a loss of 0.01 where there are no losses; the alert is that of the
    -- drawdown analysis; the best and the worst instrument are entries of the analysis by instrument,
    -- with their results and rates, the greatest and the least of all; the bias names the signal with
    -- the better of two rates, more than 0.2 apart; the two rates of the model are those of its high
    -- and low predictions, more than 0.15 apart; and the best time is the entry of the analysis by
    -- time with the greatest average, of three trades at least, as the worst instrument has.
    pub generate_suggestions-AreFounded :
        (n : ℕ) (threshold : Num) (ts : List Trade) (balance : Option Num)
        → AreFounded
            (grounds_of n threshold ts balance (pnls_of ts))
            (generate_suggestions np n threshold ts balance)
    unfolding generate_suggestions
    generate_suggestions-AreFounded n threshold ts balance = elim (Bool-cases (ltb (length ts) n)) [
      | inl h ↦ rw h (ground arith, ((refl, ground arith), tt))
      | inr h ↦ rw h (suggestions_of-AreFounded n threshold ts balance (pnls_of ts) (ground arith))
    ]
