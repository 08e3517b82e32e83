-- ===== src/Analytics/Groups.antt =====
-- analytics.py: the analyses of `AnalyticsEngine` by instrument, signal, confidence, model prediction
-- and time of day. A `defaultdict` of lists is a dictionary that is written at each result.
use oanda_trader.Base.{
  ℕ, ◌≡◌, refl, Bool, true, false, not, ◌&&◌, Option, none, some, List, [], ◌∷◌, ◌++◌, map, length,
  filter, ltb, if◌then◌else◌, String, Dict, lookup, insert, Float, Num, Numpy, ◌⊘◌, dec, of_ℕ,
  nought, lt, eq,
}
use oanda_trader.Analytics.{Trade, is_win, sum, sum_from}
pub mod Laws

-- `groups[k]` of a `defaultdict(list)`
abbrev pub or_empty {ℓ} : {A : Type ℓ} → Option (List A) → List A
or_empty none = []
or_empty (some ps) = ps

module _ ⦃F : Float⦄ where
  -- The key and the result that a trade adds to the groups, where it has both.
  abbrev pub keyed : (Trade → Option String) → Trade → Option (String × Num)
  keyed key t = elim t.pnl [
    | none ↦ none
    | some p ↦ elim (key t) [ none ↦ none | some k ↦ some (k, p) ]
  ]

  abbrev pub add_result : Option (String × Num) → Dict (List Num) → Dict (List Num)
  add_result none groups = groups
  add_result (some (k, p)) groups = insert k (or_empty (lookup k groups) ++ (p ∷ [])) groups

  -- The groups after all trades, from those before.
  unfoldable pub group_from :
      (Trade → Option String) → Dict (List Num) → List Trade → Dict (List Num)
  unfolding insert lookup
  group_from key groups [] = groups
  group_from key groups (t ∷ ts) = group_from key (add_result (keyed key t) groups) ts

  pub record GroupPerformance : Type 0 where
    pub total_trades : ℕ
    pub win_rate : Num
    pub total_pnl : Num
    pub avg_pnl : Num

  module _ (np : Numpy) where
    -- The statistics of results of which there is one at least; the analyses by confidence, model
    -- prediction and time do not give `total_pnl` out.
    unfoldable pub performance : List Num → GroupPerformance
    unfolding filter sum_from
    performance pnls = record {
      total_trades = length pnls;
      win_rate = of_ℕ (length (filter is_win pnls)) ⊘ of_ℕ (length pnls);
      total_pnl = sum pnls;
      avg_pnl = np.mean pnls;
    }

    -- The statistics of the groups that are not empty, in the groups' order.
    unfoldable pub performances : Dict (List Num) → Dict GroupPerformance
    unfolding performance
    performances [] = []
    performances ((k, []) ∷ groups) = performances groups
    performances ((k, p ∷ ps) ∷ groups) = (k, performance (p ∷ ps)) ∷ performances groups

    unfoldable pub analyze_by_instrument : List Trade → Dict GroupPerformance
    unfolding performances group_from
    analyze_by_instrument ts = performances (group_from (λ t. some t.instrument) [] ts)

    unfoldable pub analyze_by_signal : List Trade → Dict GroupPerformance
    unfolding performances group_from
    analyze_by_signal ts = performances (group_from (λ t. some t.signal) [] ts)

  -- `if x`, of a number or `None`: a test of a number that is not 0
  abbrev pub where_given : {A : Type 0} → Option Num → (Num → Option A) → Option A
  where_given none f = none
  where_given (some x) f = if eq x nought then none else f x

  abbrev pub range_of_confidence : Trade → Option String
  range_of_confidence t = where_given t.confidence (λ conf. some (
      if lt conf (dec 7 1)
      then "low (0.5-0.7)"
      else (if lt conf (dec 85 2) then "medium (0.7-0.85)" else "high (0.85-1.0)")))

  abbrev pub empty_ranges : Dict (List Num)
  empty_ranges = ("low (0.5-0.7)", []) ∷ ("medium (0.7-0.85)", []) ∷ ("high (0.85-1.0)", []) ∷ []

  -- The list that a model prediction belongs to.
  abbrev pub ml_range : Trade → Option String
  ml_range t = where_given t.ml_prediction (λ ml_pred.
      if not (lt ml_pred (dec 7 1))
      then some "high_ml_confidence"
      else (if lt ml_pred (dec 5 1) then some "low_ml_confidence" else none))

  abbrev pub no_predictions : Dict (List Num)
  no_predictions = ("high_ml_confidence", []) ∷ ("low_ml_confidence", []) ∷ []

  abbrev pub period : Trade → Option String
  period t = elim t.entry_hour [
    | none ↦ none
    | some hour ↦ some (
        if ltb hour 6
        then "night (00:00-06:00)"
        else (if ltb hour 12
            then "morning (06:00-12:00)"
            else (if ltb hour 18 then "afternoon (12:00-18:00)" else "evening (18:00-00:00)")))
  ]

  module _ (np : Numpy) where
    unfoldable pub analyze_by_confidence : List Trade → Dict GroupPerformance
    unfolding performances group_from
    analyze_by_confidence ts = performances np (group_from range_of_confidence empty_ranges ts)

    unfoldable pub analyze_ml_effectiveness : List Trade → Dict GroupPerformance
    unfolding performances group_from
    analyze_ml_effectiveness ts = performances np (group_from ml_range no_predictions ts)

    unfoldable pub analyze_by_time : List Trade → Dict GroupPerformance
    unfolding performances group_from
    analyze_by_time ts = performances np (group_from period [] ts)
