-- ===== src/Analytics/Groups/Laws.antt =====
-- The analyses by key of analytics.py: each key has the statistics of just its results.
use oanda_trader.Base.{
  ◌≡◌, refl, ap, ◌∙◌, Option, none, some, List, [], ◌∷◌, ◌++◌, arith, if◌then◌else◌, Bool-cases,
  inl, inr, String, Dict, lookup, insert, same_text, Float, Num, Numpy,
}
use oanda_trader.Base.Dicts.{lookup-insert}
use text.Mathlib.TextEquality.{eq_iff}
use oanda_trader.Analytics.{Trade}
use oanda_trader.Analytics.Groups.{
  or_empty, keyed, add_result, group_from, GroupPerformance, performance, performances,
  analyze_by_instrument, analyze_by_signal, range_of_confidence, empty_ranges, ml_range,
  no_predictions, period, analyze_by_confidence, analyze_ml_effectiveness, analyze_by_time,
}
use mathlib.Core.List.{append_assoc, append-nil}

module _ ⦃F : Float⦄ where
  abbrev added : String → Option (String × Num) → List Num
  added asked none = []
  added asked (some (k, p)) = if same_text k asked then p ∷ [] else []

  -- The results of the trades of one key, in order.
  unfoldable pub results_of : (Trade → Option String) → String → List Trade → List Num
  results_of key k [] = []
  results_of key k (t ∷ ts) = added k (keyed key t) ++ results_of key k ts

  add_result_lem :
      (k : String) (r : Option (String × Num)) (groups : Dict (List Num))
      → or_empty (lookup k (add_result r groups)) ≡ or_empty (lookup k groups) ++ added k r
  add_result_lem k none groups = rw append-nil refl
  add_result_lem k (some (j, p)) groups = ground (
    arith,
    lookup-insert j k (or_empty (lookup j groups) ++ (p ∷ [])) groups,
    eq_iff j k,
    append-nil (or_empty (lookup k groups)),
  )

  group_from_lem :
      (key : Trade → Option String) (k : String) (groups : Dict (List Num)) (ts : List Trade)
      → or_empty (lookup k (group_from key groups ts))
        ≡ or_empty (lookup k groups) ++ results_of key k ts
  unfolding group_from results_of
  group_from_lem key k groups [] = rw append-nil refl
  group_from_lem key k groups (t ∷ ts) =
      rw (group_from_lem key k (add_result (keyed key t) groups) ts) (
        rw (add_result_lem k (keyed key t) groups)
          (append_assoc (or_empty (lookup k groups)) (added k (keyed key t)) (results_of key k ts)))

  -- No key stands twice.
  abbrev Distinct : {V : Type 0} → Dict V → Type 0
  Distinct [] = Unit
  Distinct ((k, v) ∷ m) = (lookup k m ≡ none) × Distinct m

  insert-Distinct :
      {V : Type 0} (k : String) (v : V) (m : Dict V) → Distinct m → Distinct (insert k v m)
  unfolding insert lookup
  insert-Distinct k v [] h = (refl, tt)
  insert-Distinct k v ((j, w) ∷ m) (h, hs) = elim (Bool-cases (same_text j k)) [
    | inl x ↦ rw x (ground (arith, eq_iff j k), hs)
    | inr x ↦
        rw x
          (ground (arith, lookup-insert k j v m, eq_iff j k, eq_iff k j), insert-Distinct k v m hs)
  ]

  add_result-Distinct :
      (r : Option (String × Num)) (groups : Dict (List Num))
      → Distinct groups
      → Distinct (add_result r groups)
  add_result-Distinct none groups h = h
  add_result-Distinct (some (k, p)) groups h = insert-Distinct k _ groups h

  group_from-Distinct :
      (key : Trade → Option String) (groups : Dict (List Num)) (ts : List Trade)
      → Distinct groups
      → Distinct (group_from key groups ts)
  unfolding group_from
  group_from-Distinct key groups [] h = h
  group_from-Distinct key groups (t ∷ ts) h =
      group_from-Distinct key (add_result (keyed key t) groups) ts
        (add_result-Distinct (keyed key t) groups h)

  absent :
      {V : Type 0} (j k : String) (groups : Dict V)
      → j ≡ k
      → lookup j groups ≡ none
      → lookup k groups ≡ none
  absent j k groups e h = rw e at h

  module _ (np : Numpy) where
    -- The statistics of some results, where there is one.
    abbrev pub performance_of : List Num → Option GroupPerformance
    performance_of [] = none
    performance_of (p ∷ ps) = some (performance np (p ∷ ps))

    lookup-performances :
        (k : String) (groups : Dict (List Num))
        → Distinct groups
        → lookup k (performances np groups) ≡ performance_of (or_empty (lookup k groups))
    unfolding lookup performances
    lookup-performances k [] h = refl
    lookup-performances k ((j, []) ∷ groups) (h, hs) = elim (Bool-cases (same_text j k)) [
      | inl x ↦
          let e = (eq_iff j k).0 x in
          rw x (
            lookup-performances k groups hs
            ∙ ap (λ o. performance_of (or_empty o)) (absent j k groups e h))
      | inr x ↦ rw x (lookup-performances k groups hs)
    ]
    lookup-performances k ((j, p ∷ ps) ∷ groups) (h, hs) = elim (Bool-cases (same_text j k)) [
      | inl x ↦ rw x refl
      | inr x ↦ rw x (lookup-performances k groups hs)
    ]

    grouped_lem :
        (key : Trade → Option String) (k : String) (groups : Dict (List Num)) (ts : List Trade)
        → Distinct groups
        → or_empty (lookup k groups) ≡ []
        → lookup k (performances np (group_from key groups ts))
          ≡ performance_of (results_of key k ts)
    grouped_lem key k groups ts h e =
        lookup-performances k (group_from key groups ts) (group_from-Distinct key groups ts h)
        ∙ ap performance_of (group_from_lem key k groups ts ∙ rw e refl)

    -- Each of the five analyses gives, for each key, the statistics of the results, in order, of just
    -- the trades that have a result and that key, and nothing for a key without a result: for any
    -- instrument, signal, range of confidence, range of predictions and time of day.
    pub analyses_lem :
        (k : String) (ts : List Trade)
        → (lookup k (analyze_by_instrument np ts)
            ≡ performance_of (results_of (λ t. some t.instrument) k ts))
          × (lookup k (analyze_by_signal np ts)
              ≡ performance_of (results_of (λ t. some t.signal) k ts))
          × (lookup k (analyze_by_confidence np ts)
              ≡ performance_of (results_of range_of_confidence k ts))
          × (lookup k (analyze_ml_effectiveness np ts) ≡ performance_of (results_of ml_range k ts))
          × (lookup k (analyze_by_time np ts) ≡ performance_of (results_of period k ts))
    unfolding analyze_by_instrument analyze_by_signal analyze_by_confidence analyze_ml_effectiveness
        analyze_by_time lookup
    analyses_lem k ts = (
      grouped_lem (λ t. some t.instrument) k [] ts tt refl,
      grouped_lem (λ t. some t.signal) k [] ts tt refl,
      grouped_lem range_of_confidence k empty_ranges ts (refl, (refl, (refl, tt))) (ground arith),
      grouped_lem ml_range k no_predictions ts (refl, (refl, tt)) (ground arith),
      grouped_lem period k [] ts tt refl,
    )
