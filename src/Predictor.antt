-- ===== src/Predictor.antt =====
-- ml_predictor.py: the labels, and the state of `MLPredictor` with its file. scikit-learn is left to
-- arguments, the fitted model and scaler being one value; a frame is a value, whose features are in
-- Features.
use oanda_trader.Base.{
  ℕ, zero, suc, Bool, true, false, ◌||◌, Option, none, some, List, [], ◌∷◌, ◌++◌, length, take, leb,
  ltb, if◌then◌else◌, Float, Num, ◌⊖◌, ◌⊘◌, dec, lt,
}
use oanda_trader.Analytics.{greatest, least}
pub mod Labels
pub mod Files
pub mod Features

module _ ⦃F : Float⦄ where
  -- The label of a price by those that follow it: whether the move up or the move down is large.
  unfoldable pub label : Num → Num → List Num → Bool
  unfolding greatest least
  label profit_threshold price [] = false
  label profit_threshold price (f ∷ fs) =
      lt profit_threshold ((greatest (f ∷ fs) ⊖ price) ⊘ price)
      || lt profit_threshold ((price ⊖ least (f ∷ fs)) ⊘ price)

  -- The labels of the prices that have enough others after them.
  unfoldable pub labels_from : ℕ → Num → List Num → List Bool
  unfolding label
  labels_from future_periods threshold [] = []
  labels_from future_periods threshold (p ∷ prices) =
      let rest = labels_from future_periods threshold prices in
      if leb future_periods (length prices)
      then label threshold p (take future_periods prices) ∷ rest
      else []

  -- `[0] * n`
  unfoldable pub zeros : ℕ → List Bool
  zeros zero = []
  zeros (suc n) = false ∷ zeros n

  unfoldable pub create_labels : ℕ → Num → List Num → List Bool
  unfolding labels_from zeros
  create_labels future_periods threshold prices =
      labels_from future_periods threshold prices ++ zeros future_periods

-- The predictor in memory, and its file; `M` is a fitted model with its scaler
-- and the names of its columns.
pub record Predictor (M : Type 0) : Type 0 where
  pub model : Option M
  pub file : Option M

-- How the call `database.store_model_training(metrics)` ends for the database that is given: the
-- object has no such method, the method returns, or it raises an exception.
pub data Storing : Type 0 where
  no_method stored storing_failed : Storing

-- How a training ends.
pub data Training : Type 0 where
  trained too_few_samples attribute_error storing_error : Training

module _ {M : Type 0} where
  -- A new predictor beside a file.
  abbrev pub new_predictor : Option M → Predictor M
  new_predictor file = record { model = none; file = file }

  unfoldable pub save_model : Predictor M → Predictor M
  save_model p = elim p.model [ none ↦ p | some m ↦ record { model = some m; file = some m } ]

  unfoldable pub load_model : Predictor M → Predictor M × Bool
  load_model p = elim p.file [
    | none ↦ (p, false)
    | some m ↦ (record { model = some m; file = some m }, true)
  ]

  -- The end of a training with the model fitted.
  unfoldable pub finish_training : Predictor M → Option Storing → Predictor M × Training
  unfolding save_model
  finish_training p none = (save_model p, trained)
  finish_training p (some stored) = (save_model p, trained)
  finish_training p (some no_method) = (p, attribute_error)
  finish_training p (some storing_failed) = (p, storing_error)

  -- `samples` is the number of rows of a frame, and `fit` what scikit-learn fits to it; `database` is
  -- how the call of the database ends, where one is given.
  unfoldable pub train :
      {X : Type 0} → (X → ℕ) → (X → M) → Predictor M → X → Option Storing → Predictor M × Training
  unfolding finish_training
  train samples fit p df database =
      if ltb (samples df) 50
      then (p, too_few_samples)
      else finish_training (record { model = some (fit df); file = p.file }) database

  module _ ⦃F : Float⦄ where
    -- The probability by the model in memory, or by the one in the file, which is then loaded; one
    -- half where there is neither.
    unfoldable pub predict_probability :
        {X : Type 0} → (M → X → Num) → Predictor M → X → Predictor M × Num
    unfolding load_model
    predict_probability predict p df = elim p.model [
      | none ↦ elim p.file [ none ↦ (p, dec 5 1) | some m ↦ ((load_model p).0, predict m df) ]
      | some m ↦ (p, predict m df)
    ]
