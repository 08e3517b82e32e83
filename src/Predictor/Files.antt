-- ===== src/Predictor/Files.antt =====
-- The model and its file in ml_predictor.py, over any trainings, predictions and a restart.
use oanda_trader.Base.{
  ℕ, Bool, true, false, ◌&&◌, Option, none, some, List, [], ◌∷◌, leb, if◌then◌else◌, Float, Num,
  dec,
}
use oanda_trader.Predictor.{
  Predictor, Storing, stored, no_method, storing_failed, train, predict_probability,
}

-- What happens to a predictor: a training, with how the call of its database ends, and a prediction.
pub data Event (X : Type 0) : Type 0 where
  learn : X → Option Storing → Event X
  ask : X → Event X

-- Whether nothing stops a training after the fit.
abbrev pub goes_on : Option Storing → Bool
goes_on none = true
goes_on (some stored) = true
goes_on (some no_method) = false
goes_on (some storing_failed) = false

-- The model in memory, or else the one in the file.
abbrev current : {M : Type 0} → Predictor M → Option M
current p = elim p.model [ none ↦ p.file | some m ↦ some m ]

module _ ⦃F : Float⦄ {M X : Type 0} (samples : X → ℕ) (fit : X → M) (predict : M → X → Num) where
  unfoldable pub handle : Predictor M → Event X → Predictor M
  handle p (learn df database) = (train samples fit p df database).0
  handle p (ask df) = (predict_probability predict p df).0

  unfoldable pub handle_all : Predictor M → List (Event X) → Predictor M
  handle_all p [] = p
  handle_all p (e ∷ es) = handle_all (handle p e) es

  -- What the last training that passes a test fitted, and before any the model at first.
  unfoldable pub last_model : (X → Option Storing → Bool) → Option M → List (Event X) → Option M
  last_model test start [] = start
  last_model test start (learn df database ∷ es) =
      last_model test (if test df database then some (fit df) else start) es
  last_model test start (ask df ∷ es) = last_model test start es

  -- A training that fits a model, and one that also writes it to the file.
  abbrev pub fits : X → Option Storing → Bool
  fits df database = leb 50 (samples df)

  abbrev pub saves : X → Option Storing → Bool
  saves df database = leb 50 (samples df) && goes_on database

  abbrev pub answer : Option M → X → Num
  answer none df = dec 5 1
  answer (some m) df = predict m df

  -- A predictor by its two fields.
  abbrev holding : Option M → Option M → Predictor M
  holding model file = record { model = model; file = file }
