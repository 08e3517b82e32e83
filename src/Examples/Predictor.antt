-- ===== src/Examples/Predictor.antt =====
-- Runs of ml_predictor.py: four prices, and a model that is the number of its samples.
use oanda_trader.Base.{ℕ, ◌≡◌, refl, true, false, none, List, [], ◌∷◌, arith, Num, dec, of_ℕ}
use oanda_trader.Base.Fixed.{fixed, plus, minus, times, over, whole}
use oanda_trader.Analytics.{greatest, least}
use oanda_trader.Predictor.{
  Predictor, label, labels_from, zeros, create_labels, new_predictor, save_model, load_model,
  finish_training, no_method, train, predict_probability,
}
use oanda_trader.Predictor.Labels.{AreLabels, create_labels-AreLabels}
use oanda_trader.Predictor.Files.{Event, learn, ask, handle, handle_all, last_model}
use oanda_trader.Base.{some, length, All, Numpy, nought}
use oanda_trader.Strategies.{Candle}
use oanda_trader.Validation.Candles.Rows.{IsSound}
use oanda_trader.Predictor.Features.{
  Row, Features, AreFeatures, Value, finite, volume_mean, features_of, features_from,
  engineer_features, engineer_features-AreFeatures,
}

program : Unit {0}
unfolding greatest least label labels_from zeros create_labels save_model load_model finish_training
    handle handle_all last_model train predict_probability plus minus times over whole
program = tt

abbrev prices : List Num
prices = of_ℕ 10 ∷ of_ℕ 10 ∷ of_ℕ 10 ∷ of_ℕ 12 ∷ []

labels_run : create_labels 2 (dec 1 1) prices ≡ false ∷ true ∷ false ∷ false ∷ []
unfolding program
labels_run = refl

create_labels-AreLabels_example : AreLabels 2 (dec 1 1) prices (create_labels 2 (dec 1 1) prices)
create_labels-AreLabels_example =
    create_labels-AreLabels 2 (dec 1 1) prices (omega arith)
      (omega arith, (omega arith, (omega arith, (omega arith, tt))))

abbrev empty : Predictor ℕ
empty = new_predictor none

-- A training that ends at the database, and one on too few samples.
abbrev history : List (Event ℕ)
history = learn 70 none ∷ ask 3 ∷ learn 60 (some no_method) ∷ learn 20 none ∷ []

abbrev scaled : ℕ → ℕ → Num
scaled m n = of_ℕ m

abbrev same : ℕ → ℕ
same n = n

abbrev numpy : Numpy
numpy = record { mean = λ xs. nought; std = λ xs. nought; sqrt = λ x. x }

abbrev candle : Candle
candle = record {
  open_price = some (of_ℕ 2);
  high = some (of_ℕ 6);
  low = some (of_ℕ 2);
  close = some (of_ℕ 3);
  volume = some (of_ℕ 9);
}

-- Without a range.
abbrev flat : Candle
flat = record candle { high = some (of_ℕ 2); close = some (of_ℕ 2) }

abbrev frame : List Row
frame =
    record { candle = candle; bb_upper = none; bb_lower = none }
    ∷ record { candle = flat; bb_upper = none; bb_lower = none }
    ∷ []

abbrev positions : List Features → List Value
positions [] = []
positions (f ∷ fs) = f.close_position_in_range ∷ positions fs

features_run :
    positions (engineer_features numpy false true frame) ≡ finite (dec 25 2) ∷ finite (dec 5 1) ∷ []
unfolding program volume_mean features_of features_from engineer_features
features_run = refl

frame-IsSound : All (λ (r : Row). IsSound r.candle) frame
frame-IsSound = (
  record {
    prices = (
      of_ℕ 2,
      of_ℕ 6,
      of_ℕ 2,
      of_ℕ 3,
      refl,
      refl,
      refl,
      refl,
      omega arith,
      omega arith,
      omega arith,
      omega arith,
      omega arith,
    );
  },
  (
    record {
      prices = (
        of_ℕ 2,
        of_ℕ 2,
        of_ℕ 2,
        of_ℕ 2,
        refl,
        refl,
        refl,
        refl,
        omega arith,
        omega arith,
        omega arith,
        omega arith,
        omega arith,
      );
    },
    tt,
  ),
)

engineer_features-AreFeatures_example :
    (length (engineer_features numpy false true frame) ≡ 2)
    × All AreFeatures (engineer_features numpy false true frame)
engineer_features-AreFeatures_example =
    engineer_features-AreFeatures numpy false true frame frame-IsSound
