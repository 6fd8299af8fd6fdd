-- ===== src/Models/Quant.antt =====
-- app/models/model.py: the model around the calibrated estimator that scikit-learn fits. An
-- estimator is what it predicts of one row of features, and `fit` gives it.
use toss_api.Prelude.{ℕ, String, Option, none, some, List}
use toss_api.Exceptions.{plain, runtime_error}
use toss_api.Action.{Result, ok, err, bind}
use toss_api.Models.Features.{FeatureVector}

pub record QuantModelConfig (F : Type 0) : Type 0 where
  pub regularization_c : F
  pub calibration_method : String
  pub calibration_splits : ℕ
  pub random_state : ℕ

abbrev pub Estimator : Type 0 → Type 0
Estimator F = FeatureVector F → F

pub record BaselineQuantModel (F : Type 0) : Type 0 where
  pub config : QuantModelConfig F
  pub estimator : Option (Estimator F)

-- What scikit-learn makes of the rows and their labels.
abbrev pub Fitting : Type 0 → Type 0 → Type 0
Fitting E F = QuantModelConfig F → List (FeatureVector F) → List ℕ → Result E (Estimator F)

module _ {F : Type 0} where
  abbrev pub new_model : QuantModelConfig F → BaselineQuantModel F
  new_model config = record { config = config; estimator = none }

  unfoldable pub from_fitted_estimator : Estimator F → QuantModelConfig F → BaselineQuantModel F
  from_fitted_estimator estimator config = record (new_model config) { estimator = some estimator }

module _ {E F : Type 0} where
  -- The model after `fit`, where it does not raise.
  unfoldable pub fit :
      Fitting E F
      → BaselineQuantModel F
      → List (FeatureVector F)
      → List ℕ
      → Result E (BaselineQuantModel F)
  fit fitting m features labels =
      bind (fitting m.config features labels)
        λ estimator. ok (record m { estimator = some estimator })

  -- `predict_proba`, on one row
  unfoldable pub predict_proba : BaselineQuantModel F → FeatureVector F → Result E F
  predict_proba m features = elim m.estimator [
    | none ↦ err (plain runtime_error)
    | some predict ↦ ok (predict features)
  ]

  unfoldable pub predict : BaselineQuantModel F → FeatureVector F → Result E F
  predict = predict_proba

  unfoldable pub fitted_estimator : BaselineQuantModel F → Result E (Estimator F)
  fitted_estimator m = elim m.estimator [
    | none ↦ err (plain runtime_error)
    | some estimator ↦ ok estimator
  ]
