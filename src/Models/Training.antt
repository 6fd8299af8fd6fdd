-- ===== src/Models/Training.antt =====
-- app/models/training.py: the split in time, and the fit on its first part. `round` is Python's
-- `round(x)`.
pub mod InOrder
use toss_api.Prelude.{
  ℕ, ◌-◌, Bool, true, false, ◌&&◌, Option, none, some, List, [], ◌∷◌, map, length, take, drop, ltb,
  if◌then◌else◌,
}
use toss_api.Prelude.Int.{ℤ, pos, negsuc}
use toss_api.Prelude.Sort.{sort_by}
use toss_api.Exceptions.{plain, value_error, index_error}
use toss_api.Action.{Result, ok, err, bind}
use toss_api.Numeric.{Numeric}
use toss_api.Models.Features.{FeatureVector}
use toss_api.Models.Dataset.{DatasetSample}
use toss_api.Models.Quant.{QuantModelConfig, BaselineQuantModel, Fitting, new_model, fit}

pub record TrainValidationSplit (D F : Type 0) : Type 0 where
  pub train_samples : List (DatasetSample D F)
  pub validation_samples : List (DatasetSample D F)
  pub split_as_of : ℕ

-- `min(max(split_index, 1), length - 1)`
unfoldable pub clamp_index : ℤ → ℕ → ℕ
clamp_index (pos i) count =
    let low = if ltb i 1 then 1 else i in if ltb low (count - 1) then low else count - 1
clamp_index (negsuc _) count = if ltb 1 (count - 1) then 1 else count - 1

module _ {F : Type 0} (num : Numeric F) where
  unfoldable pub is_fraction : F → Bool
  is_fraction x = num.ltb (num.of_ℕ 0) x && num.ltb x (num.of_ℕ 1)

module _ {F : Type 0} (num : Numeric F) (round : F → ℤ) where
  unfoldable pub split_index : ℕ → F → ℕ
  unfolding clamp_index
  split_index count validation_fraction =
      clamp_index (round (num.mul (num.of_ℕ count) (num.sub (num.of_ℕ 1) validation_fraction)))
        count

module _ {D F : Type 0} where
  -- The rows and the labels, without numpy's arrays.
  abbrev pub samples_to_arrays : List (DatasetSample D F) → List (FeatureVector F) × List ℕ
  samples_to_arrays samples = (map (λ s. s.features) samples, map (λ s. s.label) samples)

module _ {E D F : Type 0} where
  -- The result, of which `validation[0]` is asked.
  split_of :
      List (DatasetSample D F) → List (DatasetSample D F) → Result E (TrainValidationSplit D F)
  split_of train [] = err (plain index_error)
  split_of train (first ∷ rest) = ok (record {
    train_samples = train;
    validation_samples = first ∷ rest;
    split_as_of = first.as_of;
  })

module _ {E D F : Type 0} (num : Numeric F) (round : F → ℤ) where
  unfoldable pub time_ordered_split :
      List (DatasetSample D F) → F → Result E (TrainValidationSplit D F)
  unfolding split_of split_index is_fraction
  time_ordered_split samples validation_fraction =
      if is_fraction num validation_fraction
      then (if ltb (length samples) 2
          then err (plain value_error)
          else (let ordered = sort_by (λ s. s.as_of) samples in
              let i = split_index num round (length ordered) validation_fraction in
              split_of (take i ordered) (drop i ordered)))
      else err (plain value_error)

  unfoldable pub train_baseline_model :
      Fitting E F
      → List (DatasetSample D F)
      → QuantModelConfig F
      → F
      → Result E (BaselineQuantModel F × TrainValidationSplit D F)
  unfolding time_ordered_split fit
  train_baseline_model fitting samples config validation_fraction =
      bind (time_ordered_split samples validation_fraction) λ split.
        let (train_features, train_labels) = samples_to_arrays split.train_samples in
        bind (fit fitting (new_model config) train_features train_labels) λ model. ok (model, split)
