-- ===== src/Tests/Training.antt =====
-- app/models/training.py, on numbers in tenths: two samples of three are trained on.
use toss_api.Prelude.{ℕ, ◌≡◌, ◌*◌, ◌&&◌, refl, true, false, List, [], ◌∷◌, leb}
use toss_api.Prelude.Int.{ℤ, pos, ◌*ℤ◌, ◌-ℤ◌, div_ℤ}
use toss_api.Prelude.Sort.{sort_by}
use toss_api.Exceptions.{plain, value_error}
use toss_api.Action.{ok, err}
use toss_api.Numeric.{Numeric, integers}
use toss_api.Models.Dataset.{DatasetSample}
use toss_api.Models.Training.{
  TrainValidationSplit, is_fraction, split_index, clamp_index, time_ordered_split,
}
use toss_api.Models.Training.InOrder.{IsSplit, time_ordered_split-IsSplit}

abbrev tenths : Numeric ℤ
tenths = record integers { of_ℕ = λ n. pos (n * 10); mul = λ a b. div_ℤ (a *ℤ b) (pos 10) }

abbrev sample : ℕ → DatasetSample ℤ ℤ
sample as_of = record {
  instrument_id = 1;
  symbol = "005930";
  as_of = as_of;
  features = record {
    return_1d = pos 0;
    return_5d = pos 0;
    return_10d = pos 0;
    return_20d = pos 0;
    volatility_20d = pos 19;
    volume_ratio_5d_20d = pos 1;
    price_vs_sma20 = pos 0;
  };
  label = 0;
  forward_return = pos 0;
}

abbrev samples : List (DatasetSample ℤ ℤ)
samples = sample 9 ∷ sample 3 ∷ sample 6 ∷ []

abbrev whole : ℤ → ℤ
whole x = div_ℤ x (pos 10)

time_ordered_split-IsSplit_example :
    ((is_fraction tenths (pos 3) && leb 2 3) ≡ false
      → time_ordered_split {E = ℤ} tenths whole samples (pos 3) ≡ err (plain value_error))
    × ((is_fraction tenths (pos 3) && leb 2 3) ≡ true
        → (split : TrainValidationSplit ℤ ℤ) × (time_ordered_split {E = ℤ} tenths whole samples
              (pos 3)
            ≡ ok split)
          × IsSplit tenths whole samples (pos 3) split)
time_ordered_split-IsSplit_example = time_ordered_split-IsSplit tenths whole samples (pos 3)

split_at_nine :
    time_ordered_split {E = ℤ} tenths whole samples (pos 3)
    ≡ ok (record {
      train_samples = sample 3 ∷ sample 6 ∷ [];
      validation_samples = sample 9 ∷ [];
      split_as_of = 9;
    })
unfolding time_ordered_split is_fraction split_index sort_by clamp_index div_ℤ ◌*ℤ◌ ◌-ℤ◌
split_at_nine = refl
