-- ===== src/Tests/Models.antt =====
-- app/models, run on integers: two bars, of which the second is one up.
use toss_api.Prelude.{ℕ, refl, some, List, [], ◌∷◌, length, ◌==◌, if◌then◌else◌}
use toss_api.Prelude.Int.{ℤ, pos, ◌+ℤ◌, ◌-ℤ◌, div_ℤ}
use toss_api.Numeric.{integers}
use toss_api.Db.Repositories.{MarketBarRow}
use toss_api.Regime.{daily_returns}
use toss_api.Models.Features.{need_bars, compute_features}
use toss_api.Models.Labels.{LabelDefinition, compute_forward_return_label}
use toss_api.Models.Dataset.{DatasetBuilder, DatasetBuildResult, no_features, build}
use toss_api.Models.Dataset.Partition.{Covers, build-Covers}
use toss_api.Tests.Db.{bar}

abbrev bars : List (MarketBarRow ℤ)
bars = bar ∷ record bar { values = record bar.values { close_price = pos 22 } } ∷ []

abbrev next_day : LabelDefinition ℤ
next_day = record { horizon_days = 1; return_threshold = pos 0 }

abbrev one : ℕ
one = 1

abbrev deviation : List ℤ → ℤ
deviation returns = pos (length returns)

abbrev many : List (MarketBarRow ℤ)
many =
    bar ∷ bar ∷ bar ∷ bar ∷ bar ∷ bar ∷ bar ∷ bar ∷ bar ∷ bar ∷ bar ∷ bar ∷ bar ∷ bar ∷ bar ∷ bar
    ∷ bar ∷ bar ∷ bar ∷ bar ∷ bar ∷ []

-- The window of the first date has too few bars.
abbrev builder : DatasetBuilder ℤ
builder = record {
  get_bars = λ i t start end as_of. if as_of == 5 then bars else many;
  timeframe = "1d";
  feature_lookback_days = 0;
  label_definition = next_day;
  label_lookback_days = 0;
}

abbrev pub built : DatasetBuildResult ℤ ℤ
built = record {
  samples =
      record {
        instrument_id = 1;
        symbol = "005930";
        as_of = 6;
        features = record {
          return_1d = pos 0;
          return_5d = pos 0;
          return_10d = pos 0;
          return_20d = pos 0;
          volatility_20d = pos 19;
          volume_ratio_5d_20d = pos 1;
          price_vs_sma20 = pos 0;
        };
        label = 0;
        forward_return = pos 0;
      }
      ∷ [];
  skipped =
      record { instrument_id = 1; as_of = 5; reason = no_features (some (need_bars 21 2)) } ∷ [];
}

build-Covers_example :
    Covers integers integers
      (λ x. x)
      deviation
      builder
      1
      "005930"
      9
      (5 ∷ 6 ∷ [])
      built.samples
      built.skipped
unfolding build compute_features daily_returns div_ℤ ◌+ℤ◌ compute_forward_return_label ◌-ℤ◌
build-Covers_example =
    build-Covers integers integers (λ x. x) deviation builder 1 "005930" 9 {E = ℤ} (5 ∷ 6 ∷ [])
      built refl
