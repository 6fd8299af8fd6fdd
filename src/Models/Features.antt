-- ===== src/Models/Features.antt =====
-- app/models/features.py: the features of a window of bars that ends at `as_of`. `D` is `Decimal`,
-- `F` is `float`, with the conversion and `statistics.pstdev` as parameters.
use toss_api.Prelude.{ℕ, ◌+◌, Option, none, some, List, map, length, ltb, if◌then◌else◌}
use toss_api.Numeric.{Numeric}
use toss_api.Db.Repositories.{MarketBarRow}
use toss_api.Regime.{last_n, is_zero, relative_change, daily_returns, close_ends}
use toss_api.Scanners.Universe.{total}

pub record FeatureVector (F : Type 0) : Type 0 where
  pub return_1d : F
  pub return_5d : F
  pub return_10d : F
  pub return_20d : F
  pub volatility_20d : F
  pub volume_ratio_5d_20d : F
  pub price_vs_sma20 : F

-- The messages, by what they hold.
pub data FeatureReason : Type 0 where
  need_bars : ℕ → ℕ → FeatureReason
  zero_price few_returns zero_volume zero_sma : FeatureReason

pub record FeatureComputationResult (F : Type 0) : Type 0 where
  pub vector : Option (FeatureVector F)
  pub reason : Option FeatureReason

module _ {D F : Type 0} (dec : Numeric D) (flo : Numeric F) (to_float : D → F)
    (pstdev : List F → F) where
  -- `_return_over`
  unfoldable pub return_over : List (MarketBarRow D) → ℕ → Option F
  return_over bars lookback =
      if ltb (length bars) (lookback + 1)
      then none
      else elim (close_ends dec (last_n (lookback + 1) bars)) [
        | none ↦ none
        | some (start, end) ↦
            if is_zero dec start then none else some (to_float (relative_change dec start end))
      ]

  abbrev pub mean : List F → F
  mean xs = flo.div (total flo xs) (flo.of_ℕ (length xs))

  abbrev pub failed : FeatureReason → FeatureComputationResult F
  failed why = record { vector = none; reason = some why }

  abbrev pub closes : List (MarketBarRow D) → List F
  closes bars = map (λ b. to_float b.values.close_price) bars

  abbrev pub volumes : List (MarketBarRow D) → List F
  volumes bars = map (λ b. to_float b.values.volume) bars

  -- `compute_features` once the four returns and the latest close are there.
  unfoldable pub features_of :
      List (MarketBarRow D) → F → F → F → F → D → FeatureComputationResult F
  features_of bars r1 r5 r10 r20 latest =
      let window = last_n 20 bars in
      let returns = map to_float (daily_returns dec window) in
      let average = mean (volumes window) in
      let sma = mean (closes window) in
      if ltb (length returns) 2
      then failed few_returns
      else if is_zero flo average
      then failed zero_volume
      else if is_zero flo sma
      then failed zero_sma
      else record {
        vector = some (record {
          return_1d = r1;
          return_5d = r5;
          return_10d = r10;
          return_20d = r20;
          volatility_20d = pstdev returns;
          volume_ratio_5d_20d = flo.div (mean (volumes (last_n 5 bars))) average;
          price_vs_sma20 = flo.sub (flo.div (to_float latest) sma) (flo.of_ℕ 1);
        });
        reason = none;
      }

  -- `compute_features`; 21 bars have a last one.
  unfoldable pub compute_features : List (MarketBarRow D) → FeatureComputationResult F
  unfolding return_over features_of
  compute_features bars =
      if ltb (length bars) 21
      then failed (need_bars 21 (length bars))
      else elim (return_over bars 1) [
        | none ↦ failed zero_price
        | some r1 ↦ elim (return_over bars 5) [
          | none ↦ failed zero_price
          | some r5 ↦ elim (return_over bars 10) [
            | none ↦ failed zero_price
            | some r10 ↦ elim (return_over bars 20) [
              | none ↦ failed zero_price
              | some r20 ↦ elim (close_ends dec bars) [
                | none ↦ failed zero_price
                | some (_, latest) ↦ features_of bars r1 r5 r10 r20 latest
              ]
            ]
          ]
        ]
      ]
