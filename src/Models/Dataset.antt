-- ===== src/Models/Dataset.antt =====
-- app/models/dataset.py: `DatasetBuilder.build`, on the repository's read of bars. A window outside
-- the range of `datetime` raises.
pub mod Partition
use toss_api.Prelude.{
  ℕ, ◌*◌, String, Bool, true, false, ◌||◌, Option, none, some, List, [], ◌∷◌, is_some,
  if◌then◌else◌,
}
use toss_api.Action.{Result, ok, err, bind}
use toss_api.Numeric.{Numeric}
use toss_api.Time.{day, earlier, later}
use toss_api.Db.Repositories.{MarketBarRow}
use toss_api.Models.Features.{
  FeatureVector, FeatureReason, FeatureComputationResult, compute_features,
}
use toss_api.Models.Labels.{LabelDefinition, LabelReason, LabelResult, compute_forward_return_label}

pub record DatasetSample (D F : Type 0) : Type 0 where
  pub instrument_id : ℕ
  pub symbol : String
  pub as_of : ℕ
  pub features : FeatureVector F
  pub label : ℕ
  pub forward_return : D

-- The two formatted messages, by what they hold.
pub data SkipReason : Type 0 where
  no_features : Option FeatureReason → SkipReason
  no_label : Option LabelReason → SkipReason

pub record SkippedSample : Type 0 where
  pub instrument_id : ℕ
  pub as_of : ℕ
  pub reason : SkipReason

pub record DatasetBuildResult (D F : Type 0) : Type 0 where
  pub samples : List (DatasetSample D F)
  pub skipped : List SkippedSample

-- The constructor's arguments, with the read of bars: instrument, timeframe, start, end, as_of.
pub record DatasetBuilder (D : Type 0) : Type 0 where
  pub get_bars : ℕ → String → ℕ → ℕ → ℕ → List (MarketBarRow D)
  pub timeframe : String
  pub feature_lookback_days : ℕ
  pub label_definition : LabelDefinition D
  pub label_lookback_days : ℕ

-- What one pass of the loop adds.
pub data Entry (D F : Type 0) : Type 0 where
  sampled : DatasetSample D F → Entry D F
  left_out : SkippedSample → Entry D F

module _ {D F : Type 0} (dec : Numeric D) (flo : Numeric F) (to_float : D → F) (pstdev : List F → F)
    (b : DatasetBuilder D) (instrument_id : ℕ) (symbol : String) (data_as_of : ℕ) where
  -- The end of the pass, with the features and the label.
  abbrev pub entry_of : ℕ → FeatureVector F → LabelResult D → Entry D F
  entry_of as_of features result = elim result.label [
    | none ↦
        left_out
          (record { instrument_id = instrument_id; as_of = as_of; reason = no_label result.reason })
    | some label ↦ elim result.forward_return [
      | none ↦
          left_out (record {
            instrument_id = instrument_id;
            as_of = as_of;
            reason = no_label result.reason;
          })
      | some change ↦ sampled (record {
        instrument_id = instrument_id;
        symbol = symbol;
        as_of = as_of;
        features = features;
        label = label;
        forward_return = change;
      })
    ]
  ]

  -- The second half of a pass, with the features.
  unfoldable pub label_at : {E : Type 0} → ℕ → FeatureVector F → Result E (Entry D F)
  unfolding later
  label_at as_of features = bind (later as_of (b.label_lookback_days * day)) λ end. ok (
      entry_of as_of features (
        compute_forward_return_label dec b.label_definition
          (b.get_bars instrument_id b.timeframe as_of end data_as_of)))

  -- One pass: the features of the bars until `as_of`, known then, and the label of the bars from
  -- `as_of` on, known at `data_as_of`.
  unfoldable pub entry_at : {E : Type 0} → ℕ → Result E (Entry D F)
  unfolding earlier label_at
  entry_at as_of = bind (earlier as_of (b.feature_lookback_days * day)) λ start.
      let found : FeatureComputationResult F =
        compute_features dec flo to_float pstdev
          (b.get_bars instrument_id b.timeframe start as_of as_of) in
      elim found.vector [
        | none ↦ ok (
            left_out (record {
              instrument_id = instrument_id;
              as_of = as_of;
              reason = no_features found.reason;
            }))
        | some features ↦ label_at as_of features
      ]

  abbrev pub add_entry : Entry D F → DatasetBuildResult D F → DatasetBuildResult D F
  add_entry (sampled s) rest = record rest { samples = s ∷ rest.samples }
  add_entry (left_out s) rest = record rest { skipped = s ∷ rest.skipped }

  -- `DatasetBuilder.build`
  unfoldable pub build : {E : Type 0} → List ℕ → Result E (DatasetBuildResult D F)
  unfolding entry_at
  build [] = ok (record { samples = []; skipped = [] })
  build (as_of ∷ dates) =
      let rest = build dates in
      bind (entry_at as_of) λ entry. bind rest λ result. ok (add_entry entry result)
