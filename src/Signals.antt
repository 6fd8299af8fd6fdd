-- ===== src/Signals.antt =====
-- app/signals: the evidence on an instrument as of a time.
pub mod LookAhead
use toss_api.Prelude.{ℕ, ◌*◌, String, Bool, true, false, Option, none, some, List, [], ◌∷◌, is_some}
use toss_api.Exceptions.{plain, runtime_error}
use toss_api.Action.{Result, ok, err, bind}
use toss_api.Numeric.{Numeric}
use toss_api.Time.{day, earlier}
use toss_api.Db.Repositories.{MarketBarRow}
use toss_api.Models.Features.{FeatureVector, FeatureComputationResult, compute_features}
use toss_api.Models.Quant.{BaselineQuantModel, predict_proba}
use toss_api.Regime.{RegimeAssessment}
use toss_api.Regime.Provider.{RegimeProvider, get_regime_as_of}
use toss_api.AiContext.Schema.{AiContextResult}

pub record QuantProbability (F : Type 0) : Type 0 where
  pub model_name : String
  pub model_version : String
  pub feature_schema_version : String
  pub label_definition_version : String
  pub probability : F
  pub as_of : ℕ

pub record SignalInput (D F : Type 0) : Type 0 where
  pub instrument_id : ℕ
  pub symbol : String
  pub as_of : ℕ
  pub generated_at : ℕ
  pub ai_context : List (AiContextResult F)
  pub quant_probability : Option (QuantProbability F)
  pub regime : Option (RegimeAssessment D)

-- The properties of the class.
module _ {D F : Type 0} where
  unfoldable pub has_ai_context : SignalInput D F → Bool
  has_ai_context s = elim s.ai_context [ [] ↦ false | _ ∷ _ ↦ true ]

  unfoldable pub has_quant_probability : SignalInput D F → Bool
  has_quant_probability s = is_some s.quant_probability

  unfoldable pub has_regime : SignalInput D F → Bool
  has_regime s = is_some s.regime

-- The constructor's arguments; `bars` is `MarketBarRepository.get_bars_as_of`.
pub record SignalEngine (D F : Type 0) : Type 0 where
  -- instrument, timeframe, start, end, as_of
  pub bars : ℕ → String → ℕ → ℕ → ℕ → List (MarketBarRow D)
  pub regime_provider : RegimeProvider D
  pub quant_model : Option (BaselineQuantModel F)
  pub quant_model_name : String
  pub quant_model_version : String
  pub quant_feature_schema_version : String
  pub quant_label_definition_version : String
  pub feature_timeframe : String
  pub feature_lookback_days : ℕ

-- `build_signal_input` of schema.py
unfoldable pub signal_input :
    {D F : Type 0}
    → ℕ
    → String
    → ℕ
    → ℕ
    → List (AiContextResult F)
    → Option (QuantProbability F)
    → Option (RegimeAssessment D)
    → SignalInput D F
signal_input instrument_id symbol as_of generated_at ai_context quant_probability regime = record {
  instrument_id = instrument_id;
  symbol = symbol;
  as_of = as_of;
  generated_at = generated_at;
  ai_context = ai_context;
  quant_probability = quant_probability;
  regime = regime;
}

module _ {D F : Type 0} (dec : Numeric D) (flo : Numeric F) (to_float : D → F) (pstdev : List F → F)
    (pstdev_decimal : List D → D) (s : SignalEngine D F) where
  unfoldable pub probability_of : {E : Type 0} → ℕ → F → Result E (Option (QuantProbability F))
  probability_of as_of probability = ok (
      some (record {
        model_name = s.quant_model_name;
        model_version = s.quant_model_version;
        feature_schema_version = s.quant_feature_schema_version;
        label_definition_version = s.quant_label_definition_version;
        probability = probability;
        as_of = as_of;
      }))

  -- With the window's features.
  unfoldable pub probability_from :
      {E : Type 0}
      → ℕ
      → BaselineQuantModel F
      → Option (FeatureVector F)
      → Result E (Option (QuantProbability F))
  unfolding probability_of predict_proba
  probability_from as_of model none = ok none
  probability_from as_of model (some features) =
      bind (predict_proba model features) (probability_of as_of)

  unfoldable pub probability_with :
      {E : Type 0} → ℕ → ℕ → Option (BaselineQuantModel F) → Result E (Option (QuantProbability F))
  unfolding probability_from earlier
  probability_with instrument_id as_of none = ok none
  probability_with instrument_id as_of (some model) =
      bind (earlier as_of (s.feature_lookback_days * day)) λ start.
        let found : FeatureComputationResult F =
          compute_features dec flo to_float pstdev
            (s.bars instrument_id s.feature_timeframe start as_of as_of) in
        probability_from as_of model found.vector

  -- `_compute_quant_probability`
  unfoldable pub compute_quant_probability :
      {E : Type 0} → ℕ → ℕ → Result E (Option (QuantProbability F))
  unfolding probability_with
  compute_quant_probability instrument_id as_of = probability_with instrument_id as_of s.quant_model

  -- `SignalEngine.build_signal_input`, at the time `now` of the clock
  unfoldable pub build_signal_input :
      {E : Type 0}
      → ℕ
      → ℕ
      → String
      → ℕ
      → List (AiContextResult F)
      → Option ℕ
      → Option ℕ
      → Result E (SignalInput D F)
  unfolding compute_quant_probability signal_input
  build_signal_input now instrument_id symbol as_of ai_context advancing_count declining_count =
      bind
        (get_regime_as_of dec pstdev_decimal s.regime_provider as_of advancing_count
          declining_count)
        λ regime. bind (compute_quant_probability instrument_id as_of) λ quant_probability.
          ok
            (signal_input instrument_id symbol as_of now ai_context quant_probability (some regime))
