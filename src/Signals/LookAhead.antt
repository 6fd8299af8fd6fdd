-- ===== src/Signals/LookAhead.antt =====
-- The evidence uses no bar that was known only later.
use toss_api.Prelude.{ℕ, ◌*◌, String, ◌≡◌, refl, Option, none, some, List, ap}
use toss_api.Action.{ok, bind_ext}
use toss_api.Numeric.{Numeric}
use toss_api.Time.{day, earlier}
use toss_api.Db.Repositories.{MarketBarRow}
use toss_api.Models.Features.{FeatureVector, FeatureComputationResult, compute_features}
use toss_api.Regime.{classify}
use toss_api.Regime.Provider.{get_regime_as_of}
use toss_api.AiContext.Schema.{AiContextResult}
use toss_api.Models.Quant.{BaselineQuantModel}
use toss_api.Signals.{
  BaselineQuantModel, SignalEngine, probability_from, probability_with, compute_quant_probability,
  build_signal_input,
}

-- instrument, timeframe, start, end, as_of
abbrev pub BarReads : Type 0 → Type 0
BarReads D = ℕ → String → ℕ → ℕ → ℕ → List (MarketBarRow D)

-- Two databases of which the reads as of a time, of bars until then, are the same; they may differ in
-- all that became known later.
abbrev pub SameUntil : {D : Type 0} → ℕ → BarReads D → BarReads D → Type 0
SameUntil as_of a b =
    (i : ℕ) (f : String) (start : ℕ) → a i f start as_of as_of ≡ b i f start as_of as_of

module _ {D F : Type 0} (s : SignalEngine D F) where
  -- The engine, on other databases.
  abbrev pub on : BarReads D → BarReads D → SignalEngine D F
  on bars benchmark = record s {
    bars = bars;
    regime_provider = record s.regime_provider { bars = benchmark };
  }

module _ {D F E : Type 0} (dec : Numeric D) (flo : Numeric F) (to_float : D → F)
    (pstdev : List F → F) (pstdev_decimal : List D → D) (s : SignalEngine D F) where
  regime_same :
      (a b : BarReads D) (as_of : ℕ) (advancing declining : Option ℕ)
      → SameUntil as_of a b
      → get_regime_as_of {E = E} dec pstdev_decimal
          (record s.regime_provider { bars = a })
          as_of
          advancing
          declining
        ≡ get_regime_as_of dec pstdev_decimal
            (record s.regime_provider { bars = b })
            as_of
            advancing
            declining
  unfolding get_regime_as_of
  regime_same a b as_of advancing declining same =
      let p = s.regime_provider in
      bind_ext (earlier as_of (p.lookback_days * day)) _ _ (λ start.
        ap
          (λ (bars : List (MarketBarRow D)). ok (
            classify dec pstdev_decimal p.classifier
              (record { bars = bars; advancing_count = advancing; declining_count = declining })
              as_of))
          (same p.benchmark_instrument_id p.timeframe start))

  probability_same :
      (a b r r' : BarReads D) (instrument_id as_of : ℕ) (model : Option (BaselineQuantModel F))
      → SameUntil as_of a b
      → probability_with dec flo to_float pstdev pstdev_decimal
          (on s a r)
          {E = E}
          instrument_id
          as_of
          model
        ≡ probability_with dec flo to_float pstdev pstdev_decimal
            (on s b r')
            instrument_id
            as_of
            model
  unfolding probability_with
  probability_same a b r r' instrument_id as_of none same = refl
  probability_same a b r r' instrument_id as_of (some model) same =
      bind_ext (earlier as_of (s.feature_lookback_days * day)) _ _ (λ start.
        let vector : List (MarketBarRow D) → Option (FeatureVector F) = λ bars.
          let found : FeatureComputationResult F = compute_features dec flo to_float pstdev bars in
          found.vector in
        ap
          (λ (bars : List (MarketBarRow D)).
            probability_from dec flo to_float pstdev pstdev_decimal (on s a r) {E = E} as_of model
              (vector bars))
          (same instrument_id s.feature_timeframe start))

  -- On two databases that agree on what is read of bars until `as_of` as of then, and differ as they
  -- like in what became known later, the engine gives the same evidence, or the same exception.
  pub build_signal_input-SameUntil :
      (a b r r' : BarReads D) (now instrument_id : ℕ) (symbol : String) (as_of : ℕ)
      (ai_context : List (AiContextResult F)) (advancing declining : Option ℕ)
      → SameUntil as_of a b
      → SameUntil as_of r r'
      → build_signal_input dec flo to_float pstdev pstdev_decimal
          (on s a r)
          {E = E}
          now
          instrument_id
          symbol
          as_of
          ai_context
          advancing
          declining
        ≡ build_signal_input dec flo to_float pstdev pstdev_decimal
            (on s b r')
            now
            instrument_id
            symbol
            as_of
            ai_context
            advancing
            declining
  unfolding build_signal_input compute_quant_probability
  build_signal_input-SameUntil a b r r' now instrument_id symbol as_of ai_context advancing
        declining same same' =
      rw
        (
          regime_same r r' as_of advancing declining same',
          probability_same a b r r' instrument_id as_of s.quant_model same,
        )
        refl
