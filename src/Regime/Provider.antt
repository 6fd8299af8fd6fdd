-- ===== src/Regime/Provider.antt =====
-- app/regime/provider.py: the assessment of the benchmark's bars as of a time. `bars` is
-- `MarketBarRepository.get_bars_as_of`.
use toss_api.Prelude.{ℕ, ◌*◌, String, Option, List}
use toss_api.Action.{Result, ok, bind}
use toss_api.Numeric.{Numeric}
use toss_api.Time.{day, earlier}
use toss_api.Db.Repositories.{MarketBarRow}
use toss_api.Regime.{RegimeInput, RegimeAssessment, RegimeClassifier, classify}

pub record RegimeProvider (D : Type 0) : Type 0 where
  -- instrument, timeframe, start, end, as_of
  pub bars : ℕ → String → ℕ → ℕ → ℕ → List (MarketBarRow D)
  pub classifier : RegimeClassifier D
  pub benchmark_instrument_id : ℕ
  pub timeframe : String
  pub lookback_days : ℕ

-- `RegimeProvider.get_regime_as_of`
unfoldable pub get_regime_as_of :
    {E D : Type 0}
    → Numeric D
    → (List D → D)
    → RegimeProvider D
    → ℕ
    → Option ℕ
    → Option ℕ
    → Result E (RegimeAssessment D)
unfolding earlier
get_regime_as_of {E} {D} num pstdev p as_of advancing_count declining_count =
    bind (earlier as_of (p.lookback_days * day)) λ start.
      let data_in : RegimeInput D = record {
        bars = p.bars p.benchmark_instrument_id p.timeframe start as_of as_of;
        advancing_count = advancing_count;
        declining_count = declining_count;
      } in
      ok (classify num pstdev p.classifier data_in as_of)
