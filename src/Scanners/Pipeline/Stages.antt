-- ===== src/Scanners/Pipeline/Stages.antt =====
-- The pipeline runs the stages as told, one behind the other.
use toss_api.Prelude.{ℕ, ◌+◌, ◌*◌, ◌≡◌, List, Pairs}
use toss_api.Action.{ok}
use toss_api.Numeric.{Numeric}
use toss_api.Time.{day}
use toss_api.Db.Repositories.Market.{InstrumentRow}
use toss_api.Scanners.Universe.{UniverseFilterResult}
use toss_api.Scanners.StrategyRules.{evaluate}
use toss_api.Scanners.Pipeline.{MarketReads, ScannerPipeline}
use toss_api.Scanners.Pipeline.Outcome.{bars_from}

module _ {D F : Type 0} (num : Numeric D) (reads : MarketReads D) (p : ScannerPipeline D F) where
  -- What is known once the filters have been evaluated.
  abbrev Filtered : ℕ → InstrumentRow → ℕ → List (UniverseFilterResult D) → Type 0
  Filtered as_of instrument start results =
      (start + p.config.lookback_days * day ≡ as_of)
      × Pairs
          (λ f r.
            f.evaluate (record {
              instrument = instrument;
              recent_bars = bars_from reads p as_of instrument start;
            })
            ≡ ok r)
          p.universe_filters results
