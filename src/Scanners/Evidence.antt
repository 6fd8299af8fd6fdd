-- ===== src/Scanners/Evidence.antt =====
-- The built-in filters and plugins account for their verdicts.
use toss_api.Prelude.{ℕ, String, ◌≡◌, ◌↔◌, true, false, Option, arith, is_some}
use toss_api.Action.{Result, ok}
use toss_api.Numeric.{Numeric}
use toss_api.Scanners.Events.{
  EventScanInput, EventDetection, no_amount, detect_news, detect_disclosures, detect_price_gap,
  detect_abnormal_volume, detect_volatility_spike, detect_orderbook_imbalance,
}

-- A detection gives a reason exactly if it did not detect, and detects only what it has observed.
pub record IsExplained {D : Type 0} (d : EventDetection D) : Type 0 where
  pub explained : (d.detected ≡ false) ↔ (is_some d.reason ≡ true)
  pub observed : d.observed_value ≡ no_amount → d.detected ≡ false

abbrev pub Explains : {D F : Type 0} → (EventScanInput D → Result F (EventDetection D)) → Type 0
Explains detect = (data_in : _) (d : _) → detect data_in ≡ ok d → IsExplained d

module _ {D F : Type 0} (num : Numeric D) (name : String) (market : Option String) where
  -- Each of the six plugins, at every threshold and on every input, either raises or explains its
  -- verdict.
  pub detect-Explains :
      (threshold : D) (min_count : ℕ)
      → Explains {D = D} {F = F} (detect_price_gap num name market threshold)
        × Explains {D = D} {F = F} (detect_abnormal_volume num name market threshold)
        × Explains {D = D} {F = F} (detect_volatility_spike num name market threshold)
        × Explains {D = D} {F = F} (detect_orderbook_imbalance num name market threshold)
        × Explains {D = D} {F = F} (detect_news name market min_count)
        × Explains {D = D} {F = F} (detect_disclosures name market min_count)
  unfolding detect_price_gap detect_abnormal_volume detect_volatility_spike
      detect_orderbook_imbalance detect_news detect_disclosures
  detect-Explains threshold min_count = (
    λ i d h. record {
      explained = (λ f. ground arith, λ f. ground arith);
      observed = λ f. ground arith;
    },
    λ i d h. record {
      explained = (λ f. ground arith, λ f. ground arith);
      observed = λ f. ground arith;
    },
    λ i d h. record {
      explained = (λ f. ground arith, λ f. ground arith);
      observed = λ f. ground arith;
    },
    λ i d h. record {
      explained = (λ f. ground arith, λ f. ground arith);
      observed = λ f. ground arith;
    },
    λ i d h. record {
      explained = (λ f. ground arith, λ f. ground arith);
      observed = λ f. ground arith;
    },
    λ i d h. record {
      explained = (λ f. ground arith, λ f. ground arith);
      observed = λ f. ground arith;
    },
  )
