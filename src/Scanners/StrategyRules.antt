-- ===== src/Scanners/StrategyRules.antt =====
-- app/scanners/features.py and app/scanners/strategy_rules.py: the conditions of the third stage,
-- evaluated on named values.
use toss_api.Prelude.{
  ℕ, String, ◌≡◌, ◌↔◌, refl, Bool, true, false, not, Option, none, some, List, [], ◌∷◌, map, all,
  str_eq, if◌then◌else◌, All, Option-cases, &&-eq-true, inl, inr, arith,
}
use toss_api.Numeric.{Numeric}

-- `values` is a dict: the first entry of a name is its value.
pub record FeatureSet (D : Type 0) : Type 0 where
  pub instrument_symbol : String
  pub as_of : ℕ
  pub data_source : String
  pub values : List (String × D)

module _ {D : Type 0} where
  abbrev pub lookup : String → List (String × D) → Option D
  lookup name [] = none
  lookup name ((k, v) ∷ rest) = if str_eq k name then some v else lookup name rest

  -- `FeatureSet.get`
  abbrev pub get_feature : FeatureSet D → String → Option D
  get_feature features name = lookup name features.values

pub data Comparator : Type 0 where
  gt gte lt lte eq neq : Comparator

pub record StrategyCondition (D : Type 0) : Type 0 where
  pub name : String
  pub field : String
  pub comparator : Comparator
  pub threshold : D
  pub description : String

pub record StrategyRuleSet (D : Type 0) : Type 0 where
  pub strategy_id : String
  pub strategy_version : String
  pub conditions : List (StrategyCondition D)

-- The two formatted messages, by what they hold.
pub data FailureReason (D : Type 0) : Type 0 where
  not_in_feature_set : String → FailureReason D
  fails : String → D → Comparator → D → FailureReason D

pub record StrategyConditionResult (D : Type 0) : Type 0 where
  pub condition_name : String
  pub field : String
  pub passed : Bool
  pub observed_value : Option D
  pub threshold : D
  pub reason : Option (FailureReason D)

pub record StrategyScanResult (D : Type 0) : Type 0 where
  pub strategy_id : String
  pub strategy_version : String
  pub instrument_symbol : String
  pub as_of : ℕ
  pub data_source : String
  pub condition_results : List (StrategyConditionResult D)

-- `StrategyScanResult.passed`
abbrev pub passed_all : {D : Type 0} → StrategyScanResult D → Bool
passed_all result = all (λ r. r.passed) result.condition_results

module _ {D : Type 0} (num : Numeric D) where
  -- `_COMPARATOR_FUNCS[comparator](observed, threshold)`
  unfoldable pub compare_with : Comparator → D → D → Bool
  compare_with gt observed threshold = num.ltb threshold observed
  compare_with gte observed threshold = num.leb threshold observed
  compare_with lt observed threshold = num.ltb observed threshold
  compare_with lte observed threshold = num.leb observed threshold
  compare_with eq observed threshold = num.eqb observed threshold
  compare_with neq observed threshold = not (num.eqb observed threshold)

  -- One pass of the loop in `StrategyScanner.evaluate`.
  unfoldable pub evaluate_condition : FeatureSet D → StrategyCondition D → StrategyConditionResult D
  evaluate_condition features c = elim (get_feature features c.field) [
    | none ↦ record {
      condition_name = c.name;
      field = c.field;
      passed = false;
      observed_value = none;
      threshold = c.threshold;
      reason = some (not_in_feature_set c.field);
    }
    | some observed ↦
        let passed = compare_with c.comparator observed c.threshold in
        record {
          condition_name = c.name;
          field = c.field;
          passed = passed;
          observed_value = some observed;
          threshold = c.threshold;
          reason = if passed then none else some (fails c.field observed c.comparator c.threshold);
        }
  ]

  -- `StrategyScanner.evaluate`
  unfoldable pub evaluate : StrategyRuleSet D → FeatureSet D → StrategyScanResult D
  unfolding evaluate_condition
  evaluate rule_set features = record {
    strategy_id = rule_set.strategy_id;
    strategy_version = rule_set.strategy_version;
    instrument_symbol = features.instrument_symbol;
    as_of = features.as_of;
    data_source = features.data_source;
    condition_results = map (evaluate_condition features) rule_set.conditions;
  }

  -- The feature is there and stands to the threshold as the comparator says.
  abbrev pub Holds : FeatureSet D → StrategyCondition D → Type 0
  Holds features c =
      (v : D) × (get_feature features c.field ≡ some v)
      × (compare_with c.comparator v c.threshold ≡ true)

  evaluate_condition_iff :
      (features : FeatureSet D) (c : StrategyCondition D)
      → ((evaluate_condition features c).passed ≡ true) ↔ Holds features c
  unfolding evaluate_condition
  evaluate_condition_iff features c = elim (Option-cases (get_feature features c.field)) [
    | inl missing ↦ (λ h. ground arith, λ h. ground (arith, h.1))
    | inr (v, there) ↦ (λ h. (v, there, ground arith), λ h. ground (arith, h.1, h.2))
  ]

  all-All :
      (features : FeatureSet D) (cs : List (StrategyCondition D))
      → (all (λ r. r.passed) (map (evaluate_condition features) cs) ≡ true)
        ↔ All (Holds features) cs
  all-All features [] = (λ h. tt, λ h. refl)
  all-All features (c ∷ cs) =
      let one = evaluate_condition_iff features c in
      let rest = all-All features cs in
      (
        λ h. let both = &&-eq-true _ _ h in (one.0 both.0, rest.0 both.1),
        λ h. ground (arith, one.1 h.0, rest.1 h.1),
      )

  -- A strategy result passes exactly if every condition of its rule set names a feature that is
  -- there and compares as asked: a missing feature fails, and no condition is left out.
  pub evaluate-passed_iff :
      (rule_set : StrategyRuleSet D) (features : FeatureSet D)
      → (passed_all (evaluate rule_set features) ≡ true) ↔ All (Holds features) rule_set.conditions
  unfolding evaluate
  evaluate-passed_iff rule_set features = all-All features rule_set.conditions
