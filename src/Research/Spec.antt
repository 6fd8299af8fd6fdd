-- ===== src/Research/Spec.antt =====
-- app/research/models.py: the specification of a strategy and what pydantic checks when one is made.
-- A percentage is of a number type, `strip` is `str.strip`.
pub mod Checked
use toss_api.Prelude.{
  ℕ, String, ◌≡◌, ◌≤◌, Bool, true, false, ◌&&◌, ◌||◌, not, Option, none, some, List, [], ◌∷◌, all,
  leb, ltb, str_eq, if◌then◌else◌, is_some, arith,
}
use toss_api.Exceptions.{plain, validation_error}
use toss_api.Action.{Result, ok, err}
use toss_api.Numeric.{Numeric}

pub data StrategyStatus : Type 0 where
  research pine_validated python_validated paper approved retired : StrategyStatus

pub data StrategySource : Type 0 where
  tradingview_pine python_backtest external manual : StrategySource

unfoldable pub status_value : StrategyStatus → String
status_value research = "research"
status_value pine_validated = "pine_validated"
status_value python_validated = "python_validated"
status_value paper = "paper"
status_value approved = "approved"
status_value retired = "retired"

unfoldable pub source_value : StrategySource → String
source_value tradingview_pine = "tradingview_pine"
source_value python_backtest = "python_backtest"
source_value external = "external"
source_value manual = "manual"

-- `_STATUSES_REQUIRING_PINE_VALIDATION`
unfoldable pub requires_pine_validation : StrategyStatus → Bool
requires_pine_validation research = false
requires_pine_validation pine_validated = true
requires_pine_validation python_validated = true
requires_pine_validation paper = true
requires_pine_validation approved = true
requires_pine_validation retired = false

-- Dates are days.
pub record PineValidationAssumptions (N : Type 0) : Type 0 where
  pub test_period_start : ℕ
  pub test_period_end : ℕ
  pub symbols : List String
  pub timeframe : String
  pub fees_pct : N
  pub slippage_pct : N
  pub notes : Option String

pub record StrategySpec (N : Type 0) : Type 0 where
  pub strategy_id : String
  pub name : String
  pub version : String
  pub source : StrategySource
  pub hypothesis : String
  pub universe : List String
  pub timeframe : String
  pub entry_rules : List String
  pub exit_rules : List String
  pub risk_assumptions : List String
  pub created_at : ℕ
  pub status : StrategyStatus
  pub pine_validation : Option (PineValidationAssumptions N)

unfoldable pub non_empty : {A : Type 0} → List A → Bool
non_empty [] = false
non_empty (x ∷ xs) = true

module _ {N : Type 0} (num : Numeric N) where
  -- `_non_empty_symbols`, the two `Field(ge=0)`, and `_period_is_ordered`
  unfoldable pub checks_pine : PineValidationAssumptions N → Bool
  unfolding non_empty
  checks_pine p =
      non_empty p.symbols
      && num.leb (num.of_ℕ 0) p.fees_pct
      && num.leb (num.of_ℕ 0) p.slippage_pct
      && not (ltb p.test_period_end p.test_period_start)

  unfoldable pub checks_assumptions : Option (PineValidationAssumptions N) → Bool
  unfolding checks_pine
  checks_assumptions none = true
  checks_assumptions (some p) = checks_pine p

-- `_validated_statuses_need_pine_assumptions`
unfoldable pub checks_status : {A : Type 0} → StrategyStatus → Option A → Bool
unfolding requires_pine_validation
checks_status status pine_validation =
    not (requires_pine_validation status && not (is_some pine_validation))

-- `_non_empty_list`
unfoldable pub checks_lists : {N : Type 0} → StrategySpec N → Bool
unfolding non_empty
checks_lists s =
    non_empty s.universe
    && non_empty s.entry_rules
    && non_empty s.exit_rules
    && non_empty s.risk_assumptions

module _ (strip : String → String) where
  -- `_not_blank`
  unfoldable pub not_blank : String → Bool
  not_blank value = not (str_eq (strip value) "")

  unfoldable pub checks_texts : {N : Type 0} → StrategySpec N → Bool
  unfolding not_blank
  checks_texts s =
      not_blank s.strategy_id
      && not_blank s.name
      && not_blank s.version
      && not_blank s.hypothesis
      && not_blank s.timeframe

  -- All the validators of `StrategySpec`; any that fails makes pydantic raise.
  unfoldable pub validate_spec :
      {F N : Type 0} → Numeric N → StrategySpec N → Result F (StrategySpec N)
  unfolding checks_texts checks_lists checks_assumptions checks_status
  validate_spec num s =
      if checks_texts s
        && checks_lists s
        && checks_assumptions num s.pine_validation
        && checks_status s.status s.pine_validation
      then ok s
      else err (plain validation_error)
