-- ===== src/Scanners/Universe.antt =====
-- app/scanners/universe.py: the filters of the first stage.
use toss_api.Prelude.{
  String, Bool, true, false, ◌&&◌, not, Option, none, some, List, [], ◌∷◌, map, length, any, last?,
  ◌==◌, str_eq, if◌then◌else◌,
}
use Prim.Native.Char.{code}
use toss_api.Exceptions.{plain, type_error}
use toss_api.Action.{Result, ok, err}
use toss_api.Numeric.{Numeric}
use toss_api.Runtime.{Json, null, boolean, number, string, array, object, nil, end}
use toss_api.Db.Repositories.{MarketBarRow}
use toss_api.Db.Repositories.Market.{InstrumentRow}
use toss_api.Toss.Status.{get_field}

pub record UniverseFilterInput (D : Type 0) : Type 0 where
  pub instrument : InstrumentRow
  pub recent_bars : List (MarketBarRow D)

pub data RawFlagStatus : Type 0 where
  pass fail unknown : RawFlagStatus

-- The `Any` fields and the formatted messages, by what they hold.
module _ (D : Type 0) where
  pub data Observed : Type 0 where
    no_value : Observed
    decimal : D → Observed
    json : Json → Observed

  pub data Threshold : Type 0 where
    at_least : D → Threshold
    between : Option D → Option D → Threshold
    none_of : List Json → Threshold

  pub data Reason : Type 0 where
    no_recent_bars : Reason
    average_below : D → D → Reason
    outside : D → Option D → Option D → Reason
    no_raw_payload not_present : String → RawFlagStatus → Reason
    in_fail_values : String → Json → Reason

  pub record UniverseFilterResult : Type 0 where
    pub filter_name : String
    pub passed : Bool
    pub observed_value : Observed
    pub threshold : Threshold
    pub reason : Option Reason

  -- The protocol: a name, and an evaluation that may raise.
  pub record UniverseFilter (F : Type 0) : Type 0 where
    pub name : String
    pub evaluate : UniverseFilterInput D → Result F UniverseFilterResult

module _ {D : Type 0} (num : Numeric D) where
  -- Python's `sum`, from the left.
  abbrev pub total_from : D → List D → D
  total_from sum [] = sum
  total_from sum (x ∷ xs) = total_from (num.add sum x) xs

  abbrev pub total : List D → D
  total = total_from (num.of_ℕ 0)

  abbrev pub turnover : MarketBarRow D → D
  turnover bar = num.mul bar.values.close_price bar.values.volume

  -- `LiquidityFilter.evaluate`
  unfoldable pub evaluate_liquidity :
      {F : Type 0} → String → D → UniverseFilterInput D → Result F (UniverseFilterResult D)
  evaluate_liquidity name min_turnover_value data_in =
      let bars = data_in.recent_bars in
      let average = num.div (total (map turnover bars)) (num.of_ℕ (length bars)) in
      let passed = num.leb min_turnover_value average in
      ok (elim bars [
        | [] ↦ record {
          filter_name = name;
          passed = false;
          observed_value = no_value;
          threshold = at_least min_turnover_value;
          reason = some no_recent_bars;
        }
        | _ ∷ _ ↦ record {
          filter_name = name;
          passed = passed;
          observed_value = decimal average;
          threshold = at_least min_turnover_value;
          reason = if passed then none else some (average_below average min_turnover_value);
        }
      ])

  abbrev pub within : Option D → Option D → D → Bool
  within min_price max_price latest =
      not (elim min_price [ none ↦ false | some m ↦ num.ltb latest m ])
      && not (elim max_price [ none ↦ false | some m ↦ num.ltb m latest ])

  -- `PriceRangeFilter.evaluate`
  unfoldable pub evaluate_price_range :
      {F : Type 0}
      → String
      → Option D
      → Option D
      → UniverseFilterInput D
      → Result F (UniverseFilterResult D)
  evaluate_price_range name min_price max_price data_in = ok (elim (last? data_in.recent_bars) [
    | none ↦ record {
      filter_name = name;
      passed = false;
      observed_value = no_value;
      threshold = between min_price max_price;
      reason = some no_recent_bars;
    }
    | some bar ↦
        let latest = bar.values.close_price in
        let passed = within min_price max_price latest in
        record {
          filter_name = name;
          passed = passed;
          observed_value = decimal latest;
          threshold = between min_price max_price;
          reason = if passed then none else some (outside latest min_price max_price);
        }
  ])

-- `field_path.split(".")`
abbrev pub onto_first : Prim.Native.Char.Char → List String → List String
onto_first c [] = []
onto_first c (w ∷ ws) = String.◌∷◌ c w ∷ ws

unfoldable pub split_dots : String → List String
split_dots String.[] = "" ∷ []
split_dots (String.◌∷◌ c s) =
    let rest = split_dots s in if code c == 46 then "" ∷ rest else onto_first c rest

-- `_lookup_path`, on the parts of the path; `None` is also what a null field gives.
unfoldable pub lookup_path : Json → List String → Option Json
unfolding get_field
lookup_path null [] = none
lookup_path current [] = some current
lookup_path (object fields) (part ∷ parts) = elim (get_field part fields) [
  | none ↦ none
  | some next ↦ lookup_path next parts
]
lookup_path current (part ∷ parts) = none

-- a list and a dict have no hash
abbrev pub is_hashable : Json → Bool
is_hashable (array _) = false
is_hashable (object _) = false
is_hashable _ = true

-- What both early returns of `RawFlagFilter.evaluate` give.
abbrev pub missing_flag :
    {D : Type 0} → String → List Json → Bool → (RawFlagStatus → Reason D) → UniverseFilterResult D
missing_flag name fail_values treat_unknown_as_pass why = record {
  filter_name = name;
  passed = treat_unknown_as_pass;
  observed_value = no_value;
  threshold = none_of fail_values;
  reason = some (why (if treat_unknown_as_pass then pass else fail));
}

module _ {D : Type 0} (num : Numeric D) where
  -- `not payload`
  unfoldable pub is_falsy : Option Json → Bool
  is_falsy none = true
  is_falsy (some null) = true
  is_falsy (some (boolean b)) = not b
  is_falsy (some (number s)) = elim (num.of_text s) [
    | none ↦ false
    | some n ↦ num.eqb n (num.of_ℕ 0)
  ]
  is_falsy (some (string s)) = str_eq s ""
  is_falsy (some (array nil)) = true
  is_falsy (some (array _)) = false
  is_falsy (some (object end)) = true
  is_falsy (some (object _)) = false

  -- `RawFlagFilter.evaluate`, with Python's `==` of two values as a parameter. `fail_values` stand
  -- in the order of `str`. The membership test of a value without a hash raises.
  unfoldable pub evaluate_raw_flag :
      {F : Type 0}
      → (Json → Json → Bool)
      → String
      → String
      → List Json
      → Bool
      → UniverseFilterInput D
      → Result F (UniverseFilterResult D)
  unfolding is_falsy lookup_path split_dots
  evaluate_raw_flag equal name field_path fail_values treat_unknown_as_pass data_in =
      let payload = data_in.instrument.raw_payload in
      let value : Option Json = elim payload [
        | none ↦ none
        | some p ↦ lookup_path p (split_dots field_path)
      ] in
      if is_falsy payload
      then ok (missing_flag name fail_values treat_unknown_as_pass (no_raw_payload field_path))
      else elim value [
        | none ↦ ok (missing_flag name fail_values treat_unknown_as_pass (not_present field_path))
        | some v ↦
            let passed = not (any (equal v) fail_values) in
            if not (is_hashable v)
            then err (plain type_error)
            else ok (record {
              filter_name = name;
              passed = passed;
              observed_value = json v;
              threshold = none_of fail_values;
              reason = if passed then none else some (in_fail_values field_path v);
            })
      ]
