-- ===== src/Regime.antt =====
-- app/regime/classifier.py: trend, volatility and breadth of a window of bars.
pub mod Assessment
pub mod Provider
use toss_api.Prelude.{
  ℕ, suc, ◌+◌, ◌-◌, Bool, true, false, Option, none, some, List, [], ◌∷◌, length, drop, last?, ltb,
  ◌==◌, if◌then◌else◌,
}
use toss_api.Numeric.{Numeric}
use toss_api.Db.Repositories.{MarketBarRow}

pub data TrendState : Type 0 where
  uptrend downtrend sideways unknown : TrendState

pub data VolatilityLevel : Type 0 where
  low normal high unknown : VolatilityLevel

pub data BreadthState : Type 0 where
  expanding contracting neutral unknown : BreadthState

module _ (D : Type 0) where
  pub record RegimeInput : Type 0 where
    pub bars : List (MarketBarRow D)
    pub advancing_count : Option ℕ
    pub declining_count : Option ℕ

  -- The formatted reasons, by what they hold.
  pub data Reason : Type 0 where
    too_few_bars too_few_returns : ℕ → ℕ → Reason
    start_is_zero counts_not_provided counts_are_zero : Reason
    trend_at_least trend_at_most volatility_at_least volatility_at_most : D → D → Reason
    breadth_at_least breadth_at_most : D → D → Reason
    trend_within volatility_within breadth_within : D → D → D → Reason

  pub record RegimeAssessment : Type 0 where
    pub as_of : ℕ
    pub trend : TrendState
    pub volatility_level : VolatilityLevel
    pub breadth : BreadthState
    pub observed_return : Option D
    pub observed_volatility : Option D
    pub observed_breadth_ratio : Option D
    pub reasons : List Reason

  pub record RegimeClassifier : Type 0 where
    pub trend_lookback_bars : ℕ
    pub trend_up_threshold : D
    pub trend_down_threshold : D
    pub volatility_lookback_bars : ℕ
    pub high_volatility_threshold : D
    pub low_volatility_threshold : D
    pub breadth_expanding_threshold : D
    pub breadth_contracting_threshold : D

-- `xs[-n:]`, for n from 1 on
abbrev pub last_n : {A : Type 0} → ℕ → List A → List A
last_n n xs = drop (length xs - n) xs

module _ {D : Type 0} (num : Numeric D) where
  abbrev pub relative_change : D → D → D
  relative_change start end = num.div (num.sub end start) start

  abbrev pub is_zero : D → Bool
  is_zero x = num.eqb x (num.of_ℕ 0)

  -- `_daily_returns`
  unfoldable pub daily_returns : List (MarketBarRow D) → List D
  daily_returns [] = []
  daily_returns (previous ∷ []) = []
  daily_returns (previous ∷ current ∷ bars) =
      let rest = daily_returns (current ∷ bars) in
      if is_zero previous.values.close_price
      then rest
      else relative_change previous.values.close_price current.values.close_price ∷ rest

  -- What `_classify_trend` does with the two ends of its window.
  unfoldable pub trend_between : RegimeClassifier D → D → D → TrendState × Option D × Reason D
  trend_between c start end =
      let change = relative_change start end in
      if is_zero start
      then (unknown, none, start_is_zero)
      else if num.leb c.trend_up_threshold change
      then (uptrend, some change, trend_at_least change c.trend_up_threshold)
      else if num.leb change c.trend_down_threshold
      then (downtrend, some change, trend_at_most change c.trend_down_threshold)
      else (sideways, some change, trend_within change c.trend_down_threshold c.trend_up_threshold)

  abbrev pub close_ends : List (MarketBarRow D) → Option (D × D)
  close_ends [] = none
  close_ends (first ∷ bars) = elim (last? (first ∷ bars)) [
    | none ↦ none
    | some last ↦ some (first.values.close_price, last.values.close_price)
  ]

  -- `_classify_trend`; a window that is long enough has two ends.
  unfoldable pub classify_trend :
      RegimeClassifier D → List (MarketBarRow D) → TrendState × Option D × Reason D
  unfolding trend_between
  classify_trend c bars =
      let needed = c.trend_lookback_bars + 1 in
      let few : TrendState × Option D × Reason D =
        (unknown, none, too_few_bars (length bars) needed) in
      if ltb (length bars) needed then few else elim (close_ends (last_n needed bars)) [
        | none ↦ few
        | some (start, end) ↦ trend_between c start end
      ]

  -- `_classify_volatility`; `statistics.pstdev` of the floats, back as a decimal, is a parameter.
  unfoldable pub classify_volatility :
      (List D → D)
      → RegimeClassifier D
      → List (MarketBarRow D)
      → VolatilityLevel × Option D × Reason D
  unfolding daily_returns
  classify_volatility pstdev c bars =
      let returns = daily_returns (last_n (c.volatility_lookback_bars + 1) bars) in
      let observed = pstdev returns in
      if ltb (length returns) 2
      then (unknown, none, too_few_returns (length returns) 2)
      else if num.leb c.high_volatility_threshold observed
      then (high, some observed, volatility_at_least observed c.high_volatility_threshold)
      else if num.leb observed c.low_volatility_threshold
      then (low, some observed, volatility_at_most observed c.low_volatility_threshold)
      else (
        normal,
        some observed,
        volatility_within observed c.low_volatility_threshold c.high_volatility_threshold,
      )

  -- `_classify_breadth`
  unfoldable pub classify_breadth :
      RegimeClassifier D → Option ℕ → Option ℕ → BreadthState × Option D × Reason D
  classify_breadth c none declining = (unknown, none, counts_not_provided)
  classify_breadth c (some advancing) none = (unknown, none, counts_not_provided)
  classify_breadth c (some advancing) (some declining) =
      let total = advancing + declining in
      let ratio = num.div (num.of_ℕ advancing) (num.of_ℕ total) in
      if total == 0
      then (unknown, none, counts_are_zero)
      else if num.leb c.breadth_expanding_threshold ratio
      then (expanding, some ratio, breadth_at_least ratio c.breadth_expanding_threshold)
      else if num.leb ratio c.breadth_contracting_threshold
      then (contracting, some ratio, breadth_at_most ratio c.breadth_contracting_threshold)
      else (
        neutral,
        some ratio,
        breadth_within ratio c.breadth_contracting_threshold c.breadth_expanding_threshold,
      )

  -- `RegimeClassifier.classify`
  unfoldable pub classify :
      (List D → D) → RegimeClassifier D → RegimeInput D → ℕ → RegimeAssessment D
  unfolding classify_trend classify_volatility classify_breadth
  classify pstdev c data_in as_of =
      let (trend, observed_return, why_trend) = classify_trend c data_in.bars in
      let (level, observed_volatility, why_level) = classify_volatility pstdev c data_in.bars in
      let (breadth, observed_ratio, why_breadth) =
        classify_breadth c data_in.advancing_count data_in.declining_count in
      record {
        as_of = as_of;
        trend = trend;
        volatility_level = level;
        breadth = breadth;
        observed_return = observed_return;
        observed_volatility = observed_volatility;
        observed_breadth_ratio = observed_ratio;
        reasons = why_trend ∷ why_level ∷ why_breadth ∷ [];
      }
