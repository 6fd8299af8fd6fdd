-- ===== src/Regime/Assessment.antt =====
-- What an assessment says of what it observed.
use toss_api.Prelude.{
  ℕ, ◌≡◌, refl, true, false, Option, none, some, List, Option-cases, Bool-cases, inl, inr, length,
  ltb, ◌+◌, ◌==◌,
}
use toss_api.Numeric.{Numeric}
use toss_api.Db.Repositories.{MarketBarRow}
use toss_api.Regime.{
  TrendState, VolatilityLevel, BreadthState, RegimeInput, RegimeClassifier, last_n, relative_change,
  daily_returns, is_zero, trend_between, close_ends, classify_trend, classify_volatility,
  classify_breadth, classify,
}

-- Where a state puts the observed value.
pub data Place : Type 0 where
  above below within unseen : Place

abbrev pub place_of_trend : TrendState → Place
place_of_trend TrendState.uptrend = above
place_of_trend TrendState.downtrend = below
place_of_trend TrendState.sideways = within
place_of_trend TrendState.unknown = unseen

abbrev pub place_of_level : VolatilityLevel → Place
place_of_level VolatilityLevel.high = above
place_of_level VolatilityLevel.low = below
place_of_level VolatilityLevel.normal = within
place_of_level VolatilityLevel.unknown = unseen

abbrev pub place_of_breadth : BreadthState → Place
place_of_breadth BreadthState.expanding = above
place_of_breadth BreadthState.contracting = below
place_of_breadth BreadthState.neutral = within
place_of_breadth BreadthState.unknown = unseen

module _ {D : Type 0} (num : Numeric D) where
  -- The place among the two thresholds, the upper one tested first.
  pub IsPlaced : D → D → Place → Option D → Type 0
  IsPlaced upper lower above o = (r : D) × (o ≡ some r) × (num.leb upper r ≡ true)
  IsPlaced upper lower below o =
      (r : D) × (o ≡ some r) × (num.leb upper r ≡ false) × (num.leb r lower ≡ true)
  IsPlaced upper lower within o =
      (r : D) × (o ≡ some r) × (num.leb upper r ≡ false) × (num.leb r lower ≡ false)
  IsPlaced upper lower unseen o = o ≡ none

  place_above : (upper lower r : D) → num.leb upper r ≡ true → IsPlaced upper lower above (some r)
  unfolding IsPlaced
  place_above upper lower r h = (r, refl, h)

  place_below :
      (upper lower r : D)
      → num.leb upper r ≡ false
      → num.leb r lower ≡ true
      → IsPlaced upper lower below (some r)
  unfolding IsPlaced
  place_below upper lower r h k = (r, refl, h, k)

  place_within :
      (upper lower r : D)
      → num.leb upper r ≡ false
      → num.leb r lower ≡ false
      → IsPlaced upper lower within (some r)
  unfolding IsPlaced
  place_within upper lower r h k = (r, refl, h, k)

  place_unseen : (upper lower : D) → IsPlaced upper lower unseen none
  unfolding IsPlaced
  place_unseen upper lower = refl

  module _ (c : RegimeClassifier D) where
    trend_between-IsPlaced :
        (start end : D)
        → IsPlaced c.trend_up_threshold c.trend_down_threshold
            (place_of_trend (trend_between num c start end).0)
            (trend_between num c start end).1
    unfolding trend_between
    trend_between-IsPlaced start end =
        let change = relative_change num start end in
        let up = c.trend_up_threshold in
        let down = c.trend_down_threshold in
        elim (Bool-cases (is_zero num start)) [
          | inl z ↦ rw z (place_unseen up down)
          | inr n ↦ elim (Bool-cases (num.leb up change)) [
            | inl u ↦ rw (n, u) (place_above up down change u)
            | inr v ↦ elim (Bool-cases (num.leb change down)) [
              | inl d ↦ rw (n, v, d) (place_below up down change v d)
              | inr s ↦ rw (n, v, s) (place_within up down change v s)
            ]
          ]
        ]

    classify_trend-IsPlaced :
        (bars : List (MarketBarRow D))
        → IsPlaced c.trend_up_threshold c.trend_down_threshold
            (place_of_trend (classify_trend num c bars).0)
            (classify_trend num c bars).1
    unfolding classify_trend
    classify_trend-IsPlaced bars =
        let needed = c.trend_lookback_bars + 1 in
        let unseen = place_unseen c.trend_up_threshold c.trend_down_threshold in
        elim (Bool-cases (ltb (length bars) needed)) [
          | inl few ↦ rw few unseen
          | inr enough ↦ elim (Option-cases (close_ends num (last_n needed bars))) [
            | inl missing ↦ rw (enough, missing) unseen
            | inr ((start, end), there) ↦ rw (enough, there) (trend_between-IsPlaced start end)
          ]
        ]

    classify_volatility-IsPlaced :
        (pstdev : List D → D) (bars : List (MarketBarRow D))
        → IsPlaced c.high_volatility_threshold c.low_volatility_threshold
            (place_of_level (classify_volatility num pstdev c bars).0)
            (classify_volatility num pstdev c bars).1
    unfolding classify_volatility
    classify_volatility-IsPlaced pstdev bars =
        let returns = daily_returns num (last_n (c.volatility_lookback_bars + 1) bars) in
        let observed = pstdev returns in
        let up = c.high_volatility_threshold in
        let down = c.low_volatility_threshold in
        elim (Bool-cases (ltb (length returns) 2)) [
          | inl few ↦ rw few (place_unseen up down)
          | inr n ↦ elim (Bool-cases (num.leb up observed)) [
            | inl u ↦ rw (n, u) (place_above up down observed u)
            | inr v ↦ elim (Bool-cases (num.leb observed down)) [
              | inl d ↦ rw (n, v, d) (place_below up down observed v d)
              | inr s ↦ rw (n, v, s) (place_within up down observed v s)
            ]
          ]
        ]

    classify_breadth-IsPlaced :
        (advancing declining : Option ℕ)
        → IsPlaced c.breadth_expanding_threshold c.breadth_contracting_threshold
            (place_of_breadth (classify_breadth num c advancing declining).0)
            (classify_breadth num c advancing declining).1
    unfolding classify_breadth
    classify_breadth-IsPlaced none declining =
        place_unseen c.breadth_expanding_threshold c.breadth_contracting_threshold
    classify_breadth-IsPlaced (some a) none =
        place_unseen c.breadth_expanding_threshold c.breadth_contracting_threshold
    classify_breadth-IsPlaced (some a) (some b) =
        let ratio = num.div (num.of_ℕ a) (num.of_ℕ (a + b)) in
        let up = c.breadth_expanding_threshold in
        let down = c.breadth_contracting_threshold in
        elim (Bool-cases (a + b == 0)) [
          | inl z ↦ rw z (place_unseen up down)
          | inr n ↦ elim (Bool-cases (num.leb up ratio)) [
            | inl u ↦ rw (n, u) (place_above up down ratio u)
            | inr v ↦ elim (Bool-cases (num.leb ratio down)) [
              | inl d ↦ rw (n, v, d) (place_below up down ratio v d)
              | inr s ↦ rw (n, v, s) (place_within up down ratio v s)
            ]
          ]
        ]

    -- Each state of an assessment is the place of the observed value among its two thresholds, the
    -- upper one tested first, and is unknown only where nothing was observed; each of the three
    -- leaves one reason.
    pub classify-IsPlaced :
        (pstdev : List D → D) (data_in : RegimeInput D) (as_of : ℕ)
        → let a = classify num pstdev c data_in as_of in
          IsPlaced c.trend_up_threshold c.trend_down_threshold
            (place_of_trend a.trend)
            a.observed_return
          × IsPlaced c.high_volatility_threshold c.low_volatility_threshold
              (place_of_level a.volatility_level)
              a.observed_volatility
          × IsPlaced c.breadth_expanding_threshold c.breadth_contracting_threshold
              (place_of_breadth a.breadth)
              a.observed_breadth_ratio
          × (length a.reasons ≡ 3)
          × (a.as_of ≡ as_of)
    unfolding classify
    classify-IsPlaced pstdev data_in as_of = (
      classify_trend-IsPlaced data_in.bars,
      classify_volatility-IsPlaced pstdev data_in.bars,
      classify_breadth-IsPlaced data_in.advancing_count data_in.declining_count,
      refl,
      refl,
    )
