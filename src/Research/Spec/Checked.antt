-- ===== src/Research/Spec/Checked.antt =====
-- What holds of a specification that was made or loaded.
use toss_api.Prelude.{
  String, ◌≡◌, refl, ◌≢◌, ◌≤◌, true, Option, none, some, List, [], ◌∷◌, arith, eq_iff,
}
use toss_api.Action.{ok}
use toss_api.Numeric.{Numeric}
use toss_api.Research.Spec.{
  StrategyStatus, requires_pine_validation, PineValidationAssumptions, StrategySpec, non_empty,
  checks_pine, not_blank, checks_status, checks_assumptions, checks_texts, checks_lists,
  validate_spec,
}

non_empty-ne : {A : Type 0} (xs : List A) → non_empty xs ≡ true → xs ≢ []
unfolding non_empty
non_empty-ne [] h = λ e. cc
non_empty-ne (x ∷ xs) h = λ e. cc

module _ {N : Type 0} (num : Numeric N) where
  -- Assumptions that somebody can reproduce.
  pub record IsReproducible (p : PineValidationAssumptions N) : Type 0 where
    pub symbols : p.symbols ≢ []
    pub fees : num.leb (num.of_ℕ 0) p.fees_pct ≡ true
    pub slippage : num.leb (num.of_ℕ 0) p.slippage_pct ≡ true
    pub period : p.test_period_start ≤ p.test_period_end

  checks_pine-IsReproducible :
      (p : PineValidationAssumptions N) → checks_pine num p ≡ true → IsReproducible p
  unfolding checks_pine non_empty
  checks_pine-IsReproducible p h = record {
    symbols = non_empty-ne p.symbols (ground (arith, h));
    fees = ground (arith, h);
    slippage = ground (arith, h);
    period = ground (arith, h);
  }

module _ {N : Type 0} (num : Numeric N) (strip : String → String) where
  pub record IsChecked (s : StrategySpec N) : Type 0 where
    pub strategy_id : strip s.strategy_id ≢ ""
    pub name : strip s.name ≢ ""
    pub version : strip s.version ≢ ""
    pub hypothesis : strip s.hypothesis ≢ ""
    pub timeframe : strip s.timeframe ≢ ""
    pub universe : s.universe ≢ []
    pub entry_rules : s.entry_rules ≢ []
    pub exit_rules : s.exit_rules ≢ []
    pub risk_assumptions : s.risk_assumptions ≢ []
    pub assumptions :
        (p : PineValidationAssumptions N) → s.pine_validation ≡ some p → IsReproducible num p
    pub validated :
        requires_pine_validation s.status ≡ true
        → (p : PineValidationAssumptions N) × (s.pine_validation ≡ some p)

  not_blank-ne : (value : String) → not_blank strip value ≡ true → strip value ≢ ""
  unfolding not_blank
  not_blank-ne value h = λ e. ground (arith, h, eq_iff (strip value) "", e)

  texts-checked :
      (s : StrategySpec N)
      → checks_texts strip s ≡ true
      → (not_blank strip s.strategy_id ≡ true)
        × (not_blank strip s.name ≡ true)
        × (not_blank strip s.version ≡ true)
        × (not_blank strip s.hypothesis ≡ true)
        × (not_blank strip s.timeframe ≡ true)
  unfolding checks_texts
  texts-checked s h = ground (arith, h)

  lists-checked :
      (s : StrategySpec N)
      → checks_lists s ≡ true
      → (non_empty s.universe ≡ true)
        × (non_empty s.entry_rules ≡ true)
        × (non_empty s.exit_rules ≡ true)
        × (non_empty s.risk_assumptions ≡ true)
  unfolding checks_lists
  lists-checked s h = ground (arith, h)

  assumptions-checked :
      (o : Option (PineValidationAssumptions N)) (p : PineValidationAssumptions N)
      → checks_assumptions num o ≡ true
      → o ≡ some p
      → IsReproducible num p
  unfolding checks_assumptions
  assumptions-checked o p h e = checks_pine-IsReproducible num p (rw (e, checks_assumptions) at h)

  status-checked :
      (status : StrategyStatus) (o : Option (PineValidationAssumptions N))
      → checks_status status o ≡ true
      → requires_pine_validation status ≡ true
      → (p : PineValidationAssumptions N) × (o ≡ some p)
  unfolding checks_status
  status-checked status none h r = absurd (ground (arith, h, r))
  status-checked status (some p) h r = (p, refl)

  -- The validators let through only what they are meant to.
  pub validate_spec-IsChecked :
      {F : Type 0} (s s' : StrategySpec N)
      → validate_spec strip {F = F} num s ≡ ok s'
      → (s' ≡ s) × IsChecked s
  unfolding validate_spec
  validate_spec-IsChecked s s' h =
      let texts : checks_texts strip s ≡ true = ground (arith, h) in
      let lists : checks_lists s ≡ true = ground (arith, h) in
      let assumed : checks_assumptions num s.pine_validation ≡ true = ground (arith, h) in
      let status : checks_status s.status s.pine_validation ≡ true = ground (arith, h) in
      let (id, name, version, hypothesis, timeframe) = texts-checked s texts in
      let (universe, entry, exit, risk) = lists-checked s lists in
      (
        ground (arith, h),
        record {
          strategy_id = not_blank-ne s.strategy_id id;
          name = not_blank-ne s.name name;
          version = not_blank-ne s.version version;
          hypothesis = not_blank-ne s.hypothesis hypothesis;
          timeframe = not_blank-ne s.timeframe timeframe;
          universe = non_empty-ne s.universe universe;
          entry_rules = non_empty-ne s.entry_rules entry;
          exit_rules = non_empty-ne s.exit_rules exit;
          risk_assumptions = non_empty-ne s.risk_assumptions risk;
          assumptions = λ p e. assumptions-checked s.pine_validation p assumed e;
          validated = status-checked s.status s.pine_validation status;
        },
      )
