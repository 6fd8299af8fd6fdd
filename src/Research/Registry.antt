-- ===== src/Research/Registry.antt =====
-- app/research/registry.py: one file for each version of a strategy. The text of a specification is
-- pydantic's: `dump` is `model_dump_json(indent=2) + "\n"`, and `decode` is what
-- `model_validate_json` does before the validators of the model. `sorted` is Python's, on texts.
pub mod Versions
pub mod Newest
use toss_api.Prelude.{
  ℕ, String, Bool, true, false, ◌&&◌, not, Option, none, some, List, [], ◌∷◌, ltb, if◌then◌else◌,
  is_some,
}
use toss_api.Exceptions.{plain, strategy_version_exists_error, strategy_not_found_error}
use toss_api.Action.{Result, ok, err, Action, bind, traverse}
use toss_api.Numeric.{Numeric}
use toss_api.Research.Spec.{StrategySpec, validate_spec}
use toss_api.Research.Files.{Files, Directory, find, names, mkdir, read_text, write_text}

-- What the registry asks of pydantic and of `str`.
pub record SpecTexts (F N : Type 0) : Type 0 where
  pub dump : StrategySpec N → String
  pub decode : String → Result F (StrategySpec N)
  pub strip : String → String
  pub sorted : List String → List String

-- The larger `created_at`; of equal ones the first, as `max` returns it.
unfoldable pub newest : {N : Type 0} → StrategySpec N → List (StrategySpec N) → StrategySpec N
newest best [] = best
newest best (s ∷ specs) = newest (if ltb best.created_at s.created_at then s else best) specs

-- `max`, behind the check that there are versions
max_created : {F N : Type 0} → List (StrategySpec N) → Result F (StrategySpec N)
max_created [] = err (plain strategy_not_found_error)
max_created (s ∷ specs) = ok (newest s specs)

module _ {F N : Type 0} (num : Numeric N) (texts : SpecTexts F N) where
  -- StrategySpec.model_validate_json
  unfoldable pub model_validate_json : String → Result F (StrategySpec N)
  model_validate_json text = bind (texts.decode text) (validate_spec texts.strip num)

  -- `StrategyRegistry.save`, which returns the path
  unfoldable pub save : StrategySpec N → Bool → Action F Files (String × String)
  save spec overwrite files =
      let files' = mkdir spec.strategy_id files in
      if is_some (read_text spec.strategy_id spec.version files') && not overwrite
      then (err (plain strategy_version_exists_error), files')
      else (
        ok (spec.strategy_id, spec.version),
        write_text spec.strategy_id spec.version (texts.dump spec) files',
      )

  -- `StrategyRegistry.load`
  unfoldable pub load : Files → String → String → Result F (StrategySpec N)
  unfolding model_validate_json
  load files strategy_id version = elim (read_text strategy_id version files) [
    | none ↦ err (plain strategy_not_found_error)
    | some text ↦ model_validate_json text
  ]

  -- `StrategyRegistry.list_versions`
  unfoldable pub list_versions : Files → String → List String
  list_versions files strategy_id = elim (find strategy_id files) [
    | none ↦ []
    | some d ↦ texts.sorted (names d)
  ]

  -- `StrategyRegistry.list_strategy_ids`
  unfoldable pub list_strategy_ids : Files → List String
  list_strategy_ids files = texts.sorted (names files)

  -- `StrategyRegistry.load_latest`
  unfoldable pub load_latest : Files → String → Result F (StrategySpec N)
  unfolding max_created load list_versions newest
  load_latest files strategy_id =
      bind (traverse (load files strategy_id) (list_versions files strategy_id)) max_created
