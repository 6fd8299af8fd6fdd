-- ===== src/Ingest/StrategySync.antt =====
-- app/ingest/strategy_sync.py: the files of the strategy registry into its mirror. `model_json` is
-- `json.loads(spec.model_dump_json())`, and every INSERT is at the database's time `now`.
pub mod Mirror
use toss_api.Prelude.{ℕ, String, ◌+◌, List, [], ◌∷◌}
use toss_api.Action.{Result, ok, err, Action, pure, ◌>>=◌, ◌>>◌, from_result, modify}
use toss_api.Numeric.{Numeric}
use toss_api.Db.Sql.{Engine}
use toss_api.Db.Repositories.Strategies.{StrategyRegistryRow, sync_from_spec}
use toss_api.Research.Spec.{StrategySpec, status_value, source_value}
use toss_api.Research.Files.{Files}
use toss_api.Research.Registry.{SpecTexts, load, list_versions, list_strategy_ids}

unfoldable pub row_of :
    {J N : Type 0} → (StrategySpec N → J) → ℕ → StrategySpec N → StrategyRegistryRow J
row_of model_json now spec = record {
  strategy_id = spec.strategy_id;
  version = spec.version;
  name = spec.name;
  status = status_value spec.status;
  source = source_value spec.source;
  spec_created_at = spec.created_at;
  synced_at = now;
  spec_json = model_json spec;
}

module _ {F N J K : Type 0} (num : Numeric N) (texts : SpecTexts F N)
    (eng : Engine (StrategyRegistryRow J) K) (model_json : StrategySpec N → J) (now : ℕ)
    (files : Files) where
  -- `StrategyRegistrySync.sync_one`
  unfoldable pub sync_one : String → String → Action F (List (StrategyRegistryRow J)) (Unit {0})
  sync_one strategy_id version = do
    spec ← from_result (load num texts files strategy_id version)
    modify (sync_from_spec eng (row_of model_json now spec))

  -- The inner loop, with the count so far.
  unfoldable pub sync_versions :
      String → List String → ℕ → Action F (List (StrategyRegistryRow J)) ℕ
  sync_versions strategy_id [] count = pure count
  sync_versions strategy_id (version ∷ versions) count =
      sync_one strategy_id version >> sync_versions strategy_id versions (count + 1)

  unfoldable pub sync_strategies : List String → ℕ → Action F (List (StrategyRegistryRow J)) ℕ
  sync_strategies [] count = pure count
  sync_strategies (strategy_id ∷ ids) count =
      sync_versions strategy_id (list_versions num texts files strategy_id) count
      >>= sync_strategies ids

  -- `StrategyRegistrySync.sync_all`
  unfoldable pub sync_all : Action F (List (StrategyRegistryRow J)) ℕ
  unfolding sync_strategies sync_versions sync_one
  sync_all = sync_strategies (list_strategy_ids num texts files) 0
