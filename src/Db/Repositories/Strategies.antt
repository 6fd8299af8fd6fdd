-- ===== src/Db/Repositories/Strategies.antt =====
-- app/db/repositories/strategy.py: the mirror of the strategy registry. `J` is the type of the JSON
-- in `spec_json`.
use toss_api.Prelude.{ℕ, String, Bool, ◌&&◌, Option, List, filter, str_eq}
use toss_api.Action.{Result}
use toss_api.Db.Sql.{Engine}
use toss_api.Db.Inserts.{scalar_one_or_none}

pub record StrategyRegistryRow (J : Type 0) : Type 0 where
  pub strategy_id : String
  pub version : String
  pub name : String
  pub status : String
  pub source : String
  pub spec_created_at : ℕ
  pub synced_at : ℕ
  pub spec_json : J

module _ {J : Type 0} where
  abbrev pub is_version : String → String → StrategyRegistryRow J → Bool
  is_version strategy_id version r = str_eq r.strategy_id strategy_id && str_eq r.version version

  -- The SET clause; `spec_created_at` is not among its columns.
  unfoldable pub overwrite : StrategyRegistryRow J → StrategyRegistryRow J → StrategyRegistryRow J
  overwrite old excluded = record old {
    name = excluded.name;
    status = excluded.status;
    source = excluded.source;
    spec_json = excluded.spec_json;
    synced_at = excluded.synced_at;
  }

  -- `StrategyRegistryRepository.sync_from_spec`, on the row of its arguments with the database's
  -- time in `synced_at`
  unfoldable pub sync_from_spec :
      {K : Type 0}
      → Engine (StrategyRegistryRow J) K
      → StrategyRegistryRow J
      → List (StrategyRegistryRow J)
      → List (StrategyRegistryRow J)
  unfolding overwrite
  sync_from_spec eng =
      eng.insert_on_conflict (λ new old. is_version new.strategy_id new.version old) overwrite

  -- `StrategyRegistryRepository.get`
  unfoldable pub get_strategy :
      {F : Type 0}
      → String
      → String
      → List (StrategyRegistryRow J)
      → Result F (Option (StrategyRegistryRow J))
  unfolding scalar_one_or_none
  get_strategy strategy_id version t = scalar_one_or_none (is_version strategy_id version) t

  -- `StrategyRegistryRepository.list_by_status`
  unfoldable pub list_by_status :
      String → List (StrategyRegistryRow J) → List (StrategyRegistryRow J)
  list_by_status status t = filter (λ r. str_eq r.status status) t
