-- ===== src/Tests/Research.antt =====
-- app/research and app/ingest/strategy_sync.py, on two versions of a strategy.
use toss_api.Prelude.{
  ℕ, String, ◌≡◌, ◌≤◌, refl, false, ◌&&◌, none, some, [], ◌∷◌, str_eq, eq_iff, arith, if◌then◌else◌,
}
use mathlib.Core.Path.{subst}
use toss_api.Prelude.Int.{ℤ, pos}
use toss_api.Numeric.{integers}
use toss_api.Exceptions.{plain, validation_error}
use toss_api.Action.{ok, err, traverse}
use toss_api.Db.Sql.{Engine}
use toss_api.Db.Sql.Lists.{lists, lists-IsPostgres}
use toss_api.Db.Repositories.Keys.{EventKey, event_key_eq}
use toss_api.Db.Repositories.Strategies.{StrategyRegistryRow}
use toss_api.Research.Spec.{
  approved, manual, PineValidationAssumptions, StrategySpec, validate_spec,
}
use toss_api.Research.Spec.Checked.{IsChecked}
use toss_api.Research.Files.{Files, find, names, directory, put, mkdir, read_text, write_text}
use toss_api.Research.Registry.{SpecTexts, save, load, load_latest}
use toss_api.Research.Registry.Versions.{load-save, load-IsChecked}
use toss_api.Research.Registry.Newest.{load_latest-newest}
use toss_api.Ingest.StrategySync.{sync_all}
use toss_api.Ingest.StrategySync.Mirror.{Loads, Mirrored, sync_all-mirrors}

abbrev pine : PineValidationAssumptions ℤ
pine = record {
  test_period_start = 1;
  test_period_end = 2;
  symbols = "005930" ∷ [];
  timeframe = "1d";
  fees_pct = pos 0;
  slippage_pct = pos 1;
  notes = none;
}

abbrev spec : String → ℕ → StrategySpec ℤ
spec version created_at = record {
  strategy_id = "gap";
  name = "Gap";
  version = version;
  source = manual;
  hypothesis = "gaps close";
  universe = "KR" ∷ [];
  timeframe = "1d";
  entry_rules = "open" ∷ [];
  exit_rules = "close" ∷ [];
  risk_assumptions = "none" ∷ [];
  created_at = created_at;
  status = approved;
  pine_validation = some pine;
}

-- A text is a version, and nothing else is a specification.
abbrev texts : SpecTexts ℤ ℤ
texts = record {
  dump = λ s. s.version;
  decode = λ text.
      if str_eq text "1"
      then ok (spec "1" 10)
      else (if str_eq text "2" then ok (spec "2" 20) else err (plain validation_error));
  strip = λ s. s;
  sorted = λ xs. xs;
}

abbrev one_version : Files
one_version = ("gap", ("1", "1") ∷ []) ∷ []

abbrev two_versions : Files
two_versions = ("gap", ("1", "1") ∷ ("2", "2") ∷ []) ∷ []

load-save_example :
    let files' = (save integers texts (spec "2" 20) false one_version).1 in
    (load integers texts files' "gap" "2" ≡ ok (spec "2" 20))
    × ((j v : String)
        → (str_eq "gap" j && str_eq "2" v) ≡ false
        → load integers texts files' j v ≡ load integers texts one_version j v)
unfolding validate_spec save read_text mkdir directory put find write_text
load-save_example =
    load-save integers texts (spec "2" 20) false one_version ("gap", "2") refl refl refl

load-IsChecked_example : IsChecked integers (λ s. s) (spec "1" 10)
unfolding load read_text validate_spec
load-IsChecked_example = load-IsChecked integers texts one_version "gap" "1" (spec "1" 10) refl

load_latest-newest_example :
    ((v : String) × (load integers texts two_versions "gap" v ≡ ok (spec "2" 20)))
    × ((v text : String)
        → read_text "gap" v two_versions ≡ some text
        → (w : StrategySpec ℤ) × (load integers texts two_versions "gap" v ≡ ok w)
          × (w.created_at ≤ 20))
unfolding load_latest traverse find names read_text validate_spec
load_latest-newest_example =
    load_latest-newest integers texts (λ x xs. (λ h. h, λ h. h)) two_versions "gap" (spec "2" 20)
      refl

abbrev mirror_engine : Engine (StrategyRegistryRow String) EventKey
mirror_engine = lists event_key_eq

the_version : load integers texts one_version "gap" "1" ≡ ok (spec "1" 10)
unfolding load read_text validate_spec
the_version = refl

one_version-Loads :
    (id v text : String)
    → read_text id v one_version ≡ some text
    → Loads integers texts one_version id v
unfolding read_text directory find
one_version-Loads id v text h =
    let gap : "gap" ≡ id = ground (arith, h, eq_iff "gap" id) in
    let one : "1" ≡ v = ground (arith, h, eq_iff "gap" id, eq_iff "1" v) in
    subst (λ i. Loads integers texts one_version i v) gap
      (subst (Loads integers texts one_version "gap") one (spec "1" 10, the_version, refl, refl))

sync_all-mirrors_example :
    let (out, t') = sync_all integers texts mirror_engine (λ s. s.version) 0 one_version [] in
    ((n : ℕ) × (out ≡ ok n))
    × ((id v text : String) (s : StrategySpec ℤ)
        → read_text id v one_version ≡ some text
        → load integers texts one_version id v ≡ ok s
        → Mirrored (λ u. u.version) s t')
sync_all-mirrors_example =
    sync_all-mirrors integers texts mirror_engine (lists-IsPostgres event_key_eq) (λ s. s.version) 0
      one_version (λ x xs. (λ h. h, λ h. h)) one_version-Loads []
