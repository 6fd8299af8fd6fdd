-- ===== src/Lib.antt =====
-- TossAPI: a research platform over the Toss Open API that reads market data, keeps it so that no
-- read of the past sees what was known only later, and scans it for candidates. It places no orders.
--
-- The parts, in the order in which a piece of data goes through them:
-- - Exceptions: app/core/exceptions.py, the classes with their bases (`base_class`), and what an
--   `except` clause catches (`catches`, five steps along the bases, which reach the root).
-- - Http: app/adapters/http_client.py. `Http.request` is `BaseApiClient.request` and runs `attempts`,
--   the loop with its rounds left; max_retries + 1 rounds are what `range` gives.
-- - Toss: app/toss. `Toss.Status` is error_mapping.py, `Toss.StatusRetry` is _retry.py on top of
--   `Http.request`, `Toss.Throttle` is rate_limit.py, `Toss.Token` and `Toss.Auth` are token_parser.py
--   and auth.py with the token cache, and `Toss.Client` is client.py (`get_envelope` is
--   `TossRestClient.get`) with health.py. `Toss.Dto` has the shapes of dto.py and models.py, and
--   `Toss.Gateways` the calls of market_data.py and portfolio.py.
-- - Db: app/db. `Db.Revisions` is `append_revision_rows` and `select_latest_revision_as_of`,
--   `Db.Upsert` is `upsert_event_rows`, `Db.Inserts` is `get_or_insert` with what other sessions commit
--   between its statements, and `Db.Repositories` has the tables with their keys, values and reads.
-- - Scanners: app/scanners. Universe filters, event plugins, strategy rules, and the pipeline that
--   sends each instrument through them; `MarketReads` is what it asks of the repositories, and
--   `session_reads` gives it from the tables. `Scanners.Persistence` is persistence.py.
-- - Research: app/research. `Research.Spec` is models.py with its validators, and `Research.Registry` is
--   registry.py on `Research.Files`, a directory of texts.
-- - AiContext: app/ai_context. The schema, the extractors, and the rows that results are kept in.
-- - Regime: app/regime/classifier.py, and `Regime.Provider`, provider.py.
-- - Models: app/models, the features, the labels and the data set built of both, `Models.Training`,
--   the split in time, and `Models.Quant`, model.py around an estimator that scikit-learn fits.
-- - Signals: app/signals, the evidence on an instrument, of the bars and the model.
-- - Ingest: app/ingest. `Ingest.Scheduler` is scheduler.py, and `Ingest.StrategySync` is
--   strategy_sync.py, from the registry into its mirror table. `Ingest.Collectors` is news.py and
--   disclosure.py, and `Ingest.MarketBars` market_data_ingestor.py, on the adapter and the tables.
--
-- What they share: Prelude (tests, lists, sorting, integers), Action (a call that changes a state
-- and may raise: what was changed before a raise stays changed), Numeric (the operations of float
-- and Decimal on a type that is left open), Time (datetime as microseconds, with its range), Runtime
-- (requests, responses, and the environment: the server and the clocks are functions of the history
-- of all that was sent, slept and read), World (the history with the throttles and the cached token)
-- and Growth (what an action adds to the history). Tests has the theorems at concrete inputs.
--
-- PostgreSQL is not modelled: `Db.Sql.Engine` has the statements that the repositories use, and
-- `IsPostgres` what its documentation says of them, up to the order of the rows; `Db.Sql.Lists` meets
-- it with plain lists. `statistics.pstdev`, pydantic's parsers and the equality of JSON values are
-- parameters too; so are the JSON text of a specification, the call of the language model, and what
-- scikit-learn fits. Messages of exceptions and logs are left out, and reasons are kept by what they
-- hold.
--
-- Not modelled: the evaluation and the artifacts of models, the data quality metrics, the settings with
-- the factory that reads them, and the schema declarations.
pub mod Prelude
pub mod Exceptions
pub mod Numeric
pub mod Runtime
pub mod Time
pub mod World
pub mod Growth
pub mod Toss
pub mod Db
pub mod Action
pub mod Http
pub mod Scanners
pub mod Ingest
pub mod Regime
pub mod Research
pub mod AiContext
pub mod Signals
pub mod Tests
pub mod Models
