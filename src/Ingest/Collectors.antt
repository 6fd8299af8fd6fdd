-- ===== src/Ingest/Collectors.antt =====
-- app/ingest/news.py, disclosure.py and results.py: what is fetched of a collector, and written as
-- known from now on. `now` is `clock()`; raw payloads are left out, as in the tables.
pub mod Stored
use toss_api.Prelude.{ℕ, String, Option, List, [], ◌∷◌, ◌++◌, map, filter, length, leb}
use toss_api.Prelude.Int.{ℤ}
use toss_api.Db.Sql.{Engine}
use toss_api.Db.Revisions.{NewRow}
use toss_api.Db.Repositories.Keys.{EventKey}
use toss_api.Db.Repositories.{
  NewsValues, NewsEventRow, DisclosureValues, DisclosureEventRow, upsert_news, upsert_disclosures,
}

pub record IngestResult : Type 0 where
  pub source : String
  pub attempted : ℕ
  pub upserted : ℤ

pub record NewsArticle : Type 0 where
  pub source : String
  pub external_id : String
  pub event_time : ℕ
  pub headline : String
  pub body : Option String
  pub related_symbols : Option (List String)

pub record DisclosureFiling : Type 0 where
  pub source : String
  pub external_id : String
  pub event_time : ℕ
  pub title : String
  pub filing_type : Option String
  pub instrument_id : Option ℕ

-- `fetch_latest` of the collector protocols; one that raises ends the run before anything is written.
abbrev pub Collector : Type 0 → Type 0
Collector A = ℕ → List A

-- `MockNewsCollector`, the articles of which are its state
abbrev pub add_article : NewsArticle → List NewsArticle → List NewsArticle
add_article article articles = articles ++ (article ∷ [])

abbrev pub mock_news : List NewsArticle → Collector NewsArticle
mock_news articles since = filter (λ a. leb since a.event_time) articles

-- `MockDisclosureCollector`
abbrev pub add_filing : DisclosureFiling → List DisclosureFiling → List DisclosureFiling
add_filing filing filings = filings ++ (filing ∷ [])

abbrev pub mock_disclosures : List DisclosureFiling → Collector DisclosureFiling
mock_disclosures filings since = filter (λ f. leb since f.event_time) filings

abbrev pub news_row : ℕ → NewsArticle → NewRow EventKey NewsValues
news_row now article = record {
  key = record { source = article.source; external_id = article.external_id };
  available_at = now;
  ingested_at = now;
  values = record {
    event_time = article.event_time;
    headline = article.headline;
    body = article.body;
    related_symbols = article.related_symbols;
  };
}

abbrev pub disclosure_row : ℕ → DisclosureFiling → NewRow EventKey DisclosureValues
disclosure_row now filing = record {
  key = record { source = filing.source; external_id = filing.external_id };
  available_at = now;
  ingested_at = now;
  values = record {
    instrument_id = filing.instrument_id;
    event_time = filing.event_time;
    title = filing.title;
    filing_type = filing.filing_type;
  };
}

abbrev news_source : List NewsArticle → String
news_source [] = "news"
news_source (article ∷ _) = article.source

abbrev disclosure_source : List DisclosureFiling → String
disclosure_source [] = "disclosure"
disclosure_source (filing ∷ _) = filing.source

-- `NewsIngestor.run`
unfoldable pub run_news :
    Engine NewsEventRow EventKey
    → Collector NewsArticle
    → ℕ
    → ℕ
    → List NewsEventRow
    → IngestResult × List NewsEventRow
run_news eng fetch_latest now since t =
    let articles = fetch_latest since in
    let rows = map (news_row now) articles in
    let (t', upserted) = upsert_news eng rows t in
    (record { source = news_source articles; attempted = length rows; upserted = upserted }, t')

-- `DisclosureIngestor.run`
unfoldable pub run_disclosures :
    Engine DisclosureEventRow EventKey
    → Collector DisclosureFiling
    → ℕ
    → ℕ
    → List DisclosureEventRow
    → IngestResult × List DisclosureEventRow
run_disclosures eng fetch_latest now since t =
    let filings = fetch_latest since in
    let rows = map (disclosure_row now) filings in
    let (t', upserted) = upsert_disclosures eng rows t in
    (
      record { source = disclosure_source filings; attempted = length rows; upserted = upserted },
      t',
    )
