-- ===== src/Tests/Collectors.antt =====
-- app/ingest, run on plain lists: an article, a filing, and one candle from the server.
use toss_api.Prelude.{◌≡◌, false, none, some, List, [], ◌∷◌}
use toss_api.Prelude.Int.{ℤ, pos}
use toss_api.Numeric.{integers}
use toss_api.Db.Sql.Lists.{lists, lists-IsPostgres}
use toss_api.Db.Revisions.History.{IsLog}
use toss_api.Db.Repositories.{NewsValues, DisclosureValues}
use toss_api.Db.Repositories.Keys.{EventKey, event_key_eq, bar_key_eq}
use toss_api.Toss.Gateways.{one_day}
use toss_api.Ingest.Collectors.{
  NewsArticle, DisclosureFiling, mock_news, mock_disclosures, add_article, add_filing, run_news,
  run_disclosures,
}
use toss_api.Ingest.Collectors.Stored.{StoresNews, StoresDisclosures, run-Stored}
use toss_api.Ingest.MarketBars.{MarketBarIngestor, IngestState, ingest_candles}
use toss_api.Ingest.MarketBars.Stored.{IsIngested, ingest_candles-IsIngested}
use toss_api.Tests.Db.{bar, samsung, instruments-IsUnique, bars-IsLog}
use toss_api.Tests.Toss.{client, readers, candle_server, world}

abbrev article : NewsArticle
article = record {
  source = "wire";
  external_id = "7";
  event_time = 5;
  headline = "Results";
  body = none;
  related_symbols = some ("005930" ∷ []);
}

abbrev filing : DisclosureFiling
filing = record {
  source = "dart";
  external_id = "1";
  event_time = 5;
  title = "Report";
  filing_type = none;
  instrument_id = some 1;
}

abbrev articles : List NewsArticle
articles = add_article article (record article { external_id = "6"; event_time = 2 } ∷ [])

abbrev filings : List DisclosureFiling
filings = add_filing filing []

news-IsLog : IsLog {K = EventKey} {V = NewsValues} []
news-IsLog = record {
  unique = λ r s m n k a. elim m [ ];
  numbers = λ r s m n k a. elim m [ ];
  positive = λ r m. elim m [ ];
}

disclosures-IsLog : IsLog {K = EventKey} {V = DisclosureValues} []
disclosures-IsLog = record {
  unique = λ r s m n k a. elim m [ ];
  numbers = λ r s m n k a. elim m [ ];
  positive = λ r m. elim m [ ];
}

run-Stored_example :
    let (first, t') = run_news (lists event_key_eq) (mock_news articles) 9 4 [] in
    let (second, u') = run_disclosures (lists event_key_eq) (mock_disclosures filings) 9 4 [] in
    (first.attempted ≡ 1)
    × StoresNews (lists event_key_eq) 9 (article ∷ []) [] t'
    × (second.attempted ≡ 1)
    × StoresDisclosures (lists event_key_eq) 9 (filing ∷ []) [] u'
run-Stored_example =
    run-Stored (lists event_key_eq) (lists-IsPostgres event_key_eq) (lists event_key_eq)
      (lists-IsPostgres event_key_eq) 9 4 (mock_news articles) (mock_disclosures filings) [] []
      news-IsLog disclosures-IsLog

abbrev ingestor : MarketBarIngestor
ingestor = record { exchange = "KR"; source = "toss" }

abbrev state : IngestState ℤ ℤ
state = record { world = world 100; instruments = samsung 1 ∷ []; market_bars = bar ∷ [] }

ingest_candles-IsIngested_example :
    let (r, after) =
      ingest_candles
        (lists bar_key_eq)
        (lists event_key_eq)
        integers
        candle_server
        client
        readers
        false
        ingestor
        2
        20
        "005930"
        one_day
        (pos 100)
        state in
    IsIngested
      (lists bar_key_eq)
      integers
      candle_server
      client
      readers
      false
      ingestor
      20
      "005930"
      one_day
      (pos 100)
      state
      after
      r
ingest_candles-IsIngested_example =
    ingest_candles-IsIngested (lists bar_key_eq) (lists-IsPostgres bar_key_eq) (lists event_key_eq)
      (lists-IsPostgres event_key_eq) integers candle_server client readers false ingestor 2 20
      "005930" one_day (pos 100) state instruments-IsUnique bars-IsLog
