-- ===== src/Db/Repositories.antt =====
-- app/db/repositories: the revisioned tables, market_bars, news_events and disclosure_events, each
-- with its logical key, its value columns and its read. Decimal columns are of a type `D`.
pub mod Keys
pub mod Reads
pub mod Market
pub mod Instruments
pub mod Runs
pub mod Orders
pub mod SystemEvents
pub mod Signals
pub mod Portfolio
pub mod Strategies
pub mod Annotations
use toss_api.Prelude.{
  ℕ, String, Bool, true, false, ◌&&◌, Option, none, some, List, [], ◌∷◌, leb, any, filter, last?,
  ◌==◌, str_eq, if◌then◌else◌,
}
use toss_api.Prelude.Int.{ℤ}
use toss_api.Db.Sql.{Eq, Engine}
use toss_api.Db.Revisions.{NewRow, Row, append_revision_rows, select_latest_revision_as_of}
use toss_api.Db.Repositories.Keys.{BarKey, EventKey, bar_key_eq, event_key_eq}

pub record BarValues (D : Type 0) : Type 0 where
  pub open_price : D
  pub high_price : D
  pub low_price : D
  pub close_price : D
  pub volume : D
  pub currency : Option String

abbrev pub MarketBarRow : Type 0 → Type 0
MarketBarRow D = Row BarKey (BarValues D)

pub record NewsValues : Type 0 where
  pub event_time : ℕ
  pub headline : String
  pub body : Option String
  pub related_symbols : Option (List String)

abbrev pub NewsEventRow : Type 0
NewsEventRow = Row EventKey NewsValues

pub record DisclosureValues : Type 0 where
  pub instrument_id : Option ℕ
  pub event_time : ℕ
  pub title : String
  pub filing_type : Option String

abbrev pub DisclosureEventRow : Type 0
DisclosureEventRow = Row EventKey DisclosureValues

module _ {D : Type 0} (eng : Engine (MarketBarRow D) BarKey) where
  -- `MarketBarRepository.upsert_bars`
  unfoldable pub upsert_bars :
      List (NewRow BarKey (BarValues D)) → List (MarketBarRow D) → List (MarketBarRow D) × ℤ
  upsert_bars = append_revision_rows bar_key_eq eng

  abbrev pub bar_filters : ℕ → String → ℕ → ℕ → MarketBarRow D → Bool
  bar_filters instrument_id timeframe start end r =
      r.key.instrument_id == instrument_id
      && str_eq r.key.timeframe timeframe
      && leb start r.key.event_time
      && leb r.key.event_time end

  -- `MarketBarRepository.get_bars_as_of`
  unfoldable pub get_bars_as_of :
      ℕ → String → ℕ → ℕ → ℕ → List (MarketBarRow D) → List (MarketBarRow D)
  get_bars_as_of instrument_id timeframe start end as_of =
      select_latest_revision_as_of bar_key_eq eng (λ r. r.key.event_time)
        (bar_filters instrument_id timeframe start end) as_of

-- `related_symbols @> [symbol]`, which is not true of NULL
unfoldable pub mentions : String → Option (List String) → Bool
mentions symbol none = false
mentions symbol (some symbols) = any (λ s. str_eq s symbol) symbols

-- A filter that is added only if the argument is given.
abbrev pub optionally {ℓ} : {A : Type ℓ} → Option A → (A → Bool) → Bool
optionally none p = true
optionally (some a) p = p a

module _ (eng : Engine NewsEventRow EventKey) where
  unfoldable pub upsert_news :
      List (NewRow EventKey NewsValues) → List NewsEventRow → List NewsEventRow × ℤ
  upsert_news = append_revision_rows event_key_eq eng

  unfoldable pub news_filters : ℕ → ℕ → Option String → NewsEventRow → Bool
  unfolding mentions
  news_filters start end symbol r =
      leb start r.values.event_time
      && leb r.values.event_time end
      && optionally symbol (λ s. mentions s r.values.related_symbols)

  -- `NewsRepository.get_news_as_of`
  unfoldable pub get_news_as_of : ℕ → ℕ → ℕ → Option String → List NewsEventRow → List NewsEventRow
  unfolding news_filters
  get_news_as_of start end as_of symbol =
      select_latest_revision_as_of event_key_eq eng (λ r. r.values.event_time)
        (news_filters start end symbol) as_of

-- `instrument_id = …`, which is not true of NULL
abbrev pub is_of : ℕ → Option ℕ → Bool
is_of n none = false
is_of n (some m) = m == n

module _ (eng : Engine DisclosureEventRow EventKey) where
  unfoldable pub upsert_disclosures :
      List (NewRow EventKey DisclosureValues)
      → List DisclosureEventRow
      → List DisclosureEventRow × ℤ
  upsert_disclosures = append_revision_rows event_key_eq eng

  unfoldable pub disclosure_filters : ℕ → ℕ → Option ℕ → DisclosureEventRow → Bool
  disclosure_filters start end instrument_id r =
      leb start r.values.event_time
      && leb r.values.event_time end
      && optionally instrument_id (λ n. is_of n r.values.instrument_id)

  -- `DisclosureRepository.get_disclosures_as_of`
  unfoldable pub get_disclosures_as_of :
      ℕ → ℕ → ℕ → Option ℕ → List DisclosureEventRow → List DisclosureEventRow
  unfolding disclosure_filters
  get_disclosures_as_of start end as_of instrument_id =
      select_latest_revision_as_of event_key_eq eng (λ r. r.values.event_time)
        (disclosure_filters start end instrument_id) as_of
