-- ===== src/Ingest/Collectors/Stored.antt =====
-- What is ingested is kept, and known only from then on.
use toss_api.Prelude.{
  ℕ, ◌<◌, ◌≡◌, refl, ◌↔◌, ◌⊎◌, inl, inr, Bool, List, [], ◌∷◌, Has, map, length, length-map, Has-map,
  arith, Pairs, map-Pairs,
}
use toss_api.Prelude.Int.{ℤ, pos}
use toss_api.Db.Sql.{Eq, Engine, IsPostgres}
use toss_api.Db.Revisions.{
  NewRow, Row, append_row, append_rows, append_revision_rows, select_latest_revision_as_of,
}
use toss_api.Db.Revisions.History.{Alike, IsLog, settle-Alike, fresh-columns, append_row-from}
use toss_api.Db.Revisions.Batches.{
  append_rows-Has, append_revision_rows-keeps, append_revision_rows-idempotent,
}
use toss_api.Db.Revisions.PointInTime.{select_latest-append}
use toss_api.Db.Repositories.Keys.{EventKey, event_key_eq}
use toss_api.Db.Repositories.{
  NewsValues, NewsEventRow, DisclosureValues, DisclosureEventRow, upsert_news, upsert_disclosures,
}
use toss_api.Ingest.Collectors.{
  NewsArticle, DisclosureFiling, Collector, news_row, disclosure_row, run_news, run_disclosures,
}

module _ {K V : Type 0} where
  -- The row has the key, the time and the values of a row of the batch.
  pub record IsOf (new : NewRow K V) (s : Row K V) : Type 0 where
    pub key : s.key ≡ new.key
    pub available_at : s.available_at ≡ new.available_at
    pub values : s.values ≡ new.values

module _ {K V : Type 0} (e : Eq K) (eng : Engine (Row K V) K) where
  -- A batch that is known from `now` on, in the table `t'` that was `t`.
  pub record Stored (now : ℕ) (rows : List (NewRow K V)) (t t' : List (Row K V)) : Type 0 where
    pub log : IsLog t'
    -- nothing is lost
    pub kept : (r : Row K V) → Has r t → (s : Row K V) × Has s t' × Alike s r
    -- all of the batch is there
    pub there :
        (new : NewRow K V)
        → Has new rows
        → (s : Row K V) × Has s t' × (s.key ≡ new.key) × (s.available_at ≡ now)
    -- and nothing else
    pub from :
        (s : Row K V)
        → Has s t'
        → ((r : Row K V) × Has r t × Alike s r) ⊎ ((new : NewRow K V) × Has new rows × IsOf new s)
    -- reads of the past are as before
    pub past :
        (event_time : Row K V → ℕ) (filters : Row K V → Bool) (as_of : ℕ)
        → as_of < now
        → (r : Row K V)
        → Has r (select_latest_revision_as_of e eng event_time filters as_of t')
          ↔ Has r (select_latest_revision_as_of e eng event_time filters as_of t)
    -- a second time the batch adds nothing
    pub again :
        (s : Row K V)
        → Has s (append_revision_rows e eng rows t').0
        → (r : Row K V) × Has r t' × Alike s r

  module _ (pg : IsPostgres eng) where
    append_rows-from :
        (rows : List (NewRow K V)) (n : ℤ) (t : List (Row K V)) (s : Row K V)
        → Has s (append_rows e eng rows n t).0
        → ((r : Row K V) × Has r t × Alike s r) ⊎ ((new : NewRow K V) × Has new rows × IsOf new s)
    unfolding append_rows
    append_rows-from [] n t s m =
        inl (s, m, record { key = refl; available_at = refl; revision = refl; values = refl })
    append_rows-from (new ∷ rows) n t s m =
        elim (append_rows-from rows _ (append_row e eng new t) s m) [
          | inr (other, mo, is) ↦ inr (other, inr mo, is)
          | inl (r, mr, alike) ↦ elim (append_row-from e eng pg new t r mr) [
            | inl (o, mo, q) ↦ inl (o, mo, ground (arith, q, alike, settle-Alike e eng pg new t o))
            | inr (apart, q) ↦
                inr (new, inl refl, ground (arith, q, alike, fresh-columns e eng pg new t))
          ]
        ]

    pub append-Stored :
        (now : ℕ) (rows : List (NewRow K V)) (t : List (Row K V))
        → IsLog t
        → ((new : NewRow K V) → Has new rows → new.available_at ≡ now)
        → Stored now rows t (append_revision_rows e eng rows t).0
    unfolding append_revision_rows
    append-Stored now rows t log timed =
        let kept = append_revision_rows-keeps e eng pg rows t log in
        record {
          log = kept.0;
          kept = kept.1;
          there = λ new m.
              let (s, ms, is) = append_rows-Has e eng pg rows (pos 0) t new m in
              let at = timed new m in (s, ms, is.key, ground (arith, is, at));
          from = λ s m. append_rows-from rows (pos 0) t s m;
          past = λ event_time filters as_of early r.
              select_latest-append e eng pg event_time filters as_of rows t log
                (λ new m. ground (arith, timed new m, early)) r;
          again = (append_revision_rows-idempotent e eng pg rows t).0;
        }

news_row-timed :
    (now : ℕ) (articles : List NewsArticle) (new : NewRow EventKey NewsValues)
    → Has new (map (news_row now) articles)
    → new.available_at ≡ now
news_row-timed now articles new m =
    let (a, _, q) = Has-map (news_row now) articles new m in ground (arith, q)

disclosure_row-timed :
    (now : ℕ) (filings : List DisclosureFiling) (new : NewRow EventKey DisclosureValues)
    → Has new (map (disclosure_row now) filings)
    → new.available_at ≡ now
disclosure_row-timed now filings new m =
    let (a, _, q) = Has-map (disclosure_row now) filings new m in ground (arith, q)

-- The row of an article, as known from `now` on.
pub record IsNewsRow (now : ℕ) (a : NewsArticle) (new : NewRow EventKey NewsValues) : Type 0 where
  pub source : new.key.source ≡ a.source
  pub external_id : new.key.external_id ≡ a.external_id
  pub available_at : new.available_at ≡ now
  pub ingested_at : new.ingested_at ≡ now
  pub event_time : new.values.event_time ≡ a.event_time
  pub headline : new.values.headline ≡ a.headline
  pub body : new.values.body ≡ a.body
  pub related_symbols : new.values.related_symbols ≡ a.related_symbols

-- The row of a filing.
pub record IsDisclosureRow (now : ℕ) (f : DisclosureFiling) (new : NewRow EventKey DisclosureValues)
    : Type 0 where
  pub source : new.key.source ≡ f.source
  pub external_id : new.key.external_id ≡ f.external_id
  pub available_at : new.available_at ≡ now
  pub ingested_at : new.ingested_at ≡ now
  pub instrument_id : new.values.instrument_id ≡ f.instrument_id
  pub event_time : new.values.event_time ≡ f.event_time
  pub title : new.values.title ≡ f.title
  pub filing_type : new.values.filing_type ≡ f.filing_type

news_row-IsNewsRow : (now : ℕ) (a : NewsArticle) → IsNewsRow now a (news_row now a)
news_row-IsNewsRow now a = record {
  source = refl;
  external_id = refl;
  available_at = refl;
  ingested_at = refl;
  event_time = refl;
  headline = refl;
  body = refl;
  related_symbols = refl;
}

disclosure_row-IsDisclosureRow :
    (now : ℕ) (f : DisclosureFiling) → IsDisclosureRow now f (disclosure_row now f)
disclosure_row-IsDisclosureRow now f = record {
  source = refl;
  external_id = refl;
  available_at = refl;
  ingested_at = refl;
  instrument_id = refl;
  event_time = refl;
  title = refl;
  filing_type = refl;
}

module _ (news : Engine NewsEventRow EventKey) where
  -- What a run stores of the articles.
  abbrev pub StoresNews : ℕ → List NewsArticle → List NewsEventRow → List NewsEventRow → Type 0
  StoresNews now articles t t' =
      (rows : List (NewRow EventKey NewsValues)) × Pairs (IsNewsRow now) articles rows
      × Stored event_key_eq news now rows t t'

module _ (disclosures : Engine DisclosureEventRow EventKey) where
  abbrev pub StoresDisclosures :
      ℕ → List DisclosureFiling → List DisclosureEventRow → List DisclosureEventRow → Type 0
  StoresDisclosures now filings t t' =
      (rows : List (NewRow EventKey DisclosureValues)) × Pairs (IsDisclosureRow now) filings rows
      × Stored event_key_eq disclosures now rows t t'

module _ (news : Engine NewsEventRow EventKey) (pg : IsPostgres news)
    (disclosures : Engine DisclosureEventRow EventKey) (pg' : IsPostgres disclosures) where
  -- A run of an ingestor on a log counts what the collector fetched, and stores a batch with one row
  -- for each article or filing, in order, that has its source, its external_id and its columns and is
  -- known from now on: the table is a log again and has lost no revision; each row of the batch has
  -- one in the table of its key that is available now, and what is new in the table is of the batch;
  -- every read as of an earlier time returns what it returned before; and the same batch at the same
  -- time adds nothing.
  pub run-Stored :
      (now since : ℕ) (fetch_news : Collector NewsArticle)
      (fetch_disclosures : Collector DisclosureFiling) (t : List NewsEventRow)
      (u : List DisclosureEventRow)
      → IsLog t
      → IsLog u
      → let (first, t') = run_news news fetch_news now since t in
        let (second, u') = run_disclosures disclosures fetch_disclosures now since u in
        (first.attempted ≡ length (fetch_news since))
        × StoresNews news now (fetch_news since) t t'
        × (second.attempted ≡ length (fetch_disclosures since))
        × StoresDisclosures disclosures now (fetch_disclosures since) u u'
  unfolding run_news run_disclosures upsert_news upsert_disclosures
  run-Stored now since fetch_news fetch_disclosures t u log log' =
      let articles = fetch_news since in
      let filings = fetch_disclosures since in
      (
        length-map (news_row now) articles,
        (
          map (news_row now) articles,
          map-Pairs (IsNewsRow now) (news_row now) articles (news_row-IsNewsRow now),
          append-Stored event_key_eq news pg now (map (news_row now) articles) t log
              (news_row-timed now articles),
        ),
        length-map (disclosure_row now) filings,
        (
          map (disclosure_row now) filings,
          map-Pairs (IsDisclosureRow now) (disclosure_row now) filings
              (disclosure_row-IsDisclosureRow now),
          append-Stored event_key_eq disclosures pg' now (map (disclosure_row now) filings) u log'
              (disclosure_row-timed now filings),
        ),
      )
