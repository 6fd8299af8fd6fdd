-- ===== src/Tests/AiContext.antt =====
-- app/ai_context, on one answer of a model.
use toss_api.Prelude.{ℕ, String, ◌≡◌, ◌≤◌, refl, Option, none, some, List, [], ◌∷◌, Has, arith}
use toss_api.Prelude.Int.{ℤ, pos}
use toss_api.Numeric.{integers}
use toss_api.Exceptions.{plain, external_api_timeout_error}
use toss_api.Action.{ok, err}
use toss_api.Db.Sql.{Engine}
use toss_api.Db.Sql.Lists.{lists, lists-IsPostgres}
use toss_api.Db.Upsert.{upsert_event_rows}
use toss_api.Db.Repositories.Annotations.{
  AnnotationKey, AnnotationRow, annotation_key_eq, upsert_annotations,
}
use toss_api.AiContext.Schema.{
  EventKind, EventType, ImpactDirection, ImpactDurationType, Novelty, SourceReliability,
  EntityMatchStatus, LlmContextOutput, AiContextResult, unknown_horizon, checks_horizon,
  checks_entities,
}
use toss_api.AiContext.Extractor.{ContextExtractionRequest, ok_result, extract}
use toss_api.AiContext.Extractor.Outcome.{IsAbout, IsUnknown, extract-Outcome}
use toss_api.AiContext.Persistence.{
  key_of, row_of_result, persist_annotations, load_annotations_as_of,
}
use toss_api.AiContext.Persistence.Rows.{IsValidResult}
use toss_api.AiContext.Persistence.Reload.{IsAnnotation, load-persist}

abbrev article : ContextExtractionRequest
article = record {
  source = "wire";
  external_id = "7";
  event_kind = EventKind.news;
  event_time = 5;
  headline_or_title = "Results";
  body = none;
  known_instruments = [];
}

abbrev answer : LlmContextOutput ℤ
answer = record {
  entities =
      record {
        company_name = "Samsung";
        ticker = some "005930";
        exchange = some "KR";
        match_status = EntityMatchStatus.matched;
        confidence = pos 1;
      }
      ∷ [];
  event_type = EventType.earnings;
  impact_direction = ImpactDirection.direct;
  impact_duration = ImpactDurationType.one_off;
  novelty = Novelty.new;
  duplicate_cluster_id = none;
  source_reliability = SourceReliability.high;
  impact_horizon = unknown_horizon integers;
  summary = "up";
  rationale = "more sales";
}

-- The call of the model times out.
extract-Outcome_example :
    (r : AiContextResult ℤ) × (extract {F = ℤ} integers
        (λ e. "timeout")
        9
        (λ q. err (plain external_api_timeout_error))
        "m"
        article
      ≡ ok r)
    × IsAbout article r
    × IsUnknown integers r
extract-Outcome_example =
    extract-Outcome integers (λ e. "timeout") 9 (λ q. err (plain external_api_timeout_error)) "m"
      article

abbrev made : AiContextResult ℤ
unfolding ok_result
made = ok_result article "claude" "m" 9 answer

made-IsValidResult : IsValidResult integers made
unfolding made checks_horizon checks_entities
made-IsValidResult = record { horizon = refl; entities = refl }

abbrev annotations_engine : Engine (AnnotationRow ℤ) AnnotationKey
annotations_engine = lists annotation_key_eq

abbrev table : List (AnnotationRow ℤ)
table = row_of_result 5 10 made ∷ []

persisted : persist_annotations {F = ℤ} annotations_engine (made ∷ []) 5 10 [] ≡ ok table
unfolding persist_annotations upsert_annotations upsert_event_rows lists
persisted = refl

load-persist_example :
    ((row : AnnotationRow ℤ) → Has row table → IsAnnotation integers row)
    × ((source external_id : String) (event_kind : EventKind) (later : ℕ)
          (model_name : Option String)
        → (loaded : List (AiContextResult ℤ)) × (load_annotations_as_of {F = ℤ} integers
              annotations_engine source external_id event_kind later model_name table
            ≡ ok loaded))
    × ((result : AiContextResult ℤ) (later : ℕ)
        → Has result (made ∷ [])
        → 10 ≤ later
        → ((old : AnnotationRow ℤ)
            → Has old []
            → old.key ≡ key_of result
            → old.available_at ≤ later)
        → (loaded : List (AiContextResult ℤ)) × (load_annotations_as_of {F = ℤ} integers
              annotations_engine result.source result.external_id result.event_kind later none table
            ≡ ok loaded)
          × Has result loaded)
load-persist_example =
    load-persist integers annotations_engine (lists-IsPostgres annotation_key_eq) (made ∷ []) 5 10
      [] table persisted (λ result m. ground (arith, m, made-IsValidResult)) (λ row m. elim m [ ])
