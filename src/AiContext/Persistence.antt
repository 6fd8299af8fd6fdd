-- ===== src/AiContext/Persistence.antt =====
-- app/ai_context/persistence.py: results as rows of the annotations table, and back.
pub mod Rows
pub mod Reload
use toss_api.Prelude.{ℕ, String, Bool, true, false, Option, none, some, List, map, if◌then◌else◌}
use toss_api.Exceptions.{plain, value_error, validation_error}
use toss_api.Action.{Result, ok, err, bind, traverse}
use toss_api.Numeric.{Numeric}
use toss_api.Db.Sql.{Engine}
use toss_api.Db.Repositories.Annotations.{
  AnnotationKey, AssessmentDict, HorizonDict, EntityDict, AnnotationValues, AnnotationRow,
  upsert_annotations, get_annotations_as_of,
}
use toss_api.AiContext.Schema.{
  EventKind, StrEnum, member_of, event_kinds, extraction_statuses, event_types, impact_directions,
  impact_duration_types, novelties, source_reliabilities, expected_directions,
  entity_match_statuses, EntityLink, HorizonAssessment, ImpactHorizon, AiContextResult, in_unit,
}

module _ {N : Type 0} where
  -- `model_dump(mode="json")`
  unfoldable pub dump_assessment : HorizonAssessment N → AssessmentDict N
  dump_assessment a = record {
    expected_direction = expected_directions.value a.expected_direction;
    confidence = a.confidence;
  }

  unfoldable pub dump_horizon : ImpactHorizon N → HorizonDict N
  unfolding dump_assessment
  dump_horizon h = record {
    one_day = dump_assessment h.one_day;
    five_day = dump_assessment h.five_day;
    ten_day = dump_assessment h.ten_day;
    long_term = dump_assessment h.long_term;
  }

  unfoldable pub dump_entity : EntityLink N → EntityDict N
  dump_entity e = record {
    company_name = e.company_name;
    ticker = e.ticker;
    exchange = e.exchange;
    match_status = entity_match_statuses.value e.match_status;
    confidence = e.confidence;
  }

  abbrev pub key_of : AiContextResult N → AnnotationKey
  key_of result = record {
    source = result.source;
    external_id = result.external_id;
    event_kind = event_kinds.value result.event_kind;
    model_name = result.model_name;
    model_version = result.model_version;
  }

  -- The dict of one result in `persist_annotations`.
  unfoldable pub row_of_result : ℕ → ℕ → AiContextResult N → AnnotationRow N
  unfolding dump_horizon dump_entity
  row_of_result event_time as_of result = record {
    key = key_of result;
    available_at = as_of;
    ingested_at = result.generated_at;
    values = record {
      event_time = event_time;
      status = extraction_statuses.value result.status;
      event_type = event_types.value result.event_type;
      impact_direction = impact_directions.value result.impact_direction;
      impact_duration = impact_duration_types.value result.impact_duration;
      novelty = novelties.value result.novelty;
      duplicate_cluster_id = result.duplicate_cluster_id;
      source_reliability = source_reliabilities.value result.source_reliability;
      impact_horizon = dump_horizon result.impact_horizon;
      entities = map dump_entity result.entities;
      summary = result.summary;
      rationale = result.rationale;
      parse_error = result.parse_error;
    };
  }

  -- `persist_annotations`
  unfoldable pub persist_annotations :
      {F : Type 0}
      → Engine (AnnotationRow N) AnnotationKey
      → List (AiContextResult N)
      → ℕ
      → ℕ
      → List (AnnotationRow N)
      → Result F (List (AnnotationRow N))
  unfolding row_of_result
  persist_annotations eng results event_time as_of =
      upsert_annotations eng (map (row_of_result event_time as_of) results)

module _ {F E : Type 0} (enum : StrEnum E) where
  found_member : Option E → Result F E
  found_member none = err (plain value_error)
  found_member (some e) = ok e

  -- `E(text)`
  unfoldable pub to_member : String → Result F E
  unfolding member_of found_member
  to_member text = found_member (member_of enum.value enum.members text)

module _ {F N : Type 0} (num : Numeric N) where
  -- A confidence in a model that pydantic makes.
  unfoldable pub to_confidence : N → Result F N
  unfolding in_unit
  to_confidence c = if in_unit num c then ok c else err (plain validation_error)

  unfoldable pub to_assessment : AssessmentDict N → Result F (HorizonAssessment N)
  unfolding to_member to_confidence
  to_assessment d = bind (to_member expected_directions d.expected_direction) λ direction.
      bind (to_confidence d.confidence)
        λ confidence. ok (record { expected_direction = direction; confidence = confidence })

  -- ImpactHorizon.model_validate
  unfoldable pub to_horizon : HorizonDict N → Result F (ImpactHorizon N)
  unfolding to_assessment
  to_horizon d = bind (to_assessment d.one_day) λ one_day.
      bind (to_assessment d.five_day) λ five_day. bind (to_assessment d.ten_day) λ ten_day.
        bind (to_assessment d.long_term) λ long_term. ok (record {
          one_day = one_day;
          five_day = five_day;
          ten_day = ten_day;
          long_term = long_term;
        })

  unfoldable pub to_entity : EntityDict N → Result F (EntityLink N)
  unfolding to_member to_confidence
  to_entity d = bind (to_member entity_match_statuses d.match_status) λ match_status.
      bind (to_confidence d.confidence) λ confidence. ok (record {
        company_name = d.company_name;
        ticker = d.ticker;
        exchange = d.exchange;
        match_status = match_status;
        confidence = confidence;
      })

  -- `_to_result`
  unfoldable pub to_result : AnnotationRow N → Result F (AiContextResult N)
  unfolding to_member to_horizon to_entity
  to_result row = bind (to_member extraction_statuses row.values.status) λ status.
      bind (to_member event_kinds row.key.event_kind) λ event_kind.
        bind (traverse to_entity row.values.entities) λ entities.
          bind (to_member event_types row.values.event_type) λ event_type.
            bind (to_member impact_directions row.values.impact_direction) λ impact_direction.
              bind (to_member impact_duration_types row.values.impact_duration) λ impact_duration.
                bind (to_member novelties row.values.novelty) λ novelty.
                  bind (to_member source_reliabilities row.values.source_reliability)
                    λ source_reliability.
                      bind (to_horizon row.values.impact_horizon) λ impact_horizon. ok (record {
                        status = status;
                        source = row.key.source;
                        external_id = row.key.external_id;
                        event_kind = event_kind;
                        model_name = row.key.model_name;
                        model_version = row.key.model_version;
                        generated_at = row.ingested_at;
                        entities = entities;
                        event_type = event_type;
                        impact_direction = impact_direction;
                        impact_duration = impact_duration;
                        novelty = novelty;
                        duplicate_cluster_id = row.values.duplicate_cluster_id;
                        source_reliability = source_reliability;
                        impact_horizon = impact_horizon;
                        summary = row.values.summary;
                        rationale = row.values.rationale;
                        parse_error = row.values.parse_error;
                      })

  -- `load_annotations_as_of`
  unfoldable pub load_annotations_as_of :
      Engine (AnnotationRow N) AnnotationKey
      → String
      → String
      → EventKind
      → ℕ
      → Option String
      → List (AnnotationRow N)
      → Result F (List (AiContextResult N))
  unfolding to_result
  load_annotations_as_of eng source external_id event_kind as_of model_name t = traverse to_result (
      get_annotations_as_of eng source external_id (event_kinds.value event_kind) as_of model_name
        t)
