-- ===== src/Db/Repositories/Annotations.antt =====
-- app/db/repositories/ai_context.py: annotations of news and disclosures, as plain texts and dicts. A
-- dict with fixed names is a record.
use toss_api.Prelude.{ℕ, String, ◌≡◌, ◌↔◌, Bool, true, ◌&&◌, Option, List, str_eq, eq_iff, arith}
use toss_api.Action.{Result}
use toss_api.Db.Sql.{Eq, Engine}
use toss_api.Db.Upsert.{EventRow, update, upsert_event_rows, select_as_of}
use toss_api.Db.Repositories.{optionally}

pub record AnnotationKey : Type 0 where
  pub source : String
  pub external_id : String
  pub event_kind : String
  pub model_name : String
  pub model_version : String

pub record AssessmentDict (N : Type 0) : Type 0 where
  pub expected_direction : String
  pub confidence : N

pub record HorizonDict (N : Type 0) : Type 0 where
  pub one_day : AssessmentDict N
  pub five_day : AssessmentDict N
  pub ten_day : AssessmentDict N
  pub long_term : AssessmentDict N

pub record EntityDict (N : Type 0) : Type 0 where
  pub company_name : String
  pub ticker : Option String
  pub exchange : Option String
  pub match_status : String
  pub confidence : N

pub record AnnotationValues (N : Type 0) : Type 0 where
  pub event_time : ℕ
  pub status : String
  pub event_type : String
  pub impact_direction : String
  pub impact_duration : String
  pub novelty : String
  pub duplicate_cluster_id : Option String
  pub source_reliability : String
  pub impact_horizon : HorizonDict N
  pub entities : List (EntityDict N)
  pub summary : String
  pub rationale : String
  pub parse_error : Option String

abbrev pub AnnotationRow : Type 0 → Type 0
AnnotationRow N = EventRow AnnotationKey (AnnotationValues N)

abbrev pub annotation_beq : AnnotationKey → AnnotationKey → Bool
annotation_beq a b =
    str_eq a.source b.source
    && str_eq a.external_id b.external_id
    && str_eq a.event_kind b.event_kind
    && str_eq a.model_name b.model_name
    && str_eq a.model_version b.model_version

pub annotation_beq_iff : (a b : AnnotationKey) → (annotation_beq a b ≡ true) ↔ (a ≡ b)
annotation_beq_iff a b =
    let source = eq_iff a.source b.source in
    let external_id = eq_iff a.external_id b.external_id in
    let event_kind = eq_iff a.event_kind b.event_kind in
    let model_name = eq_iff a.model_name b.model_name in
    let model_version = eq_iff a.model_version b.model_version in
    (
      λ h. ground (arith, source, external_id, event_kind, model_name, model_version),
      λ h. ground (arith, source, external_id, event_kind, model_name, model_version),
    )

abbrev pub annotation_key_eq : Eq AnnotationKey
annotation_key_eq = record { beq = annotation_beq; beq_iff = annotation_beq_iff }

module _ {N : Type 0} (eng : Engine (AnnotationRow N) AnnotationKey) where
  -- `_UPDATE_COLUMNS`: all but `event_time`
  abbrev pub set_annotation_values : AnnotationValues N → AnnotationValues N → AnnotationValues N
  set_annotation_values old excluded = record excluded { event_time = old.event_time }

  -- `AIContextRepository.upsert_annotations`
  unfoldable pub upsert_annotations :
      {F : Type 0}
      → List (AnnotationRow N)
      → List (AnnotationRow N)
      → Result F (List (AnnotationRow N))
  upsert_annotations = upsert_event_rows annotation_key_eq eng update set_annotation_values

  abbrev pub annotation_filters : String → String → String → Option String → AnnotationRow N → Bool
  annotation_filters source external_id event_kind model_name r =
      str_eq r.key.source source
      && str_eq r.key.external_id external_id
      && str_eq r.key.event_kind event_kind
      && optionally model_name (λ m. str_eq r.key.model_name m)

  -- `AIContextRepository.get_annotations_as_of`
  unfoldable pub get_annotations_as_of :
      String → String → String → ℕ → Option String → List (AnnotationRow N) → List (AnnotationRow N)
  get_annotations_as_of source external_id event_kind as_of model_name =
      select_as_of annotation_key_eq eng (λ r. r.values.event_time)
        (annotation_filters source external_id event_kind model_name) as_of
