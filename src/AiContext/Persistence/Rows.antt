-- ===== src/AiContext/Persistence/Rows.antt =====
-- A row that a result was written to gives the result back.
use toss_api.Prelude.{ℕ, ◌≡◌, refl, sym, true, List, [], ◌∷◌, map, all, arith, &&-eq-true}
use mathlib.Core.Path.{subst}
use toss_api.Action.{ok, traverse}
use toss_api.Numeric.{Numeric}
use toss_api.Db.Repositories.Annotations.{AnnotationRow}
use toss_api.AiContext.Schema.{
  EventKind, ExtractionStatus, EventType, ImpactDirection, ImpactDurationType, Novelty,
  SourceReliability, ExpectedDirection, EntityMatchStatus, StrEnum, event_kinds,
  extraction_statuses, event_types, impact_directions, impact_duration_types, novelties,
  source_reliabilities, expected_directions, entity_match_statuses, EntityLink, HorizonAssessment,
  ImpactHorizon, AiContextResult, in_unit, checks_horizon, checks_entities,
}
use toss_api.AiContext.Persistence.{
  dump_assessment, dump_horizon, dump_entity, key_of, row_of_result, to_member, to_confidence,
  to_assessment, to_horizon, to_entity, to_result,
}

-- Every value of the enum is read as the member that it was written for.
abbrev pub RoundTrips : {E : Type 0} → StrEnum E → Type 1
RoundTrips {E} enum = (F : Type 0) (e : E) → to_member {F = F} enum (enum.value e) ≡ ok e

event_kinds-RoundTrips : RoundTrips event_kinds
unfolding to_member
event_kinds-RoundTrips F EventKind.news = refl
event_kinds-RoundTrips F EventKind.disclosure = refl

event_types-RoundTrips : RoundTrips event_types
unfolding to_member
event_types-RoundTrips F EventType.earnings = refl
event_types-RoundTrips F EventType.guidance = refl
event_types-RoundTrips F EventType.merger_acquisition = refl
event_types-RoundTrips F EventType.regulatory = refl
event_types-RoundTrips F EventType.product = refl
event_types-RoundTrips F EventType.management_change = refl
event_types-RoundTrips F EventType.litigation = refl
event_types-RoundTrips F EventType.macro = refl
event_types-RoundTrips F EventType.supply_chain = refl
event_types-RoundTrips F EventType.other = refl
event_types-RoundTrips F EventType.unknown = refl

extraction_statuses-RoundTrips : RoundTrips extraction_statuses
unfolding to_member
extraction_statuses-RoundTrips F ExtractionStatus.ok = refl
extraction_statuses-RoundTrips F ExtractionStatus.unknown = refl

impact_directions-RoundTrips : RoundTrips impact_directions
unfolding to_member
impact_directions-RoundTrips F ImpactDirection.direct = refl
impact_directions-RoundTrips F ImpactDirection.indirect = refl
impact_directions-RoundTrips F ImpactDirection.unknown = refl

impact_duration_types-RoundTrips : RoundTrips impact_duration_types
unfolding to_member
impact_duration_types-RoundTrips F ImpactDurationType.one_off = refl
impact_duration_types-RoundTrips F ImpactDurationType.structural = refl
impact_duration_types-RoundTrips F ImpactDurationType.unknown = refl

novelties-RoundTrips : RoundTrips novelties
unfolding to_member
novelties-RoundTrips F Novelty.new = refl
novelties-RoundTrips F Novelty.duplicate = refl
novelties-RoundTrips F Novelty.follow_up = refl
novelties-RoundTrips F Novelty.unknown = refl

source_reliabilities-RoundTrips : RoundTrips source_reliabilities
unfolding to_member
source_reliabilities-RoundTrips F SourceReliability.high = refl
source_reliabilities-RoundTrips F SourceReliability.medium = refl
source_reliabilities-RoundTrips F SourceReliability.low = refl
source_reliabilities-RoundTrips F SourceReliability.unknown = refl

expected_directions-RoundTrips : RoundTrips expected_directions
unfolding to_member
expected_directions-RoundTrips F ExpectedDirection.up = refl
expected_directions-RoundTrips F ExpectedDirection.down = refl
expected_directions-RoundTrips F ExpectedDirection.neutral = refl
expected_directions-RoundTrips F ExpectedDirection.unknown = refl

entity_match_statuses-RoundTrips : RoundTrips entity_match_statuses
unfolding to_member
entity_match_statuses-RoundTrips F EntityMatchStatus.matched = refl
entity_match_statuses-RoundTrips F EntityMatchStatus.ambiguous = refl
entity_match_statuses-RoundTrips F EntityMatchStatus.unmatched = refl

checks_horizon-parts :
    {N : Type 0} (num : Numeric N) (h : ImpactHorizon N)
    → checks_horizon num h ≡ true
    → (in_unit num h.one_day.confidence ≡ true)
      × (in_unit num h.five_day.confidence ≡ true)
      × (in_unit num h.ten_day.confidence ≡ true)
      × (in_unit num h.long_term.confidence ≡ true)
unfolding checks_horizon
checks_horizon-parts num h c = ground (arith, c)

module _ {F N : Type 0} (num : Numeric N) where
  to_assessment-dump_assessment :
      (a : HorizonAssessment N)
      → in_unit num a.confidence ≡ true
      → to_assessment {F = F} num (dump_assessment a) ≡ ok a
  unfolding to_assessment dump_assessment to_confidence
  to_assessment-dump_assessment a h =
      rw (expected_directions-RoundTrips F a.expected_direction, h) refl

  to_horizon-dump_horizon :
      (h : ImpactHorizon N)
      → checks_horizon num h ≡ true
      → to_horizon {F = F} num (dump_horizon h) ≡ ok h
  unfolding to_horizon dump_horizon
  to_horizon-dump_horizon h c =
      let (one, five, ten, long) = checks_horizon-parts num h c in
      rw
        (
          to_assessment-dump_assessment h.one_day one,
          to_assessment-dump_assessment h.five_day five,
          to_assessment-dump_assessment h.ten_day ten,
          to_assessment-dump_assessment h.long_term long,
        )
        refl

  traverse-dump_entity :
      (es : List (EntityLink N))
      → checks_entities num es ≡ true
      → traverse (to_entity {F = F} num) (map dump_entity es) ≡ ok es
  unfolding traverse to_entity dump_entity to_confidence checks_entities
  traverse-dump_entity [] h = refl
  traverse-dump_entity (e ∷ es) h =
      let (one, rest) =
        &&-eq-true (in_unit num e.confidence)
          (all (λ (x : EntityLink N). in_unit num x.confidence) es) h in
      rw (entity_match_statuses-RoundTrips F e.match_status, one, traverse-dump_entity es rest) refl

module _ {N : Type 0} (num : Numeric N) where
  -- What pydantic checked when the parts of the result were made.
  pub record IsValidResult (result : AiContextResult N) : Type 0 where
    pub horizon : checks_horizon num result.impact_horizon ≡ true
    pub entities : checks_entities num result.entities ≡ true

module _ {N : Type 0} where
  -- A row that holds the values of a result, whatever its two event times are.
  pub record HoldsResult (result : AiContextResult N) (row : AnnotationRow N) : Type 0 where
    pub key : row.key ≡ key_of result
    pub ingested : row.ingested_at ≡ result.generated_at
    pub values : row.values ≡ (row_of_result row.values.event_time row.available_at result).values

module _ {F N : Type 0} (num : Numeric N) where
  to_result-row_of_result :
      (event_time as_of : ℕ) (result : AiContextResult N)
      → IsValidResult num result
      → to_result {F = F} num (row_of_result event_time as_of result) ≡ ok result
  unfolding to_result row_of_result
  to_result-row_of_result event_time as_of result v =
      rw
        (
          extraction_statuses-RoundTrips F result.status,
          event_kinds-RoundTrips F result.event_kind,
          traverse-dump_entity num result.entities v.entities,
          event_types-RoundTrips F result.event_type,
          impact_directions-RoundTrips F result.impact_direction,
          impact_duration_types-RoundTrips F result.impact_duration,
          novelties-RoundTrips F result.novelty,
          source_reliabilities-RoundTrips F result.source_reliability,
          to_horizon-dump_horizon num result.impact_horizon v.horizon,
        )
        refl

  -- The row is read back as the result that it holds.
  pub to_result-HoldsResult :
      (result : AiContextResult N) (row : AnnotationRow N)
      → IsValidResult num result
      → HoldsResult result row
      → to_result {F = F} num row ≡ ok result
  unfolding row_of_result
  to_result-HoldsResult result row v h =
      let written = row_of_result row.values.event_time row.available_at result in
      let same : row ≡ written = ground (arith, h.key, h.ingested, h.values) in
      subst (λ r. to_result {F = F} num r ≡ ok result) (sym same)
        (to_result-row_of_result row.values.event_time row.available_at result v)
