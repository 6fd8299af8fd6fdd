-- ===== src/AiContext/Schema.antt =====
-- app/ai_context/schema.py: the enums with their values, and the two shapes. A confidence is of a
-- number type `N`.
use toss_api.Prelude.{
  ℕ, String, Bool, ◌&&◌, Option, none, some, List, [], ◌∷◌, all, str_eq, if◌then◌else◌,
}
use toss_api.Numeric.{Numeric}

pub data EventKind : Type 0 where
  news disclosure : EventKind

pub data ExtractionStatus : Type 0 where
  ok unknown : ExtractionStatus

pub data EventType : Type 0 where
  earnings guidance merger_acquisition regulatory product management_change : EventType
  litigation macro supply_chain other unknown : EventType

pub data ImpactDirection : Type 0 where
  direct indirect unknown : ImpactDirection

pub data ImpactDurationType : Type 0 where
  one_off structural unknown : ImpactDurationType

pub data Novelty : Type 0 where
  new duplicate follow_up unknown : Novelty

pub data SourceReliability : Type 0 where
  high medium low unknown : SourceReliability

pub data ExpectedDirection : Type 0 where
  up down neutral unknown : ExpectedDirection

pub data EntityMatchStatus : Type 0 where
  matched ambiguous unmatched : EntityMatchStatus

-- A `StrEnum`: its members in order, each with its value.
pub record StrEnum (E : Type 0) : Type 0 where
  pub value : E → String
  pub members : List E

-- `E(text)`, `none` where it raises `ValueError`
unfoldable pub member_of : {E : Type 0} → (E → String) → List E → String → Option E
member_of value [] text = none
member_of value (e ∷ members) text =
    if str_eq (value e) text then some e else member_of value members text

abbrev pub event_kinds : StrEnum EventKind
event_kinds = record {
  value = λ k. elim k [ EventKind.news ↦ "news" | EventKind.disclosure ↦ "disclosure" ];
  members = EventKind.news ∷ EventKind.disclosure ∷ [];
}

abbrev pub extraction_statuses : StrEnum ExtractionStatus
extraction_statuses = record {
  value = λ s. elim s [ ExtractionStatus.ok ↦ "ok" | ExtractionStatus.unknown ↦ "unknown" ];
  members = ExtractionStatus.ok ∷ ExtractionStatus.unknown ∷ [];
}

abbrev pub event_types : StrEnum EventType
event_types = record {
  value = λ t. elim t [
    | EventType.earnings ↦ "earnings"
    | EventType.guidance ↦ "guidance"
    | EventType.merger_acquisition ↦ "merger_acquisition"
    | EventType.regulatory ↦ "regulatory"
    | EventType.product ↦ "product"
    | EventType.management_change ↦ "management_change"
    | EventType.litigation ↦ "litigation"
    | EventType.macro ↦ "macro"
    | EventType.supply_chain ↦ "supply_chain"
    | EventType.other ↦ "other"
    | EventType.unknown ↦ "unknown"
  ];
  members =
      EventType.earnings ∷ EventType.guidance ∷ EventType.merger_acquisition ∷ EventType.regulatory
      ∷ EventType.product ∷ EventType.management_change ∷ EventType.litigation ∷ EventType.macro
      ∷ EventType.supply_chain ∷ EventType.other ∷ EventType.unknown ∷ [];
}

abbrev pub impact_directions : StrEnum ImpactDirection
impact_directions = record {
  value = λ d. elim d [
    | ImpactDirection.direct ↦ "direct"
    | ImpactDirection.indirect ↦ "indirect"
    | ImpactDirection.unknown ↦ "unknown"
  ];
  members = ImpactDirection.direct ∷ ImpactDirection.indirect ∷ ImpactDirection.unknown ∷ [];
}

abbrev pub impact_duration_types : StrEnum ImpactDurationType
impact_duration_types = record {
  value = λ d. elim d [
    | ImpactDurationType.one_off ↦ "one_off"
    | ImpactDurationType.structural ↦ "structural"
    | ImpactDurationType.unknown ↦ "unknown"
  ];
  members =
      ImpactDurationType.one_off ∷ ImpactDurationType.structural ∷ ImpactDurationType.unknown ∷ [];
}

abbrev pub novelties : StrEnum Novelty
novelties = record {
  value = λ n. elim n [
    | Novelty.new ↦ "new"
    | Novelty.duplicate ↦ "duplicate"
    | Novelty.follow_up ↦ "follow_up"
    | Novelty.unknown ↦ "unknown"
  ];
  members = Novelty.new ∷ Novelty.duplicate ∷ Novelty.follow_up ∷ Novelty.unknown ∷ [];
}

abbrev pub source_reliabilities : StrEnum SourceReliability
source_reliabilities = record {
  value = λ r. elim r [
    | SourceReliability.high ↦ "high"
    | SourceReliability.medium ↦ "medium"
    | SourceReliability.low ↦ "low"
    | SourceReliability.unknown ↦ "unknown"
  ];
  members =
      SourceReliability.high ∷ SourceReliability.medium ∷ SourceReliability.low
      ∷ SourceReliability.unknown ∷ [];
}

abbrev pub expected_directions : StrEnum ExpectedDirection
expected_directions = record {
  value = λ d. elim d [
    | ExpectedDirection.up ↦ "up"
    | ExpectedDirection.down ↦ "down"
    | ExpectedDirection.neutral ↦ "neutral"
    | ExpectedDirection.unknown ↦ "unknown"
  ];
  members =
      ExpectedDirection.up ∷ ExpectedDirection.down ∷ ExpectedDirection.neutral
      ∷ ExpectedDirection.unknown ∷ [];
}

abbrev pub entity_match_statuses : StrEnum EntityMatchStatus
entity_match_statuses = record {
  value = λ s. elim s [
    | EntityMatchStatus.matched ↦ "matched"
    | EntityMatchStatus.ambiguous ↦ "ambiguous"
    | EntityMatchStatus.unmatched ↦ "unmatched"
  ];
  members =
      EntityMatchStatus.matched ∷ EntityMatchStatus.ambiguous ∷ EntityMatchStatus.unmatched ∷ [];
}

pub record EntityLink (N : Type 0) : Type 0 where
  pub company_name : String
  pub ticker : Option String
  pub exchange : Option String
  pub match_status : EntityMatchStatus
  pub confidence : N

pub record HorizonAssessment (N : Type 0) : Type 0 where
  pub expected_direction : ExpectedDirection
  pub confidence : N

pub record ImpactHorizon (N : Type 0) : Type 0 where
  pub one_day : HorizonAssessment N
  pub five_day : HorizonAssessment N
  pub ten_day : HorizonAssessment N
  pub long_term : HorizonAssessment N

-- `_unknown_horizon`
abbrev pub unknown_horizon : {N : Type 0} → Numeric N → ImpactHorizon N
unknown_horizon {N} num =
    let unknown : HorizonAssessment N = record {
      expected_direction = ExpectedDirection.unknown;
      confidence = num.of_ℕ 0;
    } in
    record { one_day = unknown; five_day = unknown; ten_day = unknown; long_term = unknown }

pub record LlmContextOutput (N : Type 0) : Type 0 where
  pub entities : List (EntityLink N)
  pub event_type : EventType
  pub impact_direction : ImpactDirection
  pub impact_duration : ImpactDurationType
  pub novelty : Novelty
  pub duplicate_cluster_id : Option String
  pub source_reliability : SourceReliability
  pub impact_horizon : ImpactHorizon N
  pub summary : String
  pub rationale : String

pub record AiContextResult (N : Type 0) : Type 0 where
  pub status : ExtractionStatus
  pub source : String
  pub external_id : String
  pub event_kind : EventKind
  pub model_name : String
  pub model_version : String
  pub generated_at : ℕ
  pub entities : List (EntityLink N)
  pub event_type : EventType
  pub impact_direction : ImpactDirection
  pub impact_duration : ImpactDurationType
  pub novelty : Novelty
  pub duplicate_cluster_id : Option String
  pub source_reliability : SourceReliability
  pub impact_horizon : ImpactHorizon N
  pub summary : String
  pub rationale : String
  pub parse_error : Option String

-- Field(ge=0.0, le=1.0)
unfoldable pub in_unit : {N : Type 0} → Numeric N → N → Bool
in_unit num c = num.leb (num.of_ℕ 0) c && num.leb c (num.of_ℕ 1)

module _ {N : Type 0} (num : Numeric N) where
  -- What pydantic checked when the parts were made.
  unfoldable pub checks_horizon : ImpactHorizon N → Bool
  unfolding in_unit
  checks_horizon h =
      in_unit num h.one_day.confidence
      && in_unit num h.five_day.confidence
      && in_unit num h.ten_day.confidence
      && in_unit num h.long_term.confidence

  unfoldable pub checks_entities : List (EntityLink N) → Bool
  unfolding in_unit
  checks_entities entities = all (λ (e : EntityLink N). in_unit num e.confidence) entities
