-- ===== src/AiContext/Extractor/Outcome.antt =====
-- A failure of the language model is a value, and never looks like an answer.
use toss_api.Prelude.{ℕ, String, ◌≡◌, ◌≢◌, refl, Option, none, some, []}
use toss_api.Exceptions.{Raised, plain, python_exception}
use toss_api.Action.{Result, ok, err}
use toss_api.Numeric.{Numeric}
use toss_api.AiContext.Schema.{
  ExtractionStatus, EventType, ImpactDirection, ImpactDurationType, Novelty, SourceReliability,
  LlmContextOutput, AiContextResult, unknown_horizon,
}
use toss_api.AiContext.Extractor.{
  ContextExtractionRequest, ok_result, unknown_result, after_parse, extract,
}

module _ {N : Type 0} where
  -- The result is about the item that was asked for.
  pub record IsAbout (request : ContextExtractionRequest) (r : AiContextResult N) : Type 0 where
    pub source : r.source ≡ request.source
    pub external_id : r.external_id ≡ request.external_id
    pub event_kind : r.event_kind ≡ request.event_kind

  -- Nothing is claimed of the item.
  pub record IsUnknown (num : Numeric N) (r : AiContextResult N) : Type 0 where
    pub status : r.status ≡ ExtractionStatus.unknown
    pub entities : r.entities ≡ []
    pub event_type : r.event_type ≡ EventType.unknown
    pub impact_direction : r.impact_direction ≡ ImpactDirection.unknown
    pub impact_duration : r.impact_duration ≡ ImpactDurationType.unknown
    pub novelty : r.novelty ≡ Novelty.unknown
    pub source_reliability : r.source_reliability ≡ SourceReliability.unknown
    pub impact_horizon : r.impact_horizon ≡ unknown_horizon num
    pub parse_error : r.parse_error ≢ none

  -- The answer of the model, field by field.
  pub record Answers (o : LlmContextOutput N) (r : AiContextResult N) : Type 0 where
    pub status : r.status ≡ ExtractionStatus.ok
    pub entities : r.entities ≡ o.entities
    pub event_type : r.event_type ≡ o.event_type
    pub impact_direction : r.impact_direction ≡ o.impact_direction
    pub impact_duration : r.impact_duration ≡ o.impact_duration
    pub novelty : r.novelty ≡ o.novelty
    pub duplicate_cluster_id : r.duplicate_cluster_id ≡ o.duplicate_cluster_id
    pub source_reliability : r.source_reliability ≡ o.source_reliability
    pub impact_horizon : r.impact_horizon ≡ o.impact_horizon
    pub summary : r.summary ≡ o.summary
    pub rationale : r.rationale ≡ o.rationale
    pub parse_error : r.parse_error ≡ none

  unknown_result-IsUnknown :
      (num : Numeric N) (request : ContextExtractionRequest) (name version text : String) (now : ℕ)
      → let r = unknown_result num request name version now text in
        IsAbout request r × IsUnknown num r
  unfolding unknown_result
  unknown_result-IsUnknown num request name version text now = (
    record { source = refl; external_id = refl; event_kind = refl },
    record {
      status = refl;
      entities = refl;
      event_type = refl;
      impact_direction = refl;
      impact_duration = refl;
      novelty = refl;
      source_reliability = refl;
      impact_horizon = refl;
      parse_error = λ e. cc;
    },
  )

  ok_result-Answers :
      (request : ContextExtractionRequest) (name version : String) (now : ℕ)
      (o : LlmContextOutput N)
      → let r = ok_result request name version now o in IsAbout request r × Answers o r
  unfolding ok_result
  ok_result-Answers request name version now o = (
    record { source = refl; external_id = refl; event_kind = refl },
    record {
      status = refl;
      entities = refl;
      event_type = refl;
      impact_direction = refl;
      impact_duration = refl;
      novelty = refl;
      duplicate_cluster_id = refl;
      source_reliability = refl;
      impact_horizon = refl;
      summary = refl;
      rationale = refl;
      parse_error = refl;
    },
  )

module _ {F N : Type 0} (num : Numeric N) (message : Raised F → String) (now : ℕ) where
  -- What an extraction comes to, by what the call of the model came to.
  abbrev pub ExtractOutcome :
      ContextExtractionRequest
      → Result F (Option (LlmContextOutput N))
      → Result F (AiContextResult N)
      → Type 0
  ExtractOutcome request (err e) out =
      (r : AiContextResult N) × (out ≡ ok r) × IsAbout request r × IsUnknown num r
  ExtractOutcome request (ok (some o)) out =
      (r : AiContextResult N) × (out ≡ ok r) × IsAbout request r × Answers o r
  ExtractOutcome request (ok none) out = out ≡ err (plain python_exception)

  after_parse-Outcome :
      (request : ContextExtractionRequest) (model : String)
      (answer : Result F (Option (LlmContextOutput N)))
      → ExtractOutcome request answer (after_parse num message now request model answer)
  unfolding after_parse
  after_parse-Outcome request model (err e) =
      let r = unknown_result num request "claude" model now (message e) in
      let (about, unknown) = unknown_result-IsUnknown num request "claude" model (message e) now in
      (r, refl, about, unknown)
  after_parse-Outcome request model (ok none) = refl
  after_parse-Outcome request model (ok (some o)) =
      let (about, answers) = ok_result-Answers request "claude" model now o in
      (ok_result request "claude" model now o, refl, about, answers)

  -- Whatever the call of the model raises becomes a result of status unknown, in which every
  -- classification is unknown and the parse error is kept; an answer is passed on field by field.
  -- Either result is about the item of the request. A response without a parsed output is the one
  -- case in which an exception is raised.
  pub extract-Outcome :
      (parse : ContextExtractionRequest → Result F (Option (LlmContextOutput N))) (model : String)
      (request : ContextExtractionRequest)
      → ExtractOutcome request (parse request) (extract num message now parse model request)
  unfolding extract
  extract-Outcome parse model request = after_parse-Outcome request model (parse request)
