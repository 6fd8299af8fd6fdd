-- ===== src/AiContext/Extractor.antt =====
-- app/ai_context/extractor.py, claude_extractor.py and mock_extractor.py. `parse` is the call of
-- `client.messages.parse` on the prompt of the request: what it raises, or the `parsed_output` of the
-- response, which is None where the model wrote no text. `message` is `str(exc)`; `now` is
-- `datetime.now(UTC)`.
pub mod Outcome
use toss_api.Prelude.{ℕ, String, Option, none, some, List, []}
use toss_api.Exceptions.{Raised, plain, python_exception}
use toss_api.Action.{Result, ok, err}
use toss_api.Numeric.{Numeric}
use toss_api.AiContext.Schema.{
  EventKind, ExtractionStatus, EventType, ImpactDirection, ImpactDurationType, Novelty,
  SourceReliability, LlmContextOutput, AiContextResult, unknown_horizon,
}

pub record KnownInstrument : Type 0 where
  pub symbol : String
  pub exchange : String
  pub name : Option String

pub record ContextExtractionRequest : Type 0 where
  pub source : String
  pub external_id : String
  pub event_kind : EventKind
  pub event_time : ℕ
  pub headline_or_title : String
  pub body : Option String
  pub known_instruments : List KnownInstrument

module _ {N : Type 0} where
  unfoldable pub ok_result :
      ContextExtractionRequest → String → String → ℕ → LlmContextOutput N → AiContextResult N
  ok_result request model_name model_version now output = record {
    status = ExtractionStatus.ok;
    source = request.source;
    external_id = request.external_id;
    event_kind = request.event_kind;
    model_name = model_name;
    model_version = model_version;
    generated_at = now;
    entities = output.entities;
    event_type = output.event_type;
    impact_direction = output.impact_direction;
    impact_duration = output.impact_duration;
    novelty = output.novelty;
    duplicate_cluster_id = output.duplicate_cluster_id;
    source_reliability = output.source_reliability;
    impact_horizon = output.impact_horizon;
    summary = output.summary;
    rationale = output.rationale;
    parse_error = none;
  }

  -- The fields that are not given have the defaults of `AIContextResult`.
  unfoldable pub unknown_result :
      Numeric N → ContextExtractionRequest → String → String → ℕ → String → AiContextResult N
  unknown_result num request model_name model_version now parse_error = record {
    status = ExtractionStatus.unknown;
    source = request.source;
    external_id = request.external_id;
    event_kind = request.event_kind;
    model_name = model_name;
    model_version = model_version;
    generated_at = now;
    entities = [];
    event_type = EventType.unknown;
    impact_direction = ImpactDirection.unknown;
    impact_duration = ImpactDurationType.unknown;
    novelty = Novelty.unknown;
    duplicate_cluster_id = none;
    source_reliability = SourceReliability.unknown;
    impact_horizon = unknown_horizon num;
    summary = "";
    rationale = "";
    parse_error = some parse_error;
  }

module _ {F N : Type 0} (num : Numeric N) (message : Raised F → String) (now : ℕ) where
  -- Behind the `try`: `output.entities` of None raises AttributeError.
  unfoldable pub after_parse :
      ContextExtractionRequest
      → String
      → Result F (Option (LlmContextOutput N))
      → Result F (AiContextResult N)
  unfolding ok_result unknown_result
  after_parse request model (err e) = ok (unknown_result num request "claude" model now (message e))
  after_parse request model (ok none) = err (plain python_exception)
  after_parse request model (ok (some output)) = ok (ok_result request "claude" model now output)

  -- `ClaudeContextExtractor.extract`
  unfoldable pub extract :
      (ContextExtractionRequest → Result F (Option (LlmContextOutput N)))
      → String
      → ContextExtractionRequest
      → Result F (AiContextResult N)
  unfolding after_parse
  extract parse model request = after_parse request model (parse request)

  mock_outcome :
      (String → String)
      → String
      → String
      → ContextExtractionRequest
      → Option (Result F (LlmContextOutput N))
      → AiContextResult N
  unfolding ok_result unknown_result
  mock_outcome no_response model_name model_version request none =
      unknown_result num request model_name model_version now (no_response request.external_id)
  mock_outcome no_response model_name model_version request (some (err e)) =
      unknown_result num request model_name model_version now (message e)
  mock_outcome no_response model_name model_version request (some (ok output)) =
      ok_result request model_name model_version now output

  -- `MockContextExtractor.extract`; `no_response` is the text for an id without a response
  unfoldable pub mock_extract :
      (String → String)
      → String
      → String
      → (String → Option (Result F (LlmContextOutput N)))
      → ContextExtractionRequest
      → AiContextResult N
  unfolding mock_outcome
  mock_extract no_response model_name model_version responses request =
      mock_outcome no_response model_name model_version request (responses request.external_id)
