-- ===== src/Toss/Token.antt =====
-- app/toss/token_parser.py: the parser of the token response. What pydantic makes of a body is a
-- parameter: the two fields, or none where it raises `ValidationError`.
use toss_api.Prelude.{String, Option, none, some}
use toss_api.Prelude.Int.{ℤ}
use toss_api.Exceptions.{plain, data_validation_error}
use toss_api.Action.{Result, ok, err}

pub record ParsedToken : Type 0 where
  pub access_token : String
  pub expires_in : ℤ

-- `ProvisionalTokenResponseParser.parse`
unfoldable pub parse : {F : Type 0} → (String → Option ParsedToken) → String → Result F ParsedToken
parse model_validate_json raw_body = elim (model_validate_json raw_body) [
  | none ↦ err (plain data_validation_error)
  | some dto ↦ ok (record { access_token = dto.access_token; expires_in = dto.expires_in })
]
