-- ===== src/Envelopes.antt =====
-- The envelopes of services/integration/connectors/base_connector.py. Their time stamps are left out:
-- nothing reads them back. The validation of a received dictionary is pydantic's, and a parameter
-- where it is used.
use internal_portal_ceo_dash.Base.{ℕ, String, Bool, Option, none, some}
use internal_portal_ceo_dash.Base.Json.{Json, null, bool, str, obj, Fields, end, field}

pub record UserContext : Type 0 where
  pub user_id : String
  pub display_name : Option String
  pub email : Option String

pub record CommandEnvelope : Type 0 where
  pub schema_version : ℕ
  pub message_type : String
  pub command_id : String
  pub command_type : String
  pub target_service : String
  pub resource_type : String
  pub resource_id : String
  pub expected_source_version : Option ℕ
  pub requested_by : UserContext
  pub payload : Fields
  pub correlation_id : Option String

pub record FailureInfo : Type 0 where
  pub code : String
  pub message : String
  pub retryable : Bool

pub record CommandResultEnvelope : Type 0 where
  pub schema_version : ℕ
  pub message_type : String
  pub command_id : String
  pub command_type : String
  pub source_service : String
  pub resource_type : String
  pub resource_id : String
  pub result : String
  pub source_status : Option String
  pub source_version : Option ℕ
  pub failure : Option FailureInfo
  pub correlation_id : Option String
  pub projection_update : Option Fields

pub record ProjectionEventEnvelope : Type 0 where
  pub schema_version : ℕ
  pub message_type : String
  pub source_service : String
  pub resource_type : String
  pub resource_id : String
  pub source_version : Option ℕ
  pub source_status : Option String
  pub content : Fields

-- a text or `None` as JSON
abbrev pub text_json : Option String → Json
text_json none = null
text_json (some s) = str s

-- `failure.model_dump() if failure else None`
unfoldable pub dump_failure : Option FailureInfo → Json
dump_failure none = null
dump_failure (some f) = obj (
    field "code" (str f.code)
      (field "message" (str f.message) (field "retryable" (bool f.retryable) end)))
