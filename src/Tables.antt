-- ===== src/Tables.antt =====
-- The tables of postgresql_db/schemas/cross_service_schema.py that commands, results and projection
-- events go through. A UUID is a number, a time stamp a number, and a missing value is `none`. Of
-- the columns that nothing here reads or writes (the row numbers `id` but the outbox's, and
-- `created_at` but the outbox's) there is no field.
use internal_portal_ceo_dash.Base.{
  ℕ, String, Bool, Option, none, some, List, [], ◌∷◌, ◌==◌, if◌then◌else◌,
}
use internal_portal_ceo_dash.Base.Json.{Json}

-- `service_commands`
pub record CommandRow : Type 0 where
  pub command_id : ℕ
  pub idempotency_key : Option String
  pub target_service : String
  pub resource_type : String
  pub resource_id : String
  pub command_type : String
  pub payload : Json
  pub expected_source_version : Option ℕ
  pub requested_by_user_id : String
  pub requested_by_display_name : Option String
  pub status : String
  pub failure_code : Option String
  pub failure_message : Option String
  pub retryable : Bool
  pub correlation_id : Option String
  pub dispatched_at : Option ℕ
  pub processing_at : Option ℕ
  pub completed_at : Option ℕ
  pub updated_at : ℕ

-- the values of `service_outbox.status`
pub data OutboxStatus : Type 0 where
  pending published failed : OutboxStatus

-- `service_outbox`
pub record OutboxRow : Type 0 where
  pub id : ℕ
  pub event_id : ℕ
  pub command_id : Option ℕ
  pub exchange_name : String
  pub routing_key : String
  pub payload : Json
  pub status : OutboxStatus
  pub retry_count : ℕ
  pub last_error : Option String
  pub created_at : ℕ
  pub published_at : Option ℕ

-- `service_inbox`
pub record InboxRow : Type 0 where
  pub message_id : String
  pub source_service : String
  pub message_type : String
  pub payload : Json
  pub processed_at : ℕ

-- `ceo_service_projections`
pub record ProjectionRow : Type 0 where
  pub service_name : String
  pub resource_type : String
  pub resource_id : String
  pub version : ℕ
  pub content : Json
  pub source_status : Option String
  pub last_synchronized_at : ℕ
  pub is_stale : Bool
  pub updated_at : ℕ

-- `ceo_audit_logs`
pub record AuditRow : Type 0 where
  pub action : String
  pub source_application : String
  pub target_application : String
  pub target_entity : String
  pub requested_by : String
  pub result : String
  pub details : Json

pub record Database : Type 0 where
  pub service_commands : List CommandRow
  pub service_outbox : List OutboxRow
  pub service_inbox : List InboxRow
  pub projections : List ProjectionRow
  pub audit_logs : List AuditRow

-- `SELECT … FROM service_commands WHERE command_id = $1`
unfoldable pub find_command : ℕ → List CommandRow → Option CommandRow
find_command id [] = none
find_command id (c ∷ rows) = if c.command_id == id then some c else find_command id rows
