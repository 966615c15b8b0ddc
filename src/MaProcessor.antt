-- ===== src/MaProcessor.antt =====
-- `MACommandProcessor.process_command` of services/integration/ma_command_processor.py. Whether the
-- service comes online in time is an argument; log lines are left out, and so are the failures of
-- the database and of the publishing. The exchange is the configured one.
pub mod Results
pub mod Commands
mod Tests
use Prim.Native.String
use internal_portal_ceo_dash.Base.{
  ℕ, String, Bool, true, false, Option, none, some, List, [], ◌∷◌, map, ◌==◌, str_eq, if◌then◌else◌,
}
use internal_portal_ceo_dash.Base.Text.{lower, upper}
use internal_portal_ceo_dash.Base.Json.{
  get_or, Json, null, bool, num, str, arr, obj, Fields, end, field, get_field, put_field,
  merge_fields,
}
use internal_portal_ceo_dash.Envelopes.{
  CommandEnvelope, CommandResultEnvelope, FailureInfo, text_json,
}
use internal_portal_ceo_dash.Tables.{CommandRow, Database}

-- What the processor uses of libraries: pydantic's validation of a command, `UUID`, the ISO text of
-- a time, and the text of the exception that a payload of the wrong shape raises.
pub record Libraries : Type 0 where
  pub command_envelope : Fields → Option CommandEnvelope
  pub uuid : String → Option ℕ
  pub iso : ℕ → String
  pub error_text : Fields → String

-- `UPDATE service_commands SET status = 'PROCESSING' … WHERE command_id = $1`
unfoldable pub start_command : ℕ → ℕ → CommandRow → CommandRow
start_command now cmd_uuid c =
    if c.command_id == cmd_uuid
    then record c { status = "PROCESSING"; processing_at = some now; updated_at = now }
    else c

-- an id that is no UUID is given up on
unfoldable pub start_in : ℕ → Option ℕ → List CommandRow → List CommandRow
start_in now none rows = rows
start_in now (some cmd_uuid) rows = map (start_command now cmd_uuid) rows

-- what the `try` block and its handler leave in the variables
pub record Execution : Type 0 where
  pub result_status : String
  pub failure_info : Option FailureInfo
  pub source_status : Json
  pub projection : Fields

abbrev pub done : Json → Fields → Execution
done source_status projection = record {
  result_status = "SUCCEEDED";
  failure_info = none;
  source_status = source_status;
  projection = projection;
}

abbrev pub not_done : FailureInfo → Execution
not_done f = record {
  result_status = "FAILED";
  failure_info = some f;
  source_status = null;
  projection = end;
}

abbrev pub execution_error : Libraries → Fields → Execution
execution_error lib payload =
    not_done
      (record { code = "EXECUTION_ERROR"; message = lib.error_text payload; retryable = true })

-- "TRANSITION_DEAL_STAGE", given the stage; what is not a text has no `upper`
unfoldable pub transition_stage : Libraries → ℕ → CommandEnvelope → Json → Execution
transition_stage lib now cmd (str stage) = done (str (upper stage)) (
    field "deal_id" (str cmd.resource_id) (
      field "stage" (str (upper stage)) (
        field "transition_note" (get_or "note" null cmd.payload) (
          field "updated_by" (text_json cmd.requested_by.display_name)
            (field "updated_at" (str (lib.iso now)) end)))))
transition_stage lib now cmd _ = execution_error lib cmd.payload

-- "UPDATE_DEAL", given the updates; what is no mapping cannot be spread
unfoldable pub update_deal : Libraries → ℕ → CommandEnvelope → Json → Execution
update_deal lib now cmd (obj updates) = done (get_or "status" (str "ACTIVE") updates) (
    put_field "updated_at" (str (lib.iso now))
      (merge_fields (field "deal_id" (str cmd.resource_id) end) updates))
update_deal lib now cmd _ = execution_error lib cmd.payload

unfoldable pub assign_lead : Libraries → ℕ → CommandEnvelope → Execution
assign_lead lib now cmd = done (str "ASSIGNED") (
    field "deal_id" (str cmd.resource_id) (
      field "lead_user_id" (get_or "lead_user_id" null cmd.payload) (
        field "lead_name" (get_or "lead_name" null cmd.payload)
          (field "updated_at" (str (lib.iso now)) end))))

-- the `try` block
unfoldable pub execute : Libraries → ℕ → CommandEnvelope → Execution
execute lib now cmd =
    let cmd_type = upper cmd.command_type in
    if str_eq cmd_type "TRANSITION_DEAL_STAGE"
    then transition_stage lib now cmd (get_or "stage" (str "DUE_DILIGENCE") cmd.payload)
    else if str_eq cmd_type "UPDATE_DEAL"
    then update_deal lib now cmd (get_or "updates" (obj end) cmd.payload)
    else if str_eq cmd_type "ASSIGN_DEAL_LEAD"
    then assign_lead lib now cmd
    else not_done (record {
      code = "UNSUPPORTED_COMMAND";
      message = String.◌++◌ "Command " (String.◌++◌ cmd_type " is not supported by M&A service");
      retryable = false;
    })

-- a call of `rabbitmq_manager.publish_message`
pub record Published : Type 0 where
  pub routing_key : String
  pub envelope : CommandResultEnvelope
  pub correlation_id : Option String
  pub published_id : String

abbrev pub given_update : String → Fields → Option Fields
given_update result_status projection =
    if str_eq result_status "SUCCEEDED" then some projection else none

-- the result of an execution, given its source status
abbrev pub result_of : CommandEnvelope → Execution → Option String → CommandResultEnvelope
result_of cmd x source_status = record {
  schema_version = 1;
  message_type = "command_result";
  command_id = cmd.command_id;
  command_type = upper cmd.command_type;
  source_service = "ma";
  resource_type = cmd.resource_type;
  resource_id = cmd.resource_id;
  result = x.result_status;
  source_status = source_status;
  source_version = none;
  failure = x.failure_info;
  correlation_id = cmd.correlation_id;
  projection_update = given_update x.result_status x.projection;
}

abbrev pub publication : CommandEnvelope → Execution → Option String → Published
publication cmd x source_status = record {
  routing_key = String.◌++◌ "ma.command." (lower x.result_status);
  envelope = result_of cmd x source_status;
  correlation_id = cmd.correlation_id;
  published_id = cmd.command_id;
}

-- The result's envelope takes a text or `None` as its source status; anything else raises, and
-- nothing is published.
unfoldable pub publish_result : CommandEnvelope → Execution → Json → Option Published
publish_result cmd x null = some (publication cmd x none)
publish_result cmd x (str s) = some (publication cmd x (some s))
publish_result cmd x _ = none

-- the answer to a command while the service stays offline
abbrev pub service_timeout : Execution
service_timeout = not_done (record {
  code = "SERVICE_TIMEOUT";
  message = "M&A microservice did not reconnect within timeout period.";
  retryable = true;
})

unfoldable pub answer : Libraries → ℕ → Bool → CommandEnvelope → Option Published
answer lib now false cmd = some (publication cmd service_timeout none)
answer lib now true cmd = let x = execute lib now cmd in publish_result cmd x x.source_status

unfoldable pub process_parsed :
    Libraries → ℕ → Bool → Option CommandEnvelope → Database → Database × Option Published
process_parsed lib now is_online none db = (db, none)
process_parsed lib now is_online (some cmd) db = (
  record db { service_commands = start_in now (lib.uuid cmd.command_id) db.service_commands },
  answer lib now is_online cmd,
)

-- `process_command`
unfoldable pub process_command :
    Libraries → ℕ → Bool → Fields → Database → Database × Option Published
process_command lib now is_online m db =
    process_parsed lib now is_online (lib.command_envelope m) db
