-- ===== src/AdminProcessor.antt =====
-- `AdminCommandProcessor.process_command` and `recover_unprocessed_commands` of
-- services/integration/admin_command_processor.py. Whether the service comes online in time and what
-- it answers are arguments; log lines are left out, and so are the failures of the database and of
-- the publishing, and the addresses and bodies of the requests, whose answers alone matter here.
pub mod Remote
pub mod Results
pub mod Ends
mod Tests
use Prim.Native.String
use internal_portal_ceo_dash.Base.{
  ℕ, String, Bool, true, false, ◌&&◌, Option, none, some, List, [], ◌∷◌, ◌++◌, map, ◌==◌, str_eq,
  str_in, any, if◌then◌else◌,
}
use internal_portal_ceo_dash.Base.Text.{lower, upper}
use internal_portal_ceo_dash.Base.Json.{
  get_or, or_json, truthy, Json, null, bool, num, str, arr, nil, obj, Fields, end, field, get_field,
}
use internal_portal_ceo_dash.CommandService.Assignments.{assignments_key}
use internal_portal_ceo_dash.CommandService.Optimistic.{contains}
use internal_portal_ceo_dash.Envelopes.{
  CommandEnvelope, CommandResultEnvelope, FailureInfo, text_json,
}
use internal_portal_ceo_dash.MaProcessor.{
  start_in, Execution, done, not_done, given_update, Published,
}
use internal_portal_ceo_dash.Projections.{upsert}
use internal_portal_ceo_dash.Tables.{CommandRow, ProjectionRow, Database}
use internal_portal_ceo_dash.AdminProcessor.Remote.{
  Libraries, action_of, transition, assign_members, remove_member, refreshed, store_list,
}

-- the `try` block, with the projections that it leaves
unfoldable pub execute :
    Libraries → ℕ → CommandEnvelope → List ProjectionRow → Execution × List ProjectionRow
execute lib now cmd ps =
    let cmd_type = upper cmd.command_type in
    if str_in cmd_type ("APPROVE_REQUEST" ∷ "REJECT_REQUEST" ∷ "CANCEL_REQUEST" ∷ [])
    then (
      transition lib now cmd (action_of cmd_type) (
          lib.execute_purchase_transition cmd.resource_id (action_of cmd_type)
            (get_or "note" null cmd.payload)),
      ps,
    )
    else if str_eq cmd_type "ASSIGN_APPROVER_MEMBERS"
    then (assign_members lib now cmd, ps)
    else if str_eq cmd_type "REMOVE_APPROVER_MEMBER"
    then (remove_member lib now cmd, ps)
    else if str_in cmd_type ("CREATE_WORKFLOW_ASSIGNMENT" ∷ "UPDATE_WORKFLOW_ASSIGNMENT" ∷ [])
    then (done (str "SYNCED") cmd.payload, store_list now (refreshed lib cmd) ps)
    else (
      not_done (record {
        code = "UNSUPPORTED_COMMAND";
        message =
            String.◌++◌ "Command "
              (String.◌++◌ cmd_type " is not supported by Administration service");
        retryable = false;
      }),
      ps,
    )

-- `source_status` of the result: a text that the block has set, or `None`
abbrev pub status_text : Json → Option String
status_text (str s) = some s
status_text v = none

abbrev pub publication : CommandEnvelope → Execution → Published
publication cmd x = record {
  routing_key = String.◌++◌ "administration.command." (lower x.result_status);
  envelope = record {
    schema_version = 1;
    message_type = "command_result";
    command_id = cmd.command_id;
    command_type = upper cmd.command_type;
    source_service = "administration";
    resource_type = cmd.resource_type;
    resource_id = cmd.resource_id;
    result = x.result_status;
    source_status = status_text x.source_status;
    source_version = none;
    failure = x.failure_info;
    correlation_id = cmd.correlation_id;
    projection_update = given_update x.result_status x.projection;
  };
  correlation_id = cmd.correlation_id;
  published_id = cmd.command_id;
}

abbrev pub service_timeout : Execution
service_timeout = not_done (record {
  code = "SERVICE_TIMEOUT";
  message = "Administration Portal did not reconnect within timeout period.";
  retryable = true;
})

-- the command once it is PROCESSING
unfoldable pub answer :
    Libraries → ℕ → Bool → CommandEnvelope → Database → Database × Option Published
answer lib now false cmd db = (db, some (publication cmd service_timeout))
answer lib now true cmd db =
    let out = execute lib now cmd db.projections in
    (record db { projections = out.1 }, some (publication cmd out.0))

unfoldable pub process_parsed :
    Libraries → ℕ → Bool → Option CommandEnvelope → Database → Database × Option Published
process_parsed lib now is_online none db = (db, none)
process_parsed lib now is_online (some cmd) db =
    answer lib now is_online cmd
      (record db { service_commands = start_in now (lib.uuid cmd.command_id) db.service_commands })

-- `process_command`
unfoldable pub process_command :
    Libraries → ℕ → Bool → Fields → Database → Database × Option Published
process_command lib now is_online m db =
    process_parsed lib now is_online (lib.command_envelope m) db

abbrev text_or : String → Option String → String
text_or d none = d
text_or d (some s) = if str_eq s "" then d else s

-- the message that is made of a row again
unfoldable pub envelope_again : Libraries → CommandRow → Fields
envelope_again lib r = field "command_id" (str (lib.uuid_text r.command_id)) (
    field "command_type" (str r.command_type) (
      field "target_service" (str r.target_service) (
        field "resource_type" (str r.resource_type) (
          field "resource_id" (str r.resource_id) (
            field "correlation_id" (str (text_or (lib.uuid_text r.command_id) r.correlation_id)) (
              field "requested_by"
                (obj (
                  field "user_id" (str (text_or "ceo-executive" (some r.requested_by_user_id))) (
                    field "display_name" (str (text_or "CEO Executive" r.requested_by_display_name))
                      end)))
                (field "payload" r.payload end)))))))

abbrev pub is_unprocessed : CommandRow → Bool
is_unprocessed r =
    str_eq r.target_service "administration" && str_in r.status ("QUEUED" ∷ "PROCESSING" ∷ [])

-- `recover_unprocessed_commands`, over the rows of the last day in order: the messages whose
-- processing is scheduled, each by two tasks; `_processing_command_ids` is empty at all times
unfoldable pub recover_unprocessed_commands : Libraries → List CommandRow → List Fields
recover_unprocessed_commands lib [] = []
recover_unprocessed_commands lib (r ∷ rows) =
    let rest = recover_unprocessed_commands lib rows in
    if is_unprocessed r then envelope_again lib r ∷ envelope_again lib r ∷ rest else rest
