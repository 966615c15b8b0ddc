-- ===== src/Connectors/Tests.antt =====
-- Runs of the connectors.
use internal_portal_ceo_dash.Base.{◌≡◌, refl, not, none, some, [], if◌then◌else◌}
use internal_portal_ceo_dash.Base.Text.{lower}
use internal_portal_ceo_dash.Base.Json.{str, end, field, put_field}
use internal_portal_ceo_dash.Circuit.{admin_circuit_breaker, ma_circuit_breaker}
use internal_portal_ceo_dash.Connectors.{
  ma, service_name, handle_projection_event, handle_command_result,
}
use internal_portal_ceo_dash.Connectors.Shown.{merged, result_shown}
use internal_portal_ceo_dash.Connectors.Shared.{key_of, projection_data}
use internal_portal_ceo_dash.Envelopes.{CommandResultEnvelope, ProjectionEventEnvelope}
use internal_portal_ceo_dash.Projections.{get_projection, find_row}
use internal_portal_ceo_dash.Registry.{
  Circuits, new_registry, same_status, online, get_service_status,
}
use internal_portal_ceo_dash.Tables.{Database}

abbrev database : Database
database = record {
  service_commands = [];
  service_outbox = [];
  service_inbox = [];
  projections = [];
  audit_logs = [];
}

abbrev circuits : Circuits
circuits = record { admin = admin_circuit_breaker 1; ma = ma_circuit_breaker 1 }

abbrev deal_event : ProjectionEventEnvelope
deal_event = record {
  schema_version = 1;
  message_type = "projection_updated";
  source_service = "ma";
  resource_type = "Deal";
  resource_id = "d1";
  source_version = some 4;
  source_status = none;
  content = field "stage" (str "LOI") end;
}

abbrev stage_result : CommandResultEnvelope
stage_result = record {
  schema_version = 1;
  message_type = "command_result";
  command_id = "7";
  command_type = "TRANSITION_DEAL_STAGE";
  source_service = "ma";
  resource_type = "Deal";
  resource_id = "d1";
  result = "SUCCEEDED";
  source_status = some "CLOSING";
  source_version = none;
  failure = none;
  correlation_id = none;
  projection_update = none;
}

-- the table after the event above
abbrev known : Database
known = handle_projection_event ma 20 deal_event database

result_shown_example :
    let is_online = same_status (get_service_status circuits new_registry "ma") online in
    let old = find_row (key_of "ma" "Deal" "d1") known.projections in
    get_projection circuits new_registry "MA" "deal" "d1"
      (handle_command_result ma 30 stage_result known).projections
    ≡ record {
      content = merged old (projection_data stage_result);
      version = some 1;
      source_service = "ma";
      source_status = if is_online then "ONLINE" else "OFFLINE";
      last_synchronized_at = some 30;
      is_stale = not is_online;
    }
unfolding service_name lower
result_shown_example =
    result_shown ma 30 stage_result known circuits new_registry "MA" "deal"
      (unfold projection_data put_field in refl) refl refl
