-- ===== src/Connectors/Shared.antt =====
-- The parts that the `handle_command_result` and `handle_projection_event` of both connectors have
-- in common, over the name of the service and of its worker. The audit log's failures, which the
-- code drops, are left out, and so are the log lines.
use Prim.Native.String
use internal_portal_ceo_dash.Base.{
  ℕ, String, Option, none, some, [], ◌∷◌, ◌++◌, ◌==◌, str_eq, if◌then◌else◌,
}
use internal_portal_ceo_dash.Base.Text.{lower, upper}
use internal_portal_ceo_dash.Base.Json.{str, obj, Fields, end, field, put_field, is_empty}
use internal_portal_ceo_dash.Envelopes.{
  CommandResultEnvelope, ProjectionEventEnvelope, text_json, dump_failure,
}
use internal_portal_ceo_dash.Projections.{Key, upsert_result, upsert_event}
use internal_portal_ceo_dash.Tables.{Database, AuditRow}

-- `source_version or 1`
abbrev pub version_or_1 : Option ℕ → ℕ
version_or_1 none = 1
version_or_1 (some v) = if v == 0 then 1 else v

-- `projection_update or {}`
abbrev given : Option Fields → Fields
given none = end
given (some d) = d

abbrev with_status : Option String → Fields → Fields
with_status none d = d
with_status (some s) d = if str_eq s "" then d else put_field "status" (str s) d

-- the `projection_data` that a result is to write
unfoldable pub projection_data : CommandResultEnvelope → Fields
projection_data e = with_status e.source_status (given e.projection_update)

-- the audit row of a result
unfoldable pub result_audit : String → String → CommandResultEnvelope → AuditRow
result_audit service worker e = record {
  action = String.◌++◌ (upper e.command_type) "_RESULT";
  source_application = service;
  target_application = "ceo-dashboard";
  target_entity = e.resource_id;
  requested_by = worker;
  result = upper e.result;
  details = obj (
      field "command_id" (str e.command_id) (
        field "failure" (dump_failure e.failure)
          (field "source_status" (text_json e.source_status) end)));
}

-- the key under which a service's resource stands
abbrev pub key_of : String → String → String → Key
key_of service resource_type resource_id = record {
  service = service;
  kind = lower resource_type;
  resource = resource_id;
}

-- `handle_command_result`
unfoldable pub handle_result : ℕ → String → String → CommandResultEnvelope → Database → Database
handle_result now service worker e db =
    let written =
      upsert_result now (key_of service e.resource_type e.resource_id)
        (version_or_1 e.source_version) (projection_data e) e.source_status db.projections in
    record db {
      projections = if is_empty (projection_data e) then db.projections else written;
      audit_logs = db.audit_logs ++ result_audit service worker e ∷ [];
    }

-- `handle_projection_event`
unfoldable pub handle_event : ℕ → String → ProjectionEventEnvelope → Database → Database
handle_event now service e db = record db {
  projections =
      upsert_event now (key_of service e.resource_type e.resource_id)
        (version_or_1 e.source_version) e.content e.source_status db.projections;
}
