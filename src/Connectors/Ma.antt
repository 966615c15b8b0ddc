-- ===== src/Connectors/Ma.antt =====
-- `MAConnector` of services/integration/connectors/ma_connector.py. The payload schemas are
-- pydantic classes; a schema is their name.
use Prim.Native.String
use internal_portal_ceo_dash.Base.{
  ℕ, String, Option, none, some, List, [], ◌∷◌, str_eq, if◌then◌else◌,
}
use internal_portal_ceo_dash.Base.Text.{lower, upper}
use internal_portal_ceo_dash.Connectors.Shared.{handle_result, handle_event}
use internal_portal_ceo_dash.Envelopes.{CommandResultEnvelope, ProjectionEventEnvelope}
use internal_portal_ceo_dash.Tables.{Database}

abbrev pub service_name : String
service_name = "ma"

abbrev pub supported_command_types : List String
supported_command_types = "TRANSITION_DEAL_STAGE" ∷ "UPDATE_DEAL" ∷ "ASSIGN_DEAL_LEAD" ∷ []

unfoldable pub get_command_schema : String → Option String
get_command_schema command_type =
    let cmd = upper command_type in
    if str_eq cmd "TRANSITION_DEAL_STAGE"
    then some "TransitionDealStagePayload"
    else if str_eq cmd "UPDATE_DEAL"
    then some "UpdateDealPayload"
    else if str_eq cmd "ASSIGN_DEAL_LEAD"
    then some "AssignDealLeadPayload"
    else none

unfoldable pub get_routing_key : String → String → String
get_routing_key command_type resource_type =
    let cmd = upper command_type in
    if str_eq cmd "TRANSITION_DEAL_STAGE"
    then "ma.deal.transition"
    else if str_eq cmd "UPDATE_DEAL"
    then "ma.deal.update"
    else if str_eq cmd "ASSIGN_DEAL_LEAD"
    then "ma.deal.assign"
    else String.◌++◌ "ma."
        (String.◌++◌ (lower resource_type) (String.◌++◌ "." (lower command_type)))

unfoldable pub get_affected_query_keys : String → List String
get_affected_query_keys resource_id =
    "maPipeline"
    ∷ "maSummary"
    ∷ "maEvents"
    ∷ String.◌++◌ "maDeal_" resource_id
    ∷ "ceoAuditLogs"
    ∷ []

abbrev pub handle_command_result : ℕ → CommandResultEnvelope → Database → Database
handle_command_result now = handle_result now "ma" "MA Worker"

abbrev pub handle_projection_event : ℕ → ProjectionEventEnvelope → Database → Database
handle_projection_event now = handle_event now "ma"
