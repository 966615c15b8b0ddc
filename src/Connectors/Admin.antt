-- ===== src/Connectors/Admin.antt =====
-- `AdministrationConnector` of services/integration/connectors/admin_connector.py. The payload
-- schemas are pydantic classes; a schema is their name.
use Prim.Native.String
use internal_portal_ceo_dash.Base.{
  ℕ, String, Option, none, some, List, [], ◌∷◌, str_eq, str_in, if◌then◌else◌,
}
use internal_portal_ceo_dash.Base.Text.{lower, upper}
use internal_portal_ceo_dash.Base.Json.{Json, Fields, get_field}
use internal_portal_ceo_dash.Connectors.Shared.{handle_result, handle_event}
use internal_portal_ceo_dash.Envelopes.{CommandResultEnvelope, ProjectionEventEnvelope}
use internal_portal_ceo_dash.Tables.{Database}

abbrev pub service_name : String
service_name = "administration"

abbrev pub supported_command_types : List String
supported_command_types =
    "APPROVE_REQUEST" ∷ "REJECT_REQUEST" ∷ "CANCEL_REQUEST" ∷ "ASSIGN_APPROVER_MEMBERS"
    ∷ "REMOVE_APPROVER_MEMBER" ∷ "CREATE_WORKFLOW_ASSIGNMENT" ∷ "UPDATE_WORKFLOW_ASSIGNMENT" ∷ []

-- the three lists that the methods test a command type against
abbrev request_commands : List String
request_commands = "APPROVE_REQUEST" ∷ "REJECT_REQUEST" ∷ "CANCEL_REQUEST" ∷ []

abbrev approver_commands : List String
approver_commands = "ASSIGN_APPROVER_MEMBERS" ∷ "REMOVE_APPROVER_MEMBER" ∷ []

abbrev workflow_commands : List String
workflow_commands = "CREATE_WORKFLOW_ASSIGNMENT" ∷ "UPDATE_WORKFLOW_ASSIGNMENT" ∷ []

unfoldable pub get_command_schema : String → Option String
get_command_schema command_type =
    let cmd = upper command_type in
    if str_in cmd request_commands
    then some "PurchaseActionPayload"
    else if str_eq cmd "ASSIGN_APPROVER_MEMBERS"
    then some "AssignApproverMembersPayload"
    else if str_eq cmd "REMOVE_APPROVER_MEMBER"
    then some "RemoveApproverMemberPayload"
    else if str_in cmd workflow_commands
    then some "WorkflowAssignmentPayload"
    else none

unfoldable pub get_routing_key : String → String → String
get_routing_key command_type resource_type =
    let cmd = upper command_type in
    if str_eq cmd "APPROVE_REQUEST"
    then "administration.request.approve"
    else if str_eq cmd "REJECT_REQUEST"
    then "administration.request.reject"
    else if str_eq cmd "CANCEL_REQUEST"
    then "administration.request.cancel"
    else if str_eq cmd "ASSIGN_APPROVER_MEMBERS"
    then "administration.approver.assign"
    else if str_eq cmd "REMOVE_APPROVER_MEMBER"
    then "administration.approver.remove"
    else if str_in cmd workflow_commands
    then "administration.workflow.assign"
    else String.◌++◌ "administration."
        (String.◌++◌ (lower resource_type) (String.◌++◌ "." (lower command_type)))

-- `payload.get("role_code", resource_id)` in a text; `shown` is Python's `str` of a JSON value
abbrev role_of : (Json → String) → String → Fields → String
role_of shown resource_id payload = elim (get_field "role_code" payload) [
  | none ↦ resource_id
  | some v ↦ shown v
]

unfoldable pub get_affected_query_keys : (Json → String) → String → String → Fields → List String
get_affected_query_keys shown command_type resource_id payload =
    let cmd = upper command_type in
    let role = role_of shown resource_id payload in
    if str_in cmd request_commands
    then "pendingApprovals"
      ∷ String.◌++◌ "approvalDetail_" resource_id
      ∷ "approvedHistory"
      ∷ "dashboardSummary"
      ∷ "ceoAuditLogs"
      ∷ []
    else if str_in cmd approver_commands
    then String.◌++◌ "approverRoles_" role
      ∷ String.◌++◌ "approverRolesMembers_" role
      ∷ "approverRoles"
      ∷ "ceoAuditLogs"
      ∷ []
    else if str_in cmd workflow_commands
    then "workflowAssignments" ∷ "purchasingAssignments" ∷ []
    else []

abbrev pub handle_command_result : ℕ → CommandResultEnvelope → Database → Database
handle_command_result now = handle_result now "administration" "Administration Worker"

abbrev pub handle_projection_event : ℕ → ProjectionEventEnvelope → Database → Database
handle_projection_event now = handle_event now "administration"
