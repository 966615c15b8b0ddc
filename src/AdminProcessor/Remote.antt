-- ===== src/AdminProcessor/Remote.antt =====
-- What `AdminCommandProcessor.process_command` of services/integration/admin_command_processor.py makes
-- of the answers of the administration.
use Prim.Native.String
use internal_portal_ceo_dash.Base.{
  ℕ, String, Bool, true, false, ◌&&◌, Option, none, some, List, [], ◌∷◌, ◌==◌, str_eq, any,
  if◌then◌else◌,
}
use internal_portal_ceo_dash.Base.Text.{upper}
use internal_portal_ceo_dash.Base.Json.{
  get_or, truthy, Json, null, str, arr, nil, Fields, end, field,
}
use internal_portal_ceo_dash.CommandService.Assignments.{assignments_key}
use internal_portal_ceo_dash.CommandService.Optimistic.{contains}
use internal_portal_ceo_dash.Envelopes.{CommandEnvelope, text_json}
use internal_portal_ceo_dash.MaProcessor.{Execution, done, not_done}
use internal_portal_ceo_dash.Projections.{upsert}
use internal_portal_ceo_dash.Tables.{ProjectionRow}

-- how `execute_purchase_transition` ends: with a dictionary, or by an exception with this text
pub data Transition : Type 0 where
  answered : Fields → Transition
  failed : String → Transition

-- What the processor takes from elsewhere: pydantic's validation of a command, `UUID`, the ISO text
-- of a time, the text of the exception that an error which is no text raises, and the answers of
-- the administration. `none` is a request that raises; the fresh list comes with its status.
pub record Libraries : Type 0 where
  pub command_envelope : Fields → Option CommandEnvelope
  pub uuid : String → Option ℕ
  pub uuid_text : ℕ → String
  pub iso : ℕ → String
  pub error_text : Json → String
  pub execute_purchase_transition : String → String → Json → Transition
  pub has_token : Bool
  pub put : CommandEnvelope → Option ℕ
  pub post : CommandEnvelope → Option ℕ
  pub fresh_list : CommandEnvelope → Option (ℕ × Option Json)

abbrev pub execution_error : String → Execution
execution_error text =
    not_done (record { code = "EXECUTION_ERROR"; message = text; retryable = true })

abbrev pub action_of : String → String
action_of cmd_type =
    if contains cmd_type "APPROVE"
    then "APPROVE"
    else if contains cmd_type "REJECT"
    then "REJECT"
    else "CANCEL"

-- a transition that was made
abbrev pub transitioned : Libraries → ℕ → CommandEnvelope → String → Execution
transitioned lib now cmd source_status = done (str source_status) (
    field "id" (str cmd.resource_id) (
      field "status" (str source_status) (
        field "approved_by" (text_json cmd.requested_by.display_name) (
          field "approval_note" (get_or "note" null cmd.payload)
            (field "updated_at" (str (lib.iso now)) end)))))

-- a transition that was refused, given its error; a message that is no text raises
abbrev pub refused : Libraries → Json → Execution
refused lib (str text) =
    not_done (record { code = "TRANSITION_FAILED"; message = text; retryable = false })
refused lib v = execution_error (lib.error_text v)

unfoldable pub transition : Libraries → ℕ → CommandEnvelope → String → Transition → Execution
transition lib now cmd action (failed text) = execution_error text
transition lib now cmd action (answered d) =
    if truthy (get_or "success" null d)
    then transitioned lib now cmd (String.◌++◌ action "D")
    else refused lib (get_or "error" (str "Action failed in Administration service") d)

-- whatever the administration answers
unfoldable pub assign_members : Libraries → ℕ → CommandEnvelope → Execution
assign_members lib now cmd = done (str "ASSIGNED") (
    field "role_code" (get_or "role_code" (str cmd.resource_id) cmd.payload) (
      field "members" (get_or "members" (arr nil) cmd.payload)
        (field "updated_at" (str (lib.iso now)) end)))

unfoldable pub remove_member : Libraries → ℕ → CommandEnvelope → Execution
remove_member lib now cmd = done (str "REMOVED") (
    field "role_code" (get_or "role_code" null cmd.payload) (
      field "removed_user_id" (get_or "user_id" (str cmd.resource_id) cmd.payload)
        (field "updated_at" (str (lib.iso now)) end)))

-- the status of the last request: a `PUT` that finds nothing falls back to a `POST`
abbrev pub fall_back : Option ℕ → Option ℕ → Option ℕ
fall_back none post = none
fall_back (some s) post = if s == 404 then post else some s

unfoldable pub sync_status : Libraries → CommandEnvelope → Option ℕ
sync_status lib cmd =
    if str_eq (upper cmd.command_type) "UPDATE_WORKFLOW_ASSIGNMENT"
    then fall_back (lib.put cmd) (lib.post cmd)
    else lib.post cmd

abbrev pub accepted : Option ℕ → Bool
accepted none = false
accepted (some s) = any (λ t. s == t) (200 ∷ 201 ∷ 202 ∷ [])

-- the list that is stored, if one is
abbrev pub fetched : Option (ℕ × Option Json) → Option Json
fetched none = none
fetched (some (s, content)) = if s == 200 then content else none

unfoldable pub refreshed : Libraries → CommandEnvelope → Option Json
refreshed lib cmd =
    if lib.has_token && accepted (sync_status lib cmd) then fetched (lib.fresh_list cmd) else none

-- `INSERT INTO ceo_service_projections … 'SYNCED' … ON CONFLICT DO UPDATE`
unfoldable pub store_list : ℕ → Option Json → List ProjectionRow → List ProjectionRow
store_list now none ps = ps
store_list now (some content) ps =
    upsert assignments_key
      (record {
        service_name = "administration";
        resource_type = "workflow_assignment";
        resource_id = "all";
        version = 1;
        content = content;
        source_status = some "SYNCED";
        last_synchronized_at = now;
        is_stale = false;
        updated_at = now;
      })
      (λ p. record p {
        content = content;
        source_status = some "SYNCED";
        last_synchronized_at = now;
        is_stale = false;
        updated_at = now;
      })
      ps
