-- ===== src/Consumer.antt =====
-- `ResultConsumer.handle_incoming_message` of services/integration/result_consumer.py. The message
-- is the JSON object that was received. Log lines are left out, and so are the failures of the
-- database and of the broadcast; an event for the browsers is `Notice`.
pub mod Steps
pub mod Inbox
pub mod Commands
mod Tests
use Prim.Native.String
use internal_portal_ceo_dash.Base.{
  ℕ, String, Bool, true, false, not, Option, none, some, List, [], ◌∷◌, ◌++◌, map, any, ◌==◌,
  str_eq, if◌then◌else◌,
}
use internal_portal_ceo_dash.Base.Text.{lower, upper}
use internal_portal_ceo_dash.Base.Json.{
  truthy, or_json, get_or, Json, null, bool, num, str, arr, obj, nil, Fields, end, get_field,
  is_empty,
}
use internal_portal_ceo_dash.Connectors.{
  Connector, connector_registry, get_by_service, get_affected_query_keys, handle_command_result,
  handle_projection_event,
}
use internal_portal_ceo_dash.Envelopes.{
  FailureInfo, CommandResultEnvelope, ProjectionEventEnvelope, dump_failure,
}
use internal_portal_ceo_dash.Tables.{CommandRow, InboxRow, Database}

-- What the handler uses of libraries: Python's `str` of a JSON value that is neither a text nor
-- `None`, `UUID`, and pydantic's validation of the two envelopes. `none` is a raise.
pub record Libraries : Type 0 where
  pub other_text : Json → String
  pub uuid : String → Option ℕ
  pub result_envelope : Fields → Option CommandResultEnvelope
  pub event_envelope : Fields → Option ProjectionEventEnvelope

-- `str(v)`, and what `v` is in an f-string
abbrev pub shown : Libraries → Json → String
shown lib (str s) = s
shown lib null = "None"
shown lib v = lib.other_text v

-- `v == s` for a text `s`
abbrev pub is_text : String → Json → Bool
is_text s (str t) = str_eq t s
is_text s _ = false

-- `msg_id`
unfoldable pub message_id : Libraries → Fields → Json
message_id lib m = or_json (get_or "correlation_id" null m) (
    or_json (get_or "command_id" null m) (str (shown lib (get_or "resource_id" (str "unknown") m))))

-- `source_svc`; `.lower()` raises on what is not a text
abbrev lowered : Json → Option String
lowered (str s) = some (lower s)
lowered _ = none

unfoldable pub source_service : Fields → Option String
source_service m = lowered (or_json (get_or "source_service" null m) (str "unknown"))

-- `inbox_key`, given `source_svc`
unfoldable pub inbox_key : Libraries → String → Fields → String
unfolding message_id
inbox_key lib source m = String.◌++◌ source (
    String.◌++◌ ":" (
      String.◌++◌ (shown lib (get_or "message_type" null m))
        (String.◌++◌ ":" (shown lib (message_id lib m)))))

-- whether `SELECT id FROM service_inbox WHERE message_id = $1` finds a row
unfoldable pub is_processed : String → List InboxRow → Bool
is_processed key rows = any (λ i. str_eq i.message_id key) rows

-- `INSERT INTO service_inbox … ON CONFLICT (message_id) DO NOTHING`
unfoldable pub record_inbox : InboxRow → List InboxRow → List InboxRow
unfolding is_processed
record_inbox i rows = if is_processed i.message_id rows then rows else rows ++ i ∷ []

-- the failure's columns
abbrev pub fail_code : Option FailureInfo → Option String
fail_code none = none
fail_code (some f) = some f.code

abbrev pub fail_message : Option FailureInfo → Option String
fail_message none = none
fail_message (some f) = some f.message

abbrev pub is_retryable : Option FailureInfo → Bool
is_retryable none = false
is_retryable (some f) = f.retryable

-- `UPDATE service_commands … WHERE command_id = $5`
unfoldable pub finish_command : ℕ → ℕ → CommandResultEnvelope → CommandRow → CommandRow
finish_command now cmd_uuid e c =
    if c.command_id == cmd_uuid
    then record c {
      status = upper e.result;
      failure_code = fail_code e.failure;
      failure_message = fail_message e.failure;
      retryable = is_retryable e.failure;
      completed_at = some now;
      updated_at = now;
    }
    else c

-- the update is skipped where the id is empty, and given up where it is no UUID
abbrev finish_in : ℕ → CommandResultEnvelope → Option ℕ → List CommandRow → List CommandRow
finish_in now e none rows = rows
finish_in now e (some cmd_uuid) rows = map (finish_command now cmd_uuid e) rows

unfoldable pub finish_commands :
    Libraries → ℕ → CommandResultEnvelope → List CommandRow → List CommandRow
unfolding finish_command
finish_commands lib now e rows =
    if str_eq e.command_id "" then rows else finish_in now e (lib.uuid e.command_id) rows

-- what the transaction yields for the notice
pub record Summary : Type 0 where
  pub command_status : Option String
  pub failure : Json
  pub affected_keys : List String

-- the branch of "command_result"
unfoldable pub apply_result :
    Libraries → ℕ → Option Connector → CommandResultEnvelope → Database → Database × Summary
unfolding finish_commands
apply_result lib now connector e db =
    let finished = record db { service_commands = finish_commands lib now e db.service_commands } in
    let summary : List String → Summary = λ keys. record {
      command_status = some (upper e.result);
      failure = dump_failure e.failure;
      affected_keys = keys;
    } in
    elim connector [
      | none ↦ (finished, summary [])
      | some c ↦ (
        handle_command_result c now e finished,
        summary (get_affected_query_keys c (shown lib) e.command_type e.resource_id end),
      )
    ]

-- the branch of "projection_updated"
unfoldable pub apply_event :
    Libraries → ℕ → Option Connector → ProjectionEventEnvelope → Database → Database × Summary
apply_event lib now connector e db =
    let summary : List String → Summary =
      λ keys. record { command_status = none; failure = null; affected_keys = keys } in
    elim connector [
      | none ↦ (db, summary [])
      | some c ↦ (
        handle_projection_event c now e db,
        summary (get_affected_query_keys c (shown lib) "PROJECTION_UPDATE" e.resource_id e.content),
      )
    ]

-- The three branches on the message's type. `none` is the early return of a message that does not
-- parse, which leaves the transaction with nothing done.
unfoldable pub apply_message :
    Libraries → ℕ → String → Fields → Database → Option (Database × Summary)
unfolding apply_result apply_event
apply_message lib now source m db =
    let msg_type = get_or "message_type" null m in
    let connector = get_by_service source connector_registry in
    if is_text "command_result" msg_type
    then elim (lib.result_envelope m) [
      | none ↦ none
      | some e ↦ some (apply_result lib now connector e db)
    ]
    else if is_text "projection_updated" msg_type
    then elim (lib.event_envelope m) [
      | none ↦ none
      | some e ↦ some (apply_event lib now connector e db)
    ]
    else some (db, record { command_status = none; failure = null; affected_keys = [] })

-- the payload of `broadcast_event`
pub record Notice : Type 0 where
  pub command_id : Json
  pub target_service : String
  pub resource_type : Json
  pub resource_id : Json
  pub command_type : Json
  pub status : String
  pub source_status : Json
  pub failure : Json
  pub affected_query_keys : List String
  pub updated_at : ℕ

abbrev status_or_updated : Option String → String
status_or_updated none = "UPDATED"
status_or_updated (some s) = if str_eq s "" then "UPDATED" else s

unfoldable pub notice : ℕ → String → Fields → Summary → Notice
notice now source m s = record {
  command_id = get_or "command_id" null m;
  target_service = source;
  resource_type = get_or "resource_type" (str "resource") m;
  resource_id = get_or "resource_id" null m;
  command_type = get_or "command_type" null m;
  status = status_or_updated s.command_status;
  source_status = get_or "source_status" null m;
  failure = s.failure;
  affected_query_keys = s.affected_keys;
  updated_at = now;
}

-- the row that the transaction ends with
abbrev pub inbox_row : Libraries → ℕ → String → Fields → InboxRow
inbox_row lib now source m = record {
  message_id = inbox_key lib source m;
  source_service = source;
  message_type = shown lib (or_json (get_or "message_type" null m) (str "unknown"));
  payload = obj m;
  processed_at = now;
}

-- the end of the transaction and the broadcast, if the message was not given up
abbrev pub finish_message :
    Libraries
    → ℕ
    → String
    → Fields
    → Database
    → Option (Database × Summary)
    → Database × Option Notice
finish_message lib now source m db none = (db, none)
finish_message lib now source m db (some (db', summary)) = (
  record db' { service_inbox = record_inbox (inbox_row lib now source m) db'.service_inbox },
  some (notice now source m summary),
)

-- what follows the computation of `source_svc`
unfoldable pub handle_from :
    Libraries → ℕ → Fields → Database → Option String → Database × Option Notice
handle_from lib now m db none = (db, none)
handle_from lib now m db (some source) =
    if is_processed (inbox_key lib source m) db.service_inbox
    then (db, none)
    else finish_message lib now source m db (apply_message lib now source m db)

-- `handle_incoming_message`; a raise leaves the tables as they were
unfoldable pub handle_incoming_message :
    Libraries → ℕ → Fields → Database → Database × Option Notice
handle_incoming_message lib now m db = handle_from lib now m db (source_service m)
