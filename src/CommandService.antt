-- ===== src/CommandService.antt =====
-- `CommandService` of services/integration/command_service.py. What a call draws, the time, fresh
-- identifiers and the next number of the outbox, comes in a `Drawn`. A reply holds no message texts.
-- Of the database's failures only the violation of the unique idempotency key is modelled.
pub mod Optimistic
pub mod Assignments
pub mod Submitting
pub mod Retrying
pub mod Dispatching
mod Tests
use Prim.Native.String
use internal_portal_ceo_dash.Base.{
  ℕ, String, Bool, true, false, not, ◌&&◌, Option, none, some, List, [], ◌∷◌, ◌++◌, any, ◌==◌,
  str_eq, str_in, if◌then◌else◌,
}
use internal_portal_ceo_dash.Base.Text.{lower, upper}
use internal_portal_ceo_dash.Base.Json.{Json, null, bool, num, str, arr, obj, Fields, end, field}
use internal_portal_ceo_dash.CommandService.Optimistic.{Libraries, expect_request}
use internal_portal_ceo_dash.CommandService.Assignments.{expect_assignment}
use internal_portal_ceo_dash.Connectors.{
  Connector, connector_registry, get_by_service, get_command_schema, get_routing_key,
}
use internal_portal_ceo_dash.Envelopes.{CommandEnvelope, UserContext, text_json}
use internal_portal_ceo_dash.Tables.{
  find_command, CommandRow, OutboxRow, pending, ProjectionRow, Database,
}

-- what a call draws; `nonce` is the second random identifier of a retry
pub record Drawn : Type 0 where
  pub now : ℕ
  pub command_id : ℕ
  pub event_id : ℕ
  pub outbox_id : ℕ
  pub correlation : String
  pub nonce : String

-- the arguments of `submit_command`
pub record Submission : Type 0 where
  pub target_service : String
  pub resource_type : String
  pub resource_id : String
  pub command_type : String
  pub payload : Fields
  pub user : UserContext
  pub expected_source_version : Option ℕ
  pub idempotency_key : Option String
  pub correlation_id : Option String

-- what is told of a command
pub record Receipt : Type 0 where
  pub command_id : ℕ
  pub target_service : String
  pub resource_type : String
  pub resource_id : String
  pub command_type : String
  pub status : String
  pub failure_code : Option String
  pub failure_message : Option String

-- A call returns what it tells of a command, raises an HTTP error, or raises something else.
pub data Reply : Type 0 where
  queued known : Receipt → Reply
  refused : ℕ → Reply
  crashed : Reply

-- a text or none that counts as true
abbrev pub is_given : Option String → Bool
is_given none = false
is_given (some s) = not (str_eq s "")

-- `correlation_id or str(uuid4())`
abbrev pub given_or : String → Option String → String
given_or d none = d
given_or d (some s) = if str_eq s "" then d else s

abbrev pub has_idempotency_key : String → CommandRow → Bool
has_idempotency_key k c = elim c.idempotency_key [ none ↦ false | some j ↦ str_eq j k ]

-- `SELECT … FROM service_commands WHERE idempotency_key = $1`
unfoldable pub find_idempotent : String → List CommandRow → Option CommandRow
find_idempotent k [] = none
find_idempotent k (c ∷ rows) = if has_idempotency_key k c then some c else find_idempotent k rows

-- the check is made only for a key that is not empty
unfoldable pub existing : Option String → List CommandRow → Option CommandRow
existing none rows = none
existing (some k) rows = if str_eq k "" then none else find_idempotent k rows

-- whether the unique column holds the key, the empty one included
unfoldable pub violates_unique : Option String → List CommandRow → Bool
violates_unique none rows = false
violates_unique (some k) rows = any (has_idempotency_key k) rows

abbrev pub receipt_of : CommandRow → Receipt
receipt_of c = record {
  command_id = c.command_id;
  target_service = c.target_service;
  resource_type = c.resource_type;
  resource_id = c.resource_id;
  command_type = c.command_type;
  status = c.status;
  failure_code = c.failure_code;
  failure_message = c.failure_message;
}

-- `CommandEnvelope(...)`
unfoldable pub envelope_of : Libraries → Drawn → Submission → Fields → CommandEnvelope
envelope_of lib drawn s payload = record {
  schema_version = 1;
  message_type = "command";
  command_id = lib.uuid_text drawn.command_id;
  command_type = upper s.command_type;
  target_service = lower s.target_service;
  resource_type = lower s.resource_type;
  resource_id = s.resource_id;
  expected_source_version = s.expected_source_version;
  requested_by = s.user;
  payload = payload;
  correlation_id = some (given_or drawn.correlation s.correlation_id);
}

abbrev number_json : Option ℕ → Json
number_json none = null
number_json (some n) = num n

-- `model_dump(mode="json")`, with the time of the request last
unfoldable pub dump_envelope : Libraries → ℕ → CommandEnvelope → Fields
dump_envelope lib now e = field "schema_version" (num e.schema_version) (
    field "message_type" (str e.message_type) (
      field "command_id" (str e.command_id) (
        field "command_type" (str e.command_type) (
          field "target_service" (str e.target_service) (
            field "resource_type" (str e.resource_type) (
              field "resource_id" (str e.resource_id) (
                field "expected_source_version" (number_json e.expected_source_version) (
                  field "requested_by"
                    (obj (
                      field "user_id" (str e.requested_by.user_id) (
                        field "display_name" (text_json e.requested_by.display_name)
                          (field "email" (text_json e.requested_by.email) end))))
                    (field "payload" (obj e.payload) (
                      field "correlation_id" (text_json e.correlation_id)
                        (field "requested_at" (str (lib.iso now)) end)))))))))))

-- `INSERT INTO service_commands`
unfoldable pub new_command : Drawn → Submission → Fields → CommandRow
new_command drawn s payload = record {
  command_id = drawn.command_id;
  idempotency_key = s.idempotency_key;
  target_service = lower s.target_service;
  resource_type = lower s.resource_type;
  resource_id = s.resource_id;
  command_type = upper s.command_type;
  payload = obj payload;
  expected_source_version = s.expected_source_version;
  requested_by_user_id = s.user.user_id;
  requested_by_display_name = s.user.display_name;
  status = "QUEUED";
  failure_code = none;
  failure_message = none;
  retryable = false;
  correlation_id = some (given_or drawn.correlation s.correlation_id);
  dispatched_at = none;
  processing_at = none;
  completed_at = none;
  updated_at = drawn.now;
}

-- `INSERT INTO service_outbox`, to the exchange of commands
unfoldable pub new_outbox : Libraries → String → Drawn → Connector → Submission → Fields → OutboxRow
new_outbox lib exchange drawn c s payload = record {
  id = drawn.outbox_id;
  event_id = drawn.event_id;
  command_id = some drawn.command_id;
  exchange_name = exchange;
  routing_key = get_routing_key c (upper s.command_type) (lower s.resource_type);
  payload = obj (dump_envelope lib drawn.now (envelope_of lib drawn s payload));
  status = pending;
  retry_count = 0;
  last_error = none;
  created_at = drawn.now;
  published_at = none;
}

-- the projections that the transaction leaves
unfoldable pub expect :
    Libraries → ℕ → Submission → Fields → List ProjectionRow → Option (List ProjectionRow)
expect lib now s payload ps =
    if str_eq (lower s.target_service) "administration"
    then if str_in (lower s.resource_type) ("request" ∷ "purchase_request" ∷ [])
      then expect_request lib now s.resource_id (upper s.command_type) payload s.user ps
      else if str_eq (lower s.resource_type) "workflow_assignment"
      then expect_assignment lib now s.resource_id payload ps
      else some ps
    else some ps

-- the end of the transaction, given its projections
unfoldable pub commit :
    Libraries
    → String
    → Drawn
    → Connector
    → Submission
    → Fields
    → Database
    → Option (List ProjectionRow)
    → Database × Reply
commit lib exchange drawn c s payload db none = (db, crashed)
commit lib exchange drawn c s payload db (some ps) = (
  record db {
    service_commands = db.service_commands ++ new_command drawn s payload ∷ [];
    service_outbox = db.service_outbox ++ new_outbox lib exchange drawn c s payload ∷ [];
    projections = ps;
  },
  queued (receipt_of (new_command drawn s payload)),
)

-- the transaction
unfoldable pub persist :
    Libraries → String → Drawn → Connector → Submission → Fields → Database → Database × Reply
persist lib exchange drawn c s payload db =
    if violates_unique s.idempotency_key db.service_commands
    then (db, crashed)
    else commit lib exchange drawn c s payload db (expect lib drawn.now s payload db.projections)

-- the idempotency check
unfoldable pub submit_checked :
    Libraries
    → String
    → Drawn
    → Connector
    → Submission
    → Fields
    → Database
    → Option CommandRow
    → Database × Reply
submit_checked lib exchange drawn c s payload db (some row) = (db, known (receipt_of row))
submit_checked lib exchange drawn c s payload db none = persist lib exchange drawn c s payload db

-- `validated_payload`
unfoldable pub validate : Libraries → Option String → Fields → Option Fields
validate lib none payload = some payload
validate lib (some schema) payload = lib.validated schema payload

unfoldable pub submit_valid :
    Libraries
    → String
    → Drawn
    → Connector
    → Submission
    → Database
    → Option Fields
    → Database × Reply
submit_valid lib exchange drawn c s db none = (db, refused 422)
submit_valid lib exchange drawn c s db (some payload) =
    submit_checked lib exchange drawn c s payload db
      (existing s.idempotency_key db.service_commands)

unfoldable pub submit_to :
    Libraries → String → Drawn → Submission → Database → Option Connector → Database × Reply
submit_to lib exchange drawn s db none = (db, refused 400)
submit_to lib exchange drawn s db (some c) =
    submit_valid lib exchange drawn c s db
      (validate lib (get_command_schema c (upper s.command_type)) s.payload)

-- `submit_command`
unfoldable pub submit_command :
    Libraries → String → Drawn → Submission → Database → Database × Reply
submit_command lib exchange drawn s db =
    submit_to lib exchange drawn s db (get_by_service (lower s.target_service) connector_registry)

-- How `get_command_status` ends: with the row that it dumps, with `None`, or with an HTTP error.
pub data Tracking : Type 0 where
  tracked : CommandRow → Tracking
  untracked : Tracking
  no_uuid : Tracking

abbrev pub tracking : Option CommandRow → Tracking
tracking none = untracked
tracking (some c) = tracked c

abbrev pub track : Option ℕ → List CommandRow → Tracking
track none rows = no_uuid
track (some id) rows = tracking (find_command id rows)

unfoldable pub get_command_status : Libraries → String → Database → Tracking
get_command_status lib command_id db = track (lib.uuid command_id) db.service_commands

-- what `retry_command` submits for a row with this payload
unfoldable pub resubmission : Drawn → String → UserContext → CommandRow → Fields → Submission
resubmission drawn command_id user c payload = record {
  target_service = c.target_service;
  resource_type = c.resource_type;
  resource_id = c.resource_id;
  command_type = c.command_type;
  payload = payload;
  user = user;
  expected_source_version = c.expected_source_version;
  idempotency_key =
      some (String.◌++◌ "retry-" (String.◌++◌ command_id (String.◌++◌ "-" drawn.nonce)));
  correlation_id = c.correlation_id;
}

-- Every row's payload is an object, as `submit_command` alone inserts rows. What is not an object
-- cannot be spread over a schema, nor stand in an envelope.
abbrev pub spread_error : Option String → Reply
spread_error none = crashed
spread_error (some schema) = refused 422

abbrev unspreadable : String → Option Connector → Reply
unspreadable command_type none = refused 400
unspreadable command_type (some c) = spread_error (get_command_schema c (upper command_type))

unfoldable pub resubmit :
    Libraries
    → String
    → Drawn
    → String
    → UserContext
    → CommandRow
    → Database
    → Json
    → Database × Reply
resubmit lib exchange drawn command_id user c db (obj payload) =
    submit_command lib exchange drawn (resubmission drawn command_id user c payload) db
resubmit lib exchange drawn command_id user c db v =
    (db, unspreadable c.command_type (get_by_service (lower c.target_service) connector_registry))

unfoldable pub retry_tracked :
    Libraries → String → Drawn → String → UserContext → Database → Tracking → Database × Reply
retry_tracked lib exchange drawn command_id user db no_uuid = (db, refused 400)
retry_tracked lib exchange drawn command_id user db untracked = (db, refused 404)
retry_tracked lib exchange drawn command_id user db (tracked c) =
    if str_in c.status ("FAILED" ∷ "CANCELLED" ∷ [])
    then resubmit lib exchange drawn command_id user c db c.payload
    else (db, refused 400)

-- `retry_command`
unfoldable pub retry_command :
    Libraries → String → Drawn → String → UserContext → Database → Database × Reply
retry_command lib exchange drawn command_id user db =
    retry_tracked lib exchange drawn command_id user db (get_command_status lib command_id db)
