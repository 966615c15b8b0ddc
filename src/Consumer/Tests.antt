-- ===== src/Consumer/Tests.antt =====
-- Runs of the result consumer: a result for command 7, which the administration sends.
use internal_portal_ceo_dash.Base.{
  ℕ, String, ◌≡◌, ◌≢◌, refl, true, false, none, some, [], ◌∷◌, str_eq, ◌==◌, if◌then◌else◌,
}
use mathlib.Core.Option
use internal_portal_ceo_dash.Base.Text.{lower}
use internal_portal_ceo_dash.Base.Json.{null, str, Fields, end, field, get_field}
use internal_portal_ceo_dash.Envelopes.{CommandResultEnvelope}
use internal_portal_ceo_dash.Tables.{find_command, CommandRow, Database}
use internal_portal_ceo_dash.Consumer.{
  Libraries, source_service, inbox_key, is_processed, handle_incoming_message,
}
use internal_portal_ceo_dash.Consumer.Steps.{handle_all}
use internal_portal_ceo_dash.Consumer.Inbox.{
  IsSameRequest, redelivery_ignored, same_request_dropped,
}
use internal_portal_ceo_dash.Consumer.Commands.{IsTaken, outcome, reported, result_finishes}

abbrev envelope : CommandResultEnvelope
envelope = record {
  schema_version = 1;
  message_type = "command_result";
  command_id = "7";
  command_type = "APPROVE_REQUEST";
  source_service = "administration";
  resource_type = "request";
  resource_id = "41";
  result = "succeeded";
  source_status = some "APPROVED";
  source_version = none;
  failure = none;
  correlation_id = some "c1";
  projection_update = none;
}

abbrev libraries : Libraries
libraries = record {
  other_text = λ v. "?";
  uuid = λ s. if str_eq s "7" then some 7 else none;
  result_envelope = λ m. some envelope;
  event_envelope = λ m. none;
}

-- the message of a result for the command `id`
abbrev result_of : String → Fields
result_of id = field "message_type" (str "command_result") (
    field "source_service" (str "Administration")
      (field "command_id" (str id) (field "correlation_id" (str "c1") end)))

abbrev command : ℕ → CommandRow
command id = record {
  command_id = id;
  idempotency_key = none;
  target_service = "administration";
  resource_type = "request";
  resource_id = "41";
  command_type = "APPROVE_REQUEST";
  payload = null;
  expected_source_version = none;
  requested_by_user_id = "u1";
  requested_by_display_name = none;
  status = "DISPATCHED";
  failure_code = none;
  failure_message = none;
  retryable = false;
  correlation_id = some "c1";
  dispatched_at = some 5;
  processing_at = none;
  completed_at = none;
  updated_at = 5;
}

abbrev database : Database
database = record {
  service_commands = command 7 ∷ command 8 ∷ [];
  service_outbox = [];
  service_inbox = [];
  projections = [];
  audit_logs = [];
}

sent_by : (id : String) → source_service (result_of id) ≡ some "administration"
unfolding source_service lower get_field
sent_by id = refl

taken : IsTaken libraries (result_of "7") database envelope 7
unfolding is_processed get_field
taken = record {
  source = "administration";
  sent_by = sent_by "7";
  fresh = refl;
  kind = refl;
  parsed = refl;
  named = refl;
  identified = refl;
}

arrives : (handle_incoming_message libraries 10 (result_of "7") database).1 ≢ none
arrives = (result_finishes libraries 10 7 7 (result_of "7") database envelope taken).2

result_finishes_example :
    let (after, told) = handle_incoming_message libraries 10 (result_of "7") database in
    (Option.map outcome (find_command 8 after.service_commands)
      ≡ Option.map
          (λ c. if 8 == 7 then reported 10 envelope else outcome c)
          (find_command 8 database.service_commands))
    × (is_processed (inbox_key libraries "administration" (result_of "7")) after.service_inbox
        ≡ true)
    × (told ≢ none)
unfolding taken
result_finishes_example = result_finishes libraries 10 7 8 (result_of "7") database envelope taken

redelivery_ignored_example :
    let db' =
      handle_all libraries
        ((11, result_of "8") ∷ [])
        (handle_incoming_message libraries 10 (result_of "7") database).0 in
    handle_incoming_message libraries 12 (result_of "7") db' ≡ (db', none)
redelivery_ignored_example =
    redelivery_ignored libraries 10 12 (result_of "7") ((11, result_of "8") ∷ []) database
      "administration" (sent_by "7") arrives

-- the result of the retried command 8 has the correlation id of command 7
same_request : IsSameRequest libraries (result_of "7") (result_of "8")
unfolding source_service get_field
same_request = record { source = refl; kind = refl; correlation = refl; correlated = refl }

same_request_dropped_example :
    let db' =
      handle_all libraries [] (handle_incoming_message libraries 10 (result_of "7") database).0 in
    handle_incoming_message libraries 12 (result_of "8") db' ≡ (db', none)
same_request_dropped_example =
    same_request_dropped libraries 10 12 (result_of "7") (result_of "8") [] database
      "administration" (sent_by "7") same_request arrives
