-- ===== src/MaProcessor/Tests.antt =====
-- Runs of the M&A command processor, with a command 7 whose result the consumer takes.
use internal_portal_ceo_dash.Base.{◌≡◌, refl, false, none, some, [], ◌∷◌, str_eq, if◌then◌else◌}
use mathlib.Core.Option
use internal_portal_ceo_dash.Base.Text.{lower}
use internal_portal_ceo_dash.Base.Json.{str, Fields, end, field, get_field}
use internal_portal_ceo_dash.Consumer
use internal_portal_ceo_dash.Consumer.{handle_incoming_message, is_processed, source_service}
use internal_portal_ceo_dash.Consumer.Commands.{IsTaken, Outcome, outcome}
use internal_portal_ceo_dash.Envelopes.{CommandEnvelope}
use internal_portal_ceo_dash.Tables.{find_command, CommandRow, Database}
use internal_portal_ceo_dash.MaProcessor.{
  Libraries, service_timeout, Published, answer, publication, process_parsed, process_command,
}
use internal_portal_ceo_dash.MaProcessor.Commands.{IsFinal, processed_command_ends}

abbrev command : CommandEnvelope
command = record {
  schema_version = 1;
  message_type = "command";
  command_id = "7";
  command_type = "transition_deal_stage";
  target_service = "ma";
  resource_type = "deal";
  resource_id = "d1";
  expected_source_version = none;
  requested_by = record { user_id = "u1"; display_name = some "CEO"; email = none };
  payload = field "stage" (str "closing") end;
  correlation_id = some "c1";
}

abbrev libraries : Libraries
libraries = record {
  command_envelope = λ m. some command;
  uuid = λ s. if str_eq s "7" then some 7 else none;
  iso = λ t. "2026";
  error_text = λ d. "error";
}

abbrev row : CommandRow
row = record {
  command_id = 7;
  idempotency_key = none;
  target_service = "ma";
  resource_type = "deal";
  resource_id = "d1";
  command_type = "TRANSITION_DEAL_STAGE";
  payload = str "";
  expected_source_version = none;
  requested_by_user_id = "u1";
  requested_by_display_name = none;
  status = "SUCCEEDED";
  failure_code = none;
  failure_message = none;
  retryable = false;
  correlation_id = some "c1";
  dispatched_at = some 5;
  processing_at = some 6;
  completed_at = some 7;
  updated_at = 7;
}

abbrev database : Database
database = record {
  service_commands = row ∷ [];
  service_outbox = [];
  service_inbox = [];
  projections = [];
  audit_logs = [];
}

-- what is published while the service is offline
abbrev timed_out : Published
timed_out = publication command service_timeout none

offline_run : (process_command libraries 10 false end database).1 ≡ some timed_out
unfolding process_command process_parsed answer
offline_run = refl

abbrev consumer_libraries : Consumer.Libraries
consumer_libraries = record {
  other_text = λ v. "?";
  uuid = λ s. if str_eq s "7" then some 7 else none;
  result_envelope = λ m. some timed_out.envelope;
  event_envelope = λ m. none;
}

abbrev message : Fields
message = field "message_type" (str "command_result") (
    field "source_service" (str "ma")
      (field "command_id" (str "7") (field "correlation_id" (str "c1") end)))

taken :
    IsTaken consumer_libraries message
      (process_command libraries 10 false end database).0
      timed_out.envelope
      7
unfolding process_command process_parsed is_processed get_field source_service lower
taken = record {
  source = "ma";
  sent_by = refl;
  fresh = refl;
  kind = refl;
  parsed = refl;
  named = refl;
  identified = refl;
}

processed_command_ends_example :
    let before = (process_command libraries 10 false end database).0 in
    let after = (handle_incoming_message consumer_libraries 20 message before).0 in
    (o : Outcome) × IsFinal o
    × (o.completed_at ≡ some 20)
    × (Option.map outcome (find_command 7 after.service_commands)
        ≡ Option.map (λ c. o) (find_command 7 before.service_commands))
processed_command_ends_example =
    processed_command_ends libraries 10 false end database command timed_out consumer_libraries 20 7
      message refl offline_run taken
