-- ===== src/AdminProcessor/Tests.antt =====
-- Runs of the administration's command processor, with a command to reject a request.
use internal_portal_ceo_dash.Base.{
  ◌≡◌, refl, true, false, none, some, [], ◌∷◌, str_eq, if◌then◌else◌,
}
use internal_portal_ceo_dash.Base.Json.{bool, obj, end, field}
use internal_portal_ceo_dash.Envelopes.{CommandEnvelope}
use internal_portal_ceo_dash.MaProcessor.{Published}
use internal_portal_ceo_dash.Tables.{Database, CommandRow}
use internal_portal_ceo_dash.AdminProcessor.Remote.{Libraries, answered}
use internal_portal_ceo_dash.AdminProcessor.{
  process_command, envelope_again, recover_unprocessed_commands,
}
use internal_portal_ceo_dash.AdminProcessor.Results.{Answers, process-Answers}

abbrev command : CommandEnvelope
command = record {
  schema_version = 1;
  message_type = "command";
  command_id = "7";
  command_type = "reject_request";
  target_service = "administration";
  resource_type = "request";
  resource_id = "r1";
  expected_source_version = none;
  requested_by = record { user_id = "u1"; display_name = some "CEO"; email = none };
  payload = end;
  correlation_id = some "c1";
}

abbrev libraries : Libraries
libraries = record {
  command_envelope = λ m. some command;
  uuid = λ s. if str_eq s "7" then some 7 else none;
  uuid_text = λ n. "7";
  iso = λ t. "2026";
  error_text = λ v. "error";
  execute_purchase_transition = λ id action note. answered (field "success" (bool true) end);
  has_token = true;
  put = λ c. some 404;
  post = λ c. some 201;
  fresh_list = λ c. none;
}

abbrev row : CommandRow
row = record {
  command_id = 7;
  idempotency_key = none;
  target_service = "administration";
  resource_type = "request";
  resource_id = "r1";
  command_type = "REJECT_REQUEST";
  payload = obj end;
  expected_source_version = none;
  requested_by_user_id = "u1";
  requested_by_display_name = some "CEO";
  status = "QUEUED";
  failure_code = none;
  failure_message = none;
  retryable = false;
  correlation_id = some "c1";
  dispatched_at = none;
  processing_at = none;
  completed_at = none;
  updated_at = 1;
}

abbrev database : Database
database = record {
  service_commands = row ∷ [];
  service_outbox = [];
  service_inbox = [];
  projections = [];
  audit_logs = [];
}

process-Answers_example :
    (p : Published) × ((process_command libraries 10 false end database).1 ≡ some p)
    × Answers command p
process-Answers_example = process-Answers libraries 10 false end database command refl

-- a queued command is scheduled twice
recovered_twice :
    recover_unprocessed_commands libraries (row ∷ [])
    ≡ envelope_again libraries row ∷ envelope_again libraries row ∷ []
unfolding recover_unprocessed_commands
recovered_twice = refl
