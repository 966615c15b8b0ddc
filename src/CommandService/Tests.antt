-- ===== src/CommandService/Tests.antt =====
-- Runs of the command service, with one deal's command.
use internal_portal_ceo_dash.Base.{
  ℕ, ◌≡◌, refl, true, false, none, some, [], ◌∷◌, str_eq, if◌then◌else◌,
}
use internal_portal_ceo_dash.Base.Json.{obj, str, end, field}
use internal_portal_ceo_dash.Base.Text.{lower, upper}
use internal_portal_ceo_dash.Base.Dict.{get, put}
use internal_portal_ceo_dash.Connectors
use internal_portal_ceo_dash.Connectors.Ma
use internal_portal_ceo_dash.Connectors.{
  get_by_service, connector_registry, register, register_commands,
}
use internal_portal_ceo_dash.CommandService.Optimistic.{Libraries}
use internal_portal_ceo_dash.CommandService.{
  Drawn, Submission, Receipt, queued, new_command, submit_command, retry_command, submit_to,
  submit_valid, validate, submit_checked, existing, find_idempotent, persist, violates_unique,
  commit, expect,
}
use internal_portal_ceo_dash.CommandService.Submitting.{
  Ends, TellsOf, submit-Ends, submit_all, key_once,
}
use internal_portal_ceo_dash.CommandService.Retrying.{RetryEnds, retry-Ends}
use internal_portal_ceo_dash.Outbox.{confirmed, Turn}
use internal_portal_ceo_dash.Tables.{CommandRow, Database}

abbrev libraries : Libraries
libraries = record {
  validated = λ schema payload. some payload;
  uuid = λ s. if str_eq s "7" then some 7 else none;
  uuid_text = λ n. "7";
  iso = λ t. "2026";
  other_text = λ v. "value";
  same_values = λ v w. false;
  whole = λ s. none;
}

abbrev drawn : Drawn
drawn = record {
  now = 5;
  command_id = 7;
  event_id = 70;
  outbox_id = 1;
  correlation = "c1";
  nonce = "n1";
}

abbrev later : Drawn
later = record {
  now = 9;
  command_id = 8;
  event_id = 80;
  outbox_id = 2;
  correlation = "c2";
  nonce = "n2";
}

abbrev submission : Submission
submission = record {
  target_service = "MA";
  resource_type = "Deal";
  resource_id = "d1";
  command_type = "transition_deal_stage";
  payload = field "stage" (str "closing") end;
  user = record { user_id = "u1"; display_name = some "CEO"; email = none };
  expected_source_version = none;
  idempotency_key = some "k1";
  correlation_id = none;
}

abbrev empty : Database
empty = record {
  service_commands = [];
  service_outbox = [];
  service_inbox = [];
  projections = [];
  audit_logs = [];
}

abbrev told : Receipt
told = record {
  command_id = 7;
  target_service = "ma";
  resource_type = "deal";
  resource_id = "d1";
  command_type = "TRANSITION_DEAL_STAGE";
  status = "QUEUED";
  failure_code = none;
  failure_message = none;
}

submit_test : (submit_command libraries "commands" drawn submission empty).1 ≡ queued told
unfolding submit_command submit_to get_by_service get connector_registry put lower submit_valid
    validate Connectors.get_command_schema Ma.get_command_schema upper submit_checked existing
    find_idempotent persist violates_unique commit expect register register_commands
    Connectors.service_name Connectors.supported_command_types new_command
submit_test = refl

submit-Ends_example :
    Ends libraries "commands" drawn submission empty
      (submit_command libraries "commands" drawn submission empty)
submit-Ends_example = submit-Ends libraries "commands" drawn submission empty

abbrev other : Submission
other = record submission { resource_id = "d2"; idempotency_key = some "k2" }

key_once_example :
    let db =
      submit_all libraries "commands"
        ((later, other) ∷ [])
        (submit_command libraries "commands" drawn submission empty).0 in
    ((submit_command libraries "commands" later submission db).0 ≡ db)
    × TellsOf told (submit_command libraries "commands" later submission db).1
key_once_example =
    key_once libraries "commands" "k1" drawn later submission submission ((later, other) ∷ []) empty
      told refl refl refl submit_test

abbrev failed_row : CommandRow
failed_row = record {
  command_id = 7;
  idempotency_key = some "k1";
  target_service = "ma";
  resource_type = "deal";
  resource_id = "d1";
  command_type = "TRANSITION_DEAL_STAGE";
  payload = obj (field "stage" (str "closing") end);
  expected_source_version = none;
  requested_by_user_id = "u1";
  requested_by_display_name = none;
  status = "FAILED";
  failure_code = none;
  failure_message = none;
  retryable = true;
  correlation_id = some "c1";
  dispatched_at = none;
  processing_at = none;
  completed_at = some 4;
  updated_at = 4;
}

abbrev stopped : Database
stopped = record empty { service_commands = failed_row ∷ [] }

retry-Ends_example :
    RetryEnds libraries "commands" later "7" submission.user stopped
      (retry_command libraries "commands" later "7" submission.user stopped)
retry-Ends_example = retry-Ends libraries "commands" later "7" submission.user stopped

abbrev delivering : ℕ → Turn
delivering i = record { running = true; publish = confirmed }
