-- ===== src/Consumer/Commands.antt =====
-- What messages do to the table of commands.
use internal_portal_ceo_dash.Base.{
  ℕ, String, ◌≡◌, ◌≢◌, refl, ◌∙◌, true, false, Bool-cases, Option-cases, inl, inr, Option, none,
  some, List, [], ◌∷◌, ◌==◌, map, arith, str_eq, if◌then◌else◌,
}
use mathlib.Core.Option
use internal_portal_ceo_dash.Base.Text.{upper}
use internal_portal_ceo_dash.Base.Json.{get_or, Json, Fields, null}
use internal_portal_ceo_dash.Envelopes.{CommandResultEnvelope}
use internal_portal_ceo_dash.Tables.{find_command, CommandRow, Database}
use internal_portal_ceo_dash.Consumer.{
  Libraries, fail_code, is_text, finish_command, finish_commands, apply_message,
  handle_incoming_message, handle_from, source_service, inbox_key, is_processed,
}
use internal_portal_ceo_dash.Consumer.Inbox.{accepted}
use internal_portal_ceo_dash.Consumer.Steps.{handle_all, apply_result-commands, message-commands}

-- what a row says of the outcome
pub record Outcome : Type 0 where
  pub status : String
  pub failure_code : Option String
  pub completed_at : Option ℕ

abbrev pub outcome : CommandRow → Outcome
outcome c = record {
  status = c.status;
  failure_code = c.failure_code;
  completed_at = c.completed_at;
}

-- what was asked for with a command
pub record Request : Type 0 where
  pub command_id : ℕ
  pub idempotency_key : Option String
  pub target_service : String
  pub resource_type : String
  pub resource_id : String
  pub command_type : String
  pub payload : Json
  pub expected_source_version : Option ℕ
  pub requested_by_user_id : String
  pub correlation_id : Option String
  pub dispatched_at : Option ℕ

unfoldable pub request_of : CommandRow → Request
request_of c = record {
  command_id = c.command_id;
  idempotency_key = c.idempotency_key;
  target_service = c.target_service;
  resource_type = c.resource_type;
  resource_id = c.resource_id;
  command_type = c.command_type;
  payload = c.payload;
  expected_source_version = c.expected_source_version;
  requested_by_user_id = c.requested_by_user_id;
  correlation_id = c.correlation_id;
  dispatched_at = c.dispatched_at;
}

finish-request :
    (now id : ℕ) (e : CommandResultEnvelope) (rows : List CommandRow)
    → map request_of (map (finish_command now id e) rows) ≡ map request_of rows
unfolding finish_command request_of
finish-request now id e [] = refl
finish-request now id e (c ∷ rows) = ground (arith, finish-request now id e rows)

finish_commands-request :
    (lib : Libraries) (now : ℕ) (e : CommandResultEnvelope) (rows : List CommandRow)
    → map request_of (finish_commands lib now e rows) ≡ map request_of rows
unfolding finish_commands
finish_commands-request lib now e rows = elim (Bool-cases (str_eq e.command_id "")) [
  | inl empty ↦ rw empty
  | inr given ↦ rw given (elim (Option-cases (lib.uuid e.command_id)) [
    | inl bad ↦ rw bad
    | inr (id, good) ↦ rw good (finish-request now id e rows)
  ])
]

handle-request :
    (lib : Libraries) (now : ℕ) (m : Fields) (db : Database)
    → map request_of (handle_incoming_message lib now m db).0.service_commands
      ≡ map request_of db.service_commands
unfolding handle_incoming_message handle_from
handle-request lib now m db = elim (Option-cases (source_service m)) [
  | inl bad ↦ rw bad
  | inr (source, good) ↦
      rw good (elim (Bool-cases (is_processed (inbox_key lib source m) db.service_inbox)) [
        | inl old ↦ rw old
        | inr new ↦ rw new (elim (Option-cases (apply_message lib now source m db)) [
          | inl stop ↦ rw stop
          | inr ((db', s), e) ↦ rw e (elim (message-commands lib now db source m db' s e) [
            | inl same ↦ rw same
            | inr (r, same) ↦ rw same (finish_commands-request lib now r db.service_commands)
          ])
        ])
      ])
]

-- No sequence of messages adds a command, removes or reorders one, or changes what was asked for
-- with it: its identifiers, its target, its type, its payload and when it was dispatched.
requests_kept :
    (lib : Libraries) (ms : List (ℕ × Fields)) (db : Database)
    → map request_of (handle_all lib ms db).service_commands ≡ map request_of db.service_commands
unfolding handle_all
requests_kept lib [] db = refl
requests_kept lib ((now, m) ∷ ms) db =
    requests_kept lib ms (handle_incoming_message lib now m db).0 ∙ handle-request lib now m db

-- the outcome that a result reports
abbrev pub reported : ℕ → CommandResultEnvelope → Outcome
reported now e = record {
  status = upper e.result;
  failure_code = fail_code e.failure;
  completed_at = some now;
}

finish-outcome :
    (now id k : ℕ) (e : CommandResultEnvelope) (rows : List CommandRow)
    → Option.map outcome (find_command k (map (finish_command now id e) rows))
      ≡ Option.map (λ c. if k == id then reported now e else outcome c) (find_command k rows)
unfolding find_command finish_command
finish-outcome now id k e [] = refl
finish-outcome now id k e (c ∷ rows) = ground (arith, finish-outcome now id k e rows)

-- a command's result that the consumer takes, and the command that it is about
pub record IsTaken (lib : Libraries) (m : Fields) (db : Database) (e : CommandResultEnvelope)
    (id : ℕ) : Type 0 where
  pub source : String
  pub sent_by : source_service m ≡ some source
  pub fresh : is_processed (inbox_key lib source m) db.service_inbox ≡ false
  pub kind : is_text "command_result" (get_or "message_type" null m) ≡ true
  pub parsed : lib.result_envelope m ≡ some e
  pub named : str_eq e.command_id "" ≡ false
  pub identified : lib.uuid e.command_id ≡ some id

taken-table :
    (lib : Libraries) (now id : ℕ) (m : Fields) (db : Database) (e : CommandResultEnvelope)
    → IsTaken lib m db e id
    → (handle_incoming_message lib now m db).0.service_commands
      ≡ map (finish_command now id e) db.service_commands
unfolding handle_incoming_message handle_from apply_message finish_commands
taken-table lib now id m db e h =
    rw (h.sent_by, h.fresh, h.kind, h.parsed, apply_result-commands, h.named, h.identified)

taken-told :
    (lib : Libraries) (now id : ℕ) (m : Fields) (db : Database) (e : CommandResultEnvelope)
    → IsTaken lib m db e id
    → (handle_incoming_message lib now m db).1 ≢ none
unfolding handle_incoming_message handle_from apply_message
taken-told lib now id m db e h = rw (h.sent_by, h.fresh, h.kind, h.parsed) (λ q. cc)

-- A fresh result gives the command that it names the status that it reports, in upper case, with
-- the code of its failure and the time, and leaves the outcome of every other command as it was; it
-- is recorded in the inbox in the same transaction, and reaches the browsers.
pub result_finishes :
    (lib : Libraries) (now id k : ℕ) (m : Fields) (db : Database) (e : CommandResultEnvelope)
    (h : IsTaken lib m db e id)
    → let (after, told) = handle_incoming_message lib now m db in
      (Option.map outcome (find_command k after.service_commands)
        ≡ Option.map
            (λ c. if k == id then reported now e else outcome c)
            (find_command k db.service_commands))
      × (is_processed (inbox_key lib h.source m) after.service_inbox ≡ true)
      × (told ≢ none)
result_finishes lib now id k m db e h = (
  rw (taken-table lib now id m db e h) (finish-outcome now id k e db.service_commands),
  accepted lib now m db h.source h.sent_by (taken-told lib now id m db e h),
  taken-told lib now id m db e h,
)
