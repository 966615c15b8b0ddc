-- ===== src/Lib.antt =====
-- The command and presence core of the CEO dashboard's backend.
--
-- The dashboard talks to two remote services, the administration portal and the M&A system. It
-- keeps their availability (services/integration/service_status_registry.py), guards calls to
-- them by circuit breakers and a cache (services/integration/integration_resilience.py), sends
-- them commands (services/integration/command_service.py) through an outbox table
-- (services/integration/outbox_publisher.py), and takes in
-- their results and events with an inbox table (services/integration/result_consumer.py), by
-- the connectors (services/integration/connectors/), into projections that readers see
-- (services/integration/projection_service.py). Other applications call in through the scope
-- guard (services/shared/service_security_policy.py).
--
-- Base and its children hold the shared tests, lists, dictionaries, texts and JSON values.
-- - Circuit: `CircuitBreaker` of integration_resilience.py, each method a function on its state,
--   and `on_event`/`after` for any sequence of calls. Invariant, Trips and Recovery hold the proofs.
-- - Registry: `ServiceStatusRegistry`; Names has the aliases; Aggregate, Laws and Presence the
--   proofs, the last over any sequence of reports and connection changes.
-- - Call: `ResilientCache` and `execute_resilient_call`, over Circuit and Registry.
-- - Policy: `require_application_scope` with the matrix of trusted applications;
--   Outbound has the tokens that the module generates.
-- - Tables: the rows of postgresql_db/schemas/cross_service_schema.py.
-- - Outbox: `OutboxPublisher.process_outbox_batch` on the tables.
-- - Envelopes: the message types of connectors/base_connector.py.
-- - Projections: the upserts of the projection table and `get_projection`.
-- - Connectors: the connector registry, with the two connectors in Admin and Ma and the parts
--   that they have in common in Shared.
-- - CommandService: `CommandService.submit_command`, `get_command_status` and `retry_command`
--   (services/integration/command_service.py), over Connectors, Tables and Projections; Optimistic
--   and Assignments have the projections that a submission writes, and Submitting, Retrying and
--   Dispatching the proofs, the last one with Outbox.
-- - Consumer: `ResultConsumer.handle_incoming_message`, over Connectors and Tables.
-- - MaProcessor: `MACommandProcessor.process_command`
--   (services/integration/ma_command_processor.py), which answers commands; its results go to
--   Consumer.
-- - AdminProcessor: `AdminCommandProcessor.process_command` and `recover_unprocessed_commands`
--   (services/integration/admin_command_processor.py), with what the administration answers in
--   Remote.
-- - Caches: services/shared/cache_service.py.
-- - Rbac: the tables, the audit log and the operations of services/shared/rbac_service.py, in Users,
--   Roles (with the recursive query in Descent), UserRoles and Permissions; SuperAdmins, Acyclic,
--   Kept, RoleSteps, Assigned and Allowed hold the proofs.
-- - Guardrails: `redact_pii` of services/ai/ai_guardrails.py over texts as lists of characters
--   (Texts, Luhn), `StreamRedactor` in Stream and `screen_input` in Screening; Spans, Cover,
--   Redaction, Cuts, Streaming, Weights and Verdicts hold the proofs.
-- - Uploads: `read_upload_limited` of services/uploads/upload_security_service.py, with its proofs in
--   Limits; Archive is services/uploads/upload_archive_service.py, Shelf the abstract shelf that it
--   implements, and Stored, Shown and Refined hold the proofs.
-- - AiUsage: services/ai/ai_usage_service.py; Windows and Quota hold the proofs.
-- - Notifications: services/notifications/notification_service.py, with the two syncs in Sync;
--   Counts and Reading hold the proofs.
-- - Auth: services/shared/auth_service.py and tools/shared/auth_router.py, the identification of a
--   request with its session, signing in and out in Accounts, and the permissions and guards in
--   Permissions, over the tables of Rbac; Sessions, SignIn, Admitted and Granted hold the
--   proofs.
-- - Finance: services/integration/finance_integration_service.py, with a breaker that repeats Circuit's;
--   Tokens has its token cache and Contacts its syncs; Outage, Fresh and Stored hold the proofs.
-- - Workflow: the assignments of tools/integration/workflow_assignment_router.py, which read the
--   administration through Circuit and show the queued commands of Tables (Reading); Snapshot has what
--   creation and update write, and Overwritten, Plain and Shown hold the proofs.
-- The modules named Tests run the definitions on concrete inputs.
--
-- Times are numbers (milliseconds for the breakers) that an operation takes as an argument where
-- the code reads a clock. Texts compare by their characters. JSON numbers are natural numbers. The
-- recursive query for a role's descendants runs on fuel, one more than the sum of the ranks of the
-- roles is enough where they have no cycle; the reading of an upload runs on fuel too, and one more
-- than the number of its bytes is enough. Every other loop runs over a finite list. What the
-- broker, a fetch, the decoding of a token, a UUID or an envelope's validation does is a parameter.
-- Statements of the database are atomic and do not fail; log lines, sleeps and subscriptions
-- are left out.
--
-- The archive's index is not read damaged, and a stored file that is there can be read. A finance call is
-- two steps, before and after its fetch, between which other calls run; the other awaits of the
-- program are taken to be uninterrupted, but where a file's comment says more.
--
-- Not modelled: the other HTTP routers, the administration integration, the MCP tools, OAuth and
-- PyJWT, storage, dashboards, reports, logging and the MQTT and AMQP clients: reading queries, or calls
-- of libraries.
pub mod AdminProcessor
pub mod AiUsage
pub mod Auth
pub mod Base
pub mod Caches
pub mod Call
pub mod Circuit
pub mod CommandService
pub mod Connectors
pub mod Consumer
pub mod Envelopes
pub mod Finance
pub mod Guardrails
pub mod MaProcessor
pub mod Notifications
pub mod Outbox
pub mod Policy
pub mod Projections
pub mod Rbac
pub mod Registry
pub mod Tables
pub mod Uploads
pub mod Workflow
