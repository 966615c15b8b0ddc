-- ===== src/Outbox/Tests.antt =====
-- Runs of the outbox publisher.
use internal_portal_ceo_dash.Base.{
  ℕ, ◌+◌, ◌≡◌, ◌⊎◌, refl, length, ◌≤◌, true, none, some, List, [], ◌∷◌, map, ◌==◌, if◌then◌else◌,
  All, arith,
}
use internal_portal_ceo_dash.Base.Json.{null}
use internal_portal_ceo_dash.Tables.{OutboxStatus, pending, published, failed, OutboxRow, Database}
use internal_portal_ceo_dash.Outbox.{confirmed, raised, Turn, due, process_outbox_batch}
use internal_portal_ceo_dash.Outbox.Rows.{IsValid}
use internal_portal_ceo_dash.Outbox.Batch.{HasDistinctIds, settled, batch_settles}
use internal_portal_ceo_dash.Outbox.Drains.{batches, five_batches_drain}

abbrev row : ℕ → OutboxStatus → ℕ → OutboxRow
row id status retries = record {
  id = id;
  event_id = id + 100;
  command_id = some (id + 200);
  exchange_name = "ceo.commands";
  routing_key = "administration.request.approve";
  payload = null;
  status = status;
  retry_count = retries;
  last_error = none;
  created_at = 10 + id;
  published_at = none;
}

abbrev database : Database
database = record {
  service_commands = [];
  service_outbox = row 1 pending 0 ∷ row 2 pending 4 ∷ row 3 published 0 ∷ [];
  service_inbox = [];
  projections = [];
  audit_logs = [];
}

-- a broker that confirms the first row only
abbrev broker : ℕ → Turn
broker id = record { running = true; publish = if id == 1 then confirmed else raised "no confirm" }

database-IsValid : All IsValid database.service_outbox
database-IsValid = ground arith

database-HasDistinctIds : HasDistinctIds database.service_outbox
database-HasDistinctIds = ground arith

batch_settles_example :
    (process_outbox_batch true broker 50 20 database).0.service_outbox
    ≡ map (settled broker 50) database.service_outbox
batch_settles_example =
    batch_settles broker 50 20 database (λ i. refl) database-HasDistinctIds
      (unfold due in omega arith)

abbrev five_batches : List ((ℕ → Turn) × ℕ)
five_batches = (broker, 50) ∷ (broker, 51) ∷ (broker, 52) ∷ (broker, 53) ∷ (broker, 54) ∷ []

few_due : length (due database.service_outbox) ≤ 2
unfolding due
few_due = omega arith

five_batches_drain_example :
    All
      (λ r. (r.status ≡ published) ⊎ ((r.status ≡ failed) × (r.retry_count ≡ 5)))
      (batches 2 five_batches database).service_outbox
five_batches_drain_example =
    five_batches_drain 2 five_batches database
      (λ i. refl, (λ i. refl, (λ i. refl, (λ i. refl, (λ i. refl, tt))))) refl
      database-HasDistinctIds few_due database-IsValid
