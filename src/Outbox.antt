-- ===== src/Outbox.antt =====
-- `OutboxPublisher.process_outbox_batch` of services/integration/outbox_publisher.py: the fetch of
-- pending rows, the publishing of each, and the marks that are left in the tables. What the broker
-- does with a row, and whether the worker still runs when its turn comes, is given by a schedule.
-- The closing sleeps and log lines are left out, and so is the failure to get a connection, which
-- changes nothing.
pub mod Rows
pub mod Batch
pub mod Drains
mod Tests
use internal_portal_ceo_dash.Base.{
  ℕ, zero, suc, ◌+◌, String, Bool, true, false, not, ◌&&◌, Option, none, some, List, [], ◌∷◌, map,
  ltb, leb, ◌==◌, str_eq, if◌then◌else◌,
}
use internal_portal_ceo_dash.Tables.{
  CommandRow, OutboxStatus, pending, published, failed, OutboxRow, Database,
}

abbrev pub max_retries : ℕ
max_retries = 5

-- How the `try` block of one row ends: with the broker's confirmation and the transaction that marks
-- the row, or by an exception with this text (which an unconfirmed publish raises too).
pub data Publish : Type 0 where
  confirmed : Publish
  raised : String → Publish

-- what the loop meets at a row: whether `self._running` still holds, and how the publishing ends
pub record Turn : Type 0 where
  pub running : Bool
  pub publish : Publish

abbrev pub is_pending : OutboxStatus → Bool
is_pending pending = true
is_pending _ = false

-- `status = 'PENDING' AND retry_count < $1`
abbrev pub is_due : OutboxRow → Bool
is_due r = is_pending r.status && ltb r.retry_count max_retries

unfoldable pub due : List OutboxRow → List OutboxRow
due [] = []
due (r ∷ rs) = if is_due r then r ∷ due rs else due rs

-- `ORDER BY created_at ASC`
unfoldable pub insert_row : OutboxRow → List OutboxRow → List OutboxRow
insert_row r [] = r ∷ []
insert_row r (s ∷ rs) = if leb r.created_at s.created_at then r ∷ s ∷ rs else s ∷ insert_row r rs

unfoldable pub order_rows : List OutboxRow → List OutboxRow
order_rows [] = []
order_rows (r ∷ rs) = insert_row r (order_rows rs)

-- `LIMIT $2`
unfoldable pub limit_rows : ℕ → List OutboxRow → List OutboxRow
limit_rows zero rs = []
limit_rows (suc n) [] = []
limit_rows (suc n) (r ∷ rs) = r ∷ limit_rows n rs

unfoldable pub fetch_rows : ℕ → List OutboxRow → List OutboxRow
fetch_rows limit table = limit_rows limit (order_rows (due table))

-- the two `UPDATE service_outbox`: what they make of the row that the fetched row `r` names
unfoldable pub mark_row : ℕ → OutboxRow → Publish → OutboxRow → OutboxRow
mark_row now r confirmed x = record x {
  status = published;
  published_at = some now;
  last_error = none;
}
mark_row now r (raised text) x = record x {
  retry_count = r.retry_count + 1;
  last_error = some text;
  status = if leb max_retries (r.retry_count + 1) then failed else pending;
}

unfoldable pub mark_in : ℕ → OutboxRow → Publish → OutboxRow → OutboxRow
mark_in now r p x = if x.id == r.id then mark_row now r p x else x

-- `UPDATE service_commands SET status = 'DISPATCHED' … WHERE command_id = $1 AND status = 'QUEUED'`
unfoldable pub dispatch_row : ℕ → ℕ → CommandRow → CommandRow
dispatch_row now cmd_id c =
    if c.command_id == cmd_id && str_eq c.status "QUEUED"
    then record c { status = "DISPATCHED"; dispatched_at = some now; updated_at = now }
    else c

-- `if cmd_id:` under the confirmed publish; a UUID is truthy
unfoldable pub dispatch : ℕ → Option ℕ → Publish → List CommandRow → List CommandRow
dispatch now none p commands = commands
dispatch now (some cmd_id) (raised _) commands = commands
dispatch now (some cmd_id) confirmed commands = map (dispatch_row now cmd_id) commands

abbrev pub count_published : Publish → ℕ → ℕ
count_published confirmed n = n + 1
count_published (raised _) n = n

-- the body of the loop
unfoldable pub publish_row : ℕ → OutboxRow → Publish → Database → Database
publish_row now r p db = record db {
  service_outbox = map (mark_in now r p) db.service_outbox;
  service_commands = dispatch now r.command_id p db.service_commands;
}

-- the loop over the fetched rows, with the number published so far
unfoldable pub publish_rows : (ℕ → Turn) → ℕ → List OutboxRow → ℕ → Database → Database × ℕ
publish_rows turn now [] count db = (db, count)
publish_rows turn now (r ∷ rs) count db =
    let rest =
      publish_rows turn now rs (count_published (turn r.id).publish count)
        (publish_row now r (turn r.id).publish db) in
    if (turn r.id).running then rest else (db, count)

-- `process_outbox_batch`, given whether `self._running` holds when it is called
unfoldable pub process_outbox_batch : Bool → (ℕ → Turn) → ℕ → ℕ → Database → Database × ℕ
process_outbox_batch running turn now limit db =
    if running then publish_rows turn now (fetch_rows limit db.service_outbox) 0 db else (db, 0)
