-- ===== src/CommandService/Dispatching.antt =====
-- What the outbox publisher makes of a command that `submit_command` added.
use mathlib.Core.Option
use internal_portal_ceo_dash.Base.{ℕ, Option, none, some, List, [], ◌∷◌}
use internal_portal_ceo_dash.Tables.{CommandRow, OutboxRow}
use internal_portal_ceo_dash.Outbox.{Publish, confirmed, raised, Turn, dispatch_row}

-- the command as the confirmed publish marks it
abbrev pub dispatched : ℕ → CommandRow → CommandRow
dispatched now c = record c { status = "DISPATCHED"; dispatched_at = some now; updated_at = now }

-- what one row of the outbox makes of one command
abbrev dispatch_one : ℕ → Option ℕ → Publish → CommandRow → CommandRow
dispatch_one now none p c = c
dispatch_one now (some id) (raised _) c = c
dispatch_one now (some id) confirmed c = dispatch_row now id c

-- what the loop over the rows makes of one command, while the worker runs
unfoldable command_after : (ℕ → Turn) → ℕ → List OutboxRow → CommandRow → CommandRow
command_after turn now [] c = c
command_after turn now (r ∷ rs) c =
    command_after turn now rs (dispatch_one now r.command_id (turn r.id).publish c)
